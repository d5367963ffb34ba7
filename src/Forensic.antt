-- ===== src/Forensic.antt =====
-- crates/forensis-core/src/forensic: the filesystem-independent model of an investigation.
pub mod Model
pub mod Tree
mod Tests
