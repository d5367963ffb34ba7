-- ===== src/Recovery.antt =====
-- crates/forensis-core/src/recovery: the content of an entry, read back from the evidence.
pub mod Engine
mod Tests
