-- ===== src/Fat32.antt =====
-- crates/forensis-core/src/filesystem/fat32
pub mod Boot
pub mod Reader
pub mod InvestigationEntry
pub mod Investigation
pub mod Directory
mod Tests
