-- ===== src/Exfat.antt =====
-- crates/forensis-core/src/filesystem/exfat: the boot sector, the reader and the directories.
pub mod Boot
pub mod Reader
pub mod Directory
pub mod InvestigationEntry
pub mod Investigation
mod Tests
