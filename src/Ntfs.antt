-- ===== src/Ntfs.antt =====
-- crates/forensis-core/src/filesystem/ntfs
pub mod DataRun
pub mod RunReader
pub mod Record
pub mod Attribute
pub mod StandardInformation
pub mod FileName
pub mod DataAttribute
pub mod IndexEntry
pub mod IndexRoot
pub mod MftParser
pub mod IndexAllocation
pub mod Volume
pub mod InvestigationEntry
pub mod Directory
pub mod Investigation
pub mod MetadataFiles
mod Tests
