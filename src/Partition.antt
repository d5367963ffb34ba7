-- ===== src/Partition.antt =====
-- crates/forensis-core/src/partition/types.rs; the children are the other files of that directory.
pub mod Mbr
pub mod Gpt
pub mod Table
mod Tests
use forensis.Prelude.{Bool, false, true, ℕ}

pub data PartitionType : Type 0 where
  unknown fat32 ntfs linux_filesystem linux_swap extended : PartitionType

pub record Partition : Type 0 where
  pub number : ℕ
  pub start_sector : ℕ
  pub sector_count : ℕ
  pub partition_type : PartitionType

-- `partition_type != PartitionType::Unknown`
abbrev pub is_known : PartitionType → Bool
is_known unknown = false
is_known fat32 = true
is_known ntfs = true
is_known linux_filesystem = true
is_known linux_swap = true
is_known extended = true
