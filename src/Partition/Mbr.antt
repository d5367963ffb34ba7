-- ===== src/Partition/Mbr.antt =====
-- crates/forensis-core/src/partition/mbr.rs: the four entries of a master boot record.
pub mod Slots
use forensis.Prelude.{
  List, Result, [], if◌then◌else◌, ok, suc, zero, ℕ, ◌*◌, ◌++◌, ◌+◌, ◌==◌, ◌>>=◌, ◌>>◌, ◌||◌, ◌∷◌,
}
use forensis.Bytes.{read_le, byte_at}
use forensis.Source.{Readable}
use forensis.Partition.{
  Partition, PartitionType, unknown, fat32, ntfs, linux_filesystem, linux_swap, extended, is_known,
}

-- `Mbr::parse_partition_type`
unfoldable pub parse_partition_type : ℕ → PartitionType
parse_partition_type value =
    if value == 0x07
    then ntfs
    else if value == 0x0b || value == 0x0c
    then fat32
    else if value == 0x82
    then linux_swap
    else if value == 0x83
    then linux_filesystem
    else if value == 0x05 || value == 0x0f
    then extended
    else unknown

-- The three fields of an entry that are read.
pub record MbrEntry : Type 0 where
  pub partition_type : PartitionType
  pub start_lba : ℕ
  pub sectors : ℕ

-- One round's reads from the sector, which the detector makes too.
unfoldable pub read_entry : List ℕ → ℕ → Result MbrEntry
read_entry sector index = do
  let offset = 446 + index * 16
  type_byte ← byte_at sector (offset + 4)
  start_lba ← read_le 4 sector (offset + 8)
  sectors ← read_le 4 sector (offset + 12)
  ok (record {
    partition_type = parse_partition_type type_byte;
    start_lba = start_lba;
    sectors = sectors;
  })

unfoldable pub push_entry : ℕ → MbrEntry → List Partition → List Partition
push_entry index entry partitions =
    if is_known entry.partition_type
    then partitions
      ++ (record {
        number = index + 1;
        start_sector = entry.start_lba;
        sector_count = entry.sectors;
        partition_type = entry.partition_type;
      }
          ∷ [])
    else partitions

-- The `for` loop of `Mbr::parse`, with the rounds that are left.
unfoldable pub entries_loop : List ℕ → ℕ → ℕ → List Partition → Result (List Partition)
entries_loop sector zero index partitions = ok partitions
entries_loop sector (suc left) index partitions = do
  entry ← read_entry sector index
  entries_loop sector left (index + 1) (push_entry index entry partitions)

-- `Mbr::parse`; the record `Mbr` has the list as its only field.
unfoldable pub parse : Readable → Result (List Partition)
parse reader = do sector ← reader.read_at 0 512; entries_loop sector 4 0 []
