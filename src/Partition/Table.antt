-- ===== src/Partition/Table.antt =====
-- crates/forensis-core/src/partition/partition_table.rs: which partition table a disk has.
pub mod Detection
pub mod Safety
use forensis.Prelude.{
  Bool, List, Option, Result, false, if◌then◌else◌, none, not, ok, some, suc, true, zero, ℕ, ◌&&◌,
  ◌+◌, ◌==◌, ◌>>=◌, ◌>>◌,
}
use forensis.Bytes.{byte_at, slice, bytes_eq}
use forensis.Source.{Readable}
use forensis.Partition.{Partition, is_known}
use forensis.Partition.Mbr
use forensis.Partition.Mbr.{MbrEntry, read_entry}
use forensis.Partition.Gpt
use forensis.Partition.Gpt.{gpt_signature}

pub data PartitionTableType : Type 0 where
  mbr_table gpt_table unknown_table : PartitionTableType

-- The record `Mbr` is its list of partitions.
pub data PartitionTable : Type 0 where
  mbr : List Partition → PartitionTable
  gpt : Gpt.Gpt → PartitionTable

-- `PartitionTable::table_type`
abbrev pub table_type : PartitionTable → PartitionTableType
table_type (mbr partitions) = mbr_table
table_type (gpt table) = gpt_table

-- `PartitionTable::partitions`
abbrev pub partitions : PartitionTable → List Partition
partitions (mbr listed) = listed
partitions (gpt table) = table.partitions

-- What the closure of `any` asks of an entry.
abbrev pub is_partition : MbrEntry → Bool
is_partition entry =
    is_known entry.partition_type && not (entry.start_lba == 0) && not (entry.sectors == 0)

-- `(0..4).any(...)`, with the entries that are left.
unfoldable pub has_partition : List ℕ → ℕ → ℕ → Result Bool
has_partition sector zero index = ok false
has_partition sector (suc left) index =
    let rest = has_partition sector left (index + 1) in
    read_entry sector index >>= λ entry. if is_partition entry then ok true else rest

-- `PartitionTableDetector::detect`
unfoldable pub detect : Readable → Result PartitionTableType
detect reader = do
  sector ← reader.read_at 512 512
  signature ← slice sector 0 8
  let other = (do
    mbr_sector ← reader.read_at 0 512
    low ← byte_at mbr_sector 510
    high ← byte_at mbr_sector 511
    let recognised = (do
      found ← has_partition mbr_sector 4 0
      ok (if found then mbr_table else unknown_table))
    if not (low == 0x55 && high == 0xaa) then ok unknown_table else recognised)
  if bytes_eq signature gpt_signature then ok gpt_table else other

-- The `match` of `parse` on the detected type.
unfoldable pub parse_as : Readable → PartitionTableType → Result (Option PartitionTable)
parse_as reader mbr_table = do listed ← Mbr.parse reader; ok (some (mbr listed))
parse_as reader gpt_table = do table ← Gpt.parse reader; ok (some (gpt table))
parse_as reader unknown_table = ok none

-- `PartitionTableDetector::parse`
unfoldable pub parse : Readable → Result (Option PartitionTable)
parse reader = do found ← detect reader; parse_as reader found
