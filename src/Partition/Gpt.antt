-- ===== src/Partition/Gpt.antt =====
-- crates/forensis-core/src/partition/gpt.rs: the header of a GUID partition table and its entries.
pub mod Bounds
use forensis.Prelude.{
  List, Option, Result, [], add, checked_add, checked_mul, checked_sub, fail_if, if◌then◌else◌,
  invalid_format, length, ltb, none, ok, ok_or, some, suc, u32_mod, u64_mod, zero, ℕ, ◌++◌, ◌+◌,
  ◌==◌, ◌>>=◌, ◌>>◌, ◌||◌, ◌∷◌,
}
use forensis.Bytes.{read_le, byte_at, slice, bytes_eq}
use forensis.Source.{Readable}
use forensis.Partition.{Partition, unknown}

pub record GptHeader : Type 0 where
  pub partition_entry_lba : ℕ
  pub number_of_partition_entries : ℕ
  pub size_of_partition_entry : ℕ

pub record Gpt : Type 0 where
  pub header : GptHeader
  pub partitions : List Partition

-- "EFI PART"
abbrev pub gpt_signature : List ℕ
gpt_signature = 0x45 ∷ 0x46 ∷ 0x49 ∷ 0x20 ∷ 0x50 ∷ 0x41 ∷ 0x52 ∷ 0x54 ∷ []

-- `end_lba.checked_sub(start_lba).and_then(|value| value.checked_add(1))`
abbrev pub sector_count : ℕ → ℕ → Option ℕ
sector_count start_lba end_lba = elim (checked_sub end_lba start_lba) [
  | none ↦ none
  | some value ↦ checked_add u64_mod value 1
]

-- What one round makes of the entry it has read: `none` is the `continue` on an empty entry.
unfoldable pub parse_entry : List ℕ → ℕ → Result (Option Partition)
parse_entry entry index = byte_at entry 0 >>= λ first_byte. if first_byte == 0 then ok none else (do
  fail_if (ltb (length entry) 48) (invalid_format "GPT partition entry is truncated")
  start_lba ← read_le 8 entry 32
  end_lba ← read_le 8 entry 40
  fail_if (ltb end_lba start_lba) (invalid_format "GPT partition has invalid LBA range")
  sectors ←
      ok_or (sector_count start_lba end_lba) (invalid_format "GPT partition sector count overflow")
  number ← add u32_mod index 1
  ok (
      some (record {
        number = number;
        start_sector = start_lba;
        sector_count = sectors;
        partition_type = unknown;
      })))

abbrev pub push : List Partition → Option Partition → List Partition
push partitions none = partitions
push partitions (some partition) = partitions ++ (partition ∷ [])

-- The `for` loop of `read_partitions`, with the rounds that are left.
unfoldable pub entries_loop :
    Readable → GptHeader → ℕ → ℕ → ℕ → List Partition → Result (List Partition)
entries_loop reader header table_offset zero index partitions = ok partitions
entries_loop reader header table_offset (suc left) index partitions = do
  entry_offset ←
      ok_or (checked_mul u64_mod index header.size_of_partition_entry)
        (invalid_format "GPT partition entry offset overflow")
  offset ←
      ok_or (checked_add u64_mod table_offset entry_offset)
        (invalid_format "GPT partition entry offset overflow")
  entry ← reader.read_at offset header.size_of_partition_entry
  found ← parse_entry entry index
  entries_loop reader header table_offset left (index + 1) (push partitions found)

unfoldable pub read_partitions : Readable → GptHeader → Result (List Partition)
read_partitions reader header = do
  table_offset ←
      ok_or (checked_mul u64_mod header.partition_entry_lba 512)
        (invalid_format "GPT partition table offset overflow")
  entries_loop reader header table_offset header.number_of_partition_entries 0 []

-- The header's fields out of its sector, with the checks on them.
unfoldable pub parse_header : List ℕ → Result GptHeader
parse_header sector = do
  partition_entry_lba ← read_le 8 sector 72
  number_of_partition_entries ← read_le 4 sector 80
  size_of_partition_entry ← read_le 4 sector 84
  fail_if
      (partition_entry_lba == 0
        || number_of_partition_entries == 0
        || ltb size_of_partition_entry 48)
      (invalid_format "Invalid GPT partition entry description")
  fail_if (ltb 4096 size_of_partition_entry)
      (invalid_format "GPT partition entry size is too large")
  fail_if (ltb 1_000_000 number_of_partition_entries)
      (invalid_format "GPT partition entry count is too large")
  ok (record {
    partition_entry_lba = partition_entry_lba;
    number_of_partition_entries = number_of_partition_entries;
    size_of_partition_entry = size_of_partition_entry;
  })

abbrev pub no_gpt : Gpt
no_gpt = record {
  header = record {
    partition_entry_lba = 0;
    number_of_partition_entries = 0;
    size_of_partition_entry = 0;
  };
  partitions = [];
}

-- `Gpt::parse`
unfoldable pub parse : Readable → Result Gpt
parse reader = do
  sector ← reader.read_at 512 512
  signature ← slice sector 0 8
  let present = (do
    header ← parse_header sector
    partitions ← read_partitions reader header
    ok (record { header = header; partitions = partitions }))
  if bytes_eq signature gpt_signature then present else ok no_gpt
