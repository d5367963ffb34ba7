-- ===== src/Ntfs/Record.antt =====
-- crates/forensis-core/src/filesystem/ntfs/mft_record.rs: a record of the Master File Table, and the
-- update sequence that protects its sectors.
pub mod Fixup
pub mod Restore
use forensis.Prelude.{
  List, Option, Result, [], checked_add, checked_mul, fail_if, invalid_format, length, ltb, none,
  not, ok, ok_or, set, some, suc, u64_mod, zero, ℕ, ◌%◌, ◌*◌, ◌+◌, ◌-◌, ◌/◌, ◌==◌, ◌>>=◌, ◌>>◌,
  ◌||◌, ◌∷◌,
}
use forensis.Bytes.{read_le, byte_at, slice, bytes_eq}

-- "FILE"
abbrev pub mft_signature : List ℕ
mft_signature = 0x46 ∷ 0x49 ∷ 0x4c ∷ 0x45 ∷ []

abbrev pub ntfs_sector_size : ℕ
ntfs_sector_size = 512

-- One round: the trailer of a sector is compared, and replaced from the array. The array is read
-- from the buffer that the rounds before have written.
unfoldable pub fix_sector : ℕ → ℕ → ℕ → List ℕ → Result (List ℕ)
fix_sector usa_offset update_sequence sector_index content = do
  let replacement_offset = usa_offset + 2 + sector_index * 2
  first ← byte_at content replacement_offset
  second ← byte_at content (replacement_offset + 1)
  let trailer_offset = (sector_index + 1) * ntfs_sector_size - 2
  trailer ← read_le 2 content trailer_offset
  fail_if (not (trailer == update_sequence)) (invalid_format "MFT record USA sequence mismatch")
  ok (set (set content trailer_offset first) (trailer_offset + 1) second)

-- The `for` loop, with the rounds that are left.
unfoldable pub fixup_loop : ℕ → ℕ → ℕ → ℕ → List ℕ → Result (List ℕ)
fixup_loop usa_offset update_sequence zero sector_index content = ok content
fixup_loop usa_offset update_sequence (suc left) sector_index content = do
  fixed ← fix_sector usa_offset update_sequence sector_index content
  fixup_loop usa_offset update_sequence left (sector_index + 1) fixed

unfoldable pub apply_usa_fixup : List ℕ → Result (List ℕ)
apply_usa_fixup content = do
  fail_if (ltb (length content) 8)
      (invalid_format "MFT record is too small for Update Sequence Array")
  usa_offset ← read_le 2 content 4
  usa_count ← read_le 2 content 6
  fail_if (ltb usa_count 2) (invalid_format "Invalid MFT record USA count")
  usa_size ← ok_or (checked_mul u64_mod usa_count 2) (invalid_format "MFT record USA size overflow")
  usa_end ←
      ok_or (checked_add u64_mod usa_offset usa_size)
        (invalid_format "MFT record USA range overflow")
  fail_if (ltb usa_offset 8 || ltb (length content) usa_end)
      (invalid_format "MFT record USA exceeds record")
  fail_if (not (length content % ntfs_sector_size == 0))
      (invalid_format "MFT record size is not aligned to the NTFS sector size")
  let sector_count = length content / ntfs_sector_size
  fail_if (not (usa_count == sector_count + 1))
      (invalid_format "MFT record USA count does not match the number of sectors")
  update_sequence ← read_le 2 content usa_offset
  fixup_loop usa_offset update_sequence sector_count 0 content

pub record MftRecordHeader : Type 0 where
  pub usa_offset : ℕ
  pub usa_count : ℕ
  pub sequence_number : ℕ
  pub hard_link_count : ℕ
  pub first_attribute_offset : ℕ
  pub flags : ℕ
  pub used_size : ℕ
  pub allocated_size : ℕ
  pub base_record : ℕ
  pub next_attribute_id : ℕ

-- `content` is the source's `data`, the bytes after the fixup.
pub record MftRecord : Type 0 where
  pub index : ℕ
  pub header : Option MftRecordHeader
  pub content : List ℕ

-- `MftRecord::set_header`
abbrev pub set_header : MftRecordHeader → MftRecord → MftRecord
set_header header record' = record record' { header = some header }

-- `MftRecord::new`
unfoldable pub new_record : ℕ → List ℕ → Result MftRecord
new_record index content = do
  fail_if (length content == 0) (invalid_format "Empty MFT record")
  fail_if (ltb (length content) 4) (invalid_format "MFT record is smaller than its signature")
  signature ← slice content 0 4
  fail_if (not (bytes_eq signature mft_signature)) (invalid_format "Invalid MFT record signature")
  fixed ← apply_usa_fixup content
  ok (record { index = index; header = none; content = fixed })
