-- ===== src/Ntfs/IndexAllocation.antt =====
-- crates/forensis-core/src/filesystem/ntfs/index_allocation.rs: a block of a directory index that is
-- stored in clusters of its own.
pub mod Bounds
use forensis.Prelude.{
  List, Result, [], checked_add, checked_mul, fail_if, if◌then◌else◌, invalid_format, leb, length,
  ltb, not, ok, ok_or, panic, set, sub, suc, u64_mod, zero, ℕ, ◌%◌, ◌*◌, ◌+◌, ◌/◌, ◌==◌, ◌>>=◌,
  ◌>>◌, ◌||◌, ◌∷◌,
}
use forensis.Bytes.{read_le, slice, bytes_eq}
use forensis.Ntfs.IndexEntry
use forensis.Ntfs.IndexEntry.{IndexEntry, is_last_flags}

-- "INDX"
abbrev pub indx_signature : List ℕ
indx_signature = 0x49 ∷ 0x4e ∷ 0x44 ∷ 0x58 ∷ []

abbrev pub indx_header_size : ℕ
indx_header_size = 40

-- `content` is the block after the fixup.
pub record IndexAllocation : Type 0 where
  pub content : List ℕ
  pub entries : List IndexEntry

-- One round of the fixup.
unfoldable pub fix_sector : ℕ → ℕ → ℕ → List ℕ → Result (List ℕ)
fix_sector usa_offset update_sequence sector_index content = do
  sector_end ←
      ok_or (checked_mul u64_mod (sector_index + 1) 512)
        (invalid_format "INDEX_ALLOCATION sector offset overflow")
  fail_if (ltb (length content) sector_end) (invalid_format "INDEX_ALLOCATION fixup exceeds block")
  replacement ← read_le 2 content (usa_offset + 2 + sector_index * 2)
  trailer_offset ← sub sector_end 2
  trailer ← read_le 2 content trailer_offset
  fail_if (not (trailer == update_sequence))
      (invalid_format "INDEX_ALLOCATION fixup sequence mismatch")
  ok (set (set content trailer_offset (replacement % 256)) (trailer_offset + 1) (replacement / 256))

-- The `for` loop, with the rounds that are left.
unfoldable pub fixup_loop : ℕ → ℕ → ℕ → ℕ → List ℕ → Result (List ℕ)
fixup_loop usa_offset update_sequence zero sector_index content = ok content
fixup_loop usa_offset update_sequence (suc left) sector_index content = do
  fixed ← fix_sector usa_offset update_sequence sector_index content
  fixup_loop usa_offset update_sequence left (sector_index + 1) fixed

-- The first half of `parse`: the block with its trailers restored.
unfoldable pub fixed_block : List ℕ → Result (List ℕ)
fixed_block content = do
  fail_if (ltb (length content) indx_header_size)
      (invalid_format "INDEX_ALLOCATION block is too small")
  signature ← slice content 0 4
  fail_if (not (bytes_eq signature indx_signature))
      (invalid_format "Invalid INDEX_ALLOCATION signature")
  usa_offset ← read_le 2 content 4
  usa_count ← read_le 2 content 6
  fail_if (ltb usa_count 2) (invalid_format "Invalid INDEX_ALLOCATION USA count")
  usa_size ←
      ok_or (checked_mul u64_mod usa_count 2) (invalid_format "INDEX_ALLOCATION USA size overflow")
  usa_end ←
      ok_or (checked_add u64_mod usa_offset usa_size)
        (invalid_format "INDEX_ALLOCATION USA range overflow")
  fail_if (ltb usa_offset 8 || ltb (length content) usa_end)
      (invalid_format "INDEX_ALLOCATION USA exceeds block")
  update_sequence ← read_le 2 content usa_offset
  replacement_count ← sub usa_count 1
  fail_if (replacement_count == 0) (invalid_format "INDEX_ALLOCATION contains no fixup values")
  fixup_loop usa_offset update_sequence replacement_count 0 content

-- The `while` loop, at an offset; what it pushes is the head of the result. The fuel is one more than
-- the length of the block.
unfoldable pub entries_loop : ℕ → List ℕ → ℕ → ℕ → Result (List IndexEntry)
entries_loop zero content entries_end offset = panic
entries_loop (suc fuel) content entries_end offset =
    let body = (do
      entry_length ← read_le 2 content (offset + 8)
      flags ← read_le 2 content (offset + 12)
      let rest = (do
        fail_if (ltb entry_length 16) (invalid_format "Invalid INDEX_ENTRY length")
        entry_end ←
            ok_or (checked_add u64_mod offset entry_length)
              (invalid_format "Invalid INDEX_ENTRY range")
        fail_if (ltb entries_end entry_end) (invalid_format "INDEX_ENTRY exceeds INDEX_ALLOCATION")
        part ← slice content offset entry_end
        entry ← IndexEntry.parse part
        others ← entries_loop fuel content entries_end entry_end
        ok (entry ∷ others))
      if is_last_flags flags then ok [] else rest) in
    if leb (offset + 16) entries_end then body else ok []

-- `IndexAllocation::parse`
unfoldable pub parse : List ℕ → Result IndexAllocation
parse content = do
  fixed ← fixed_block content
  entries_offset_relative ← read_le 4 fixed 24
  entries_size ← read_le 4 fixed 28
  entries_offset ←
      ok_or (checked_add u64_mod 24 entries_offset_relative)
        (invalid_format "Invalid INDEX_ALLOCATION entry offset")
  entries_end ←
      ok_or (checked_add u64_mod entries_offset entries_size)
        (invalid_format "Invalid INDEX_ALLOCATION entry range")
  fail_if (ltb (length fixed) entries_offset || ltb (length fixed) entries_end)
      (invalid_format "INDEX_ALLOCATION entries exceed block")
  entries ← entries_loop (length fixed + 1) fixed entries_end entries_offset
  ok (record { content = fixed; entries = entries })
