-- ===== src/Ntfs/IndexRoot.antt =====
-- crates/forensis-core/src/filesystem/ntfs/index_root.rs: the resident part of a directory index.
pub mod Bounds
use forensis.Prelude.{
  List, Result, [], checked_add, fail_if, if◌then◌else◌, invalid_format, leb, length, ltb, ok,
  ok_or, panic, suc, u64_mod, zero, ℕ, ◌+◌, ◌>>=◌, ◌>>◌, ◌∷◌,
}
use forensis.Bytes.{read_le, slice}
use forensis.Ntfs.IndexEntry
use forensis.Ntfs.IndexEntry.{IndexEntry, is_last_flags}

abbrev pub index_root_header_size : ℕ
index_root_header_size = 16

abbrev pub index_header_size : ℕ
index_header_size = 16

pub record IndexRoot : Type 0 where
  pub indexed_attribute_type : ℕ
  pub collation_rule : ℕ
  pub index_block_size : ℕ
  pub entries : List IndexEntry

-- The `while` loop, at an offset; what it pushes is the head of the result. Each round advances by
-- at least sixteen, so that the offset passes the end before the fuel, the length of the value, is
-- used up.
unfoldable pub entries_loop : ℕ → List ℕ → ℕ → ℕ → Result (List IndexEntry)
entries_loop zero content entries_end offset = panic
entries_loop (suc fuel) content entries_end offset =
    let body = (do
      entry_length ← read_le 2 content (offset + 8)
      flags ← read_le 2 content (offset + 12)
      fail_if (ltb entry_length 16) (invalid_format "Invalid INDEX_ENTRY length")
      entry_end ←
          ok_or (checked_add u64_mod offset entry_length)
            (invalid_format "Invalid INDEX_ENTRY range")
      fail_if (ltb entries_end entry_end) (invalid_format "INDEX_ENTRY exceeds INDEX_ROOT entries")
      let rest = (do
        part ← slice content offset entry_end
        entry ← IndexEntry.parse part
        others ← entries_loop fuel content entries_end entry_end
        ok (entry ∷ others))
      if is_last_flags flags then ok [] else rest) in
    if leb (offset + 16) entries_end then body else ok []

-- `IndexRoot::parse`
unfoldable pub parse : List ℕ → Result IndexRoot
parse content = do
  fail_if (ltb (length content) index_root_header_size) (invalid_format "Invalid INDEX_ROOT size")
  indexed_attribute_type ← read_le 4 content 0
  collation_rule ← read_le 4 content 4
  index_block_size ← read_le 4 content 8
  fail_if (ltb (length content) (index_root_header_size + index_header_size))
      (invalid_format "Invalid INDEX_ROOT header")
  entries_offset_relative ← read_le 4 content 16
  entries_size ← read_le 4 content 20
  entries_offset ←
      ok_or (checked_add u64_mod index_root_header_size entries_offset_relative)
        (invalid_format "Invalid INDEX_ROOT entry offset")
  fail_if (ltb entries_size index_header_size) (invalid_format "Invalid INDEX_ROOT entries size")
  entries_end ←
      ok_or (checked_add u64_mod index_root_header_size entries_size)
        (invalid_format "Invalid INDEX_ROOT entries range")
  fail_if (ltb (length content) entries_end)
      (invalid_format "INDEX_ROOT entries exceed attribute value")
  fail_if (leb entries_end entries_offset) (invalid_format "Invalid INDEX_ROOT entry offset")
  entries ← entries_loop (length content) content entries_end entries_offset
  ok (record {
    indexed_attribute_type = indexed_attribute_type;
    collation_rule = collation_rule;
    index_block_size = index_block_size;
    entries = entries;
  })
