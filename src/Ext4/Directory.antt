-- ===== src/Ext4/Directory.antt =====
-- crates/forensis-core/src/filesystem/ext4/directory.rs: the entries of a directory's block.
pub mod Bounds
use forensis.Prelude.{
  Bool, List, Result, [], drop, fail_if, if◌then◌else◌, invalid_format, length, ltb, ok, panic, suc,
  zero, ℕ, ◌+◌, ◌==◌, ◌>>=◌, ◌>>◌, ◌∷◌,
}
use forensis.Bytes.{read_le, byte_at, slice}
use forensis.Text.{Text}
use forensis.Text.Utf8.{from_utf8_lossy}

pub record Ext4DirectoryEntry : Type 0 where
  pub inode : ℕ
  pub record_length : ℕ
  pub name_length : ℕ
  pub file_type : ℕ
  pub name : Text

abbrev pub entry_header_size : ℕ
entry_header_size = 8

unfoldable pub parse_entry : List ℕ → Result Ext4DirectoryEntry
parse_entry content = do
  fail_if (ltb (length content) entry_header_size)
      (invalid_format "Invalid EXT4 directory entry: insufficient data")
  inode ← read_le 4 content 0
  record_length ← read_le 2 content 4
  name_length ← byte_at content 6
  file_type ← byte_at content 7
  fail_if (ltb record_length entry_header_size)
      (invalid_format "Invalid EXT4 directory entry record length")
  let name_end = entry_header_size + name_length
  fail_if (ltb record_length name_end) (invalid_format "Invalid EXT4 directory entry name length")
  fail_if (ltb (length content) name_end)
      (invalid_format "Invalid EXT4 directory entry: truncated name")
  name_bytes ← slice content entry_header_size name_end
  ok (record {
    inode = inode;
    record_length = record_length;
    name_length = name_length;
    file_type = file_type;
    name = from_utf8_lossy name_bytes;
  })

-- The `while` loop of `parse_block` over what is left of the block. Each round takes eight bytes at
-- least, so that the fuel, one more than the length of the block, is not used up.
unfoldable pub block_loop : ℕ → List ℕ → Result (List Ext4DirectoryEntry)
block_loop zero remaining = panic
block_loop (suc fuel) remaining =
    let round = read_le 2 remaining 4 >>= λ record_length.
    let later = block_loop fuel (drop record_length remaining) in
    let kept = slice remaining 0 record_length >>= λ entry_data.
    parse_entry entry_data >>= λ entry. later >>= λ entries. ok (entry ∷ entries) in
    if record_length == 0
    then ok []
    else fail_if (ltb record_length entry_header_size)
        (invalid_format "Invalid EXT4 directory entry record length")
      >> (fail_if (ltb (length remaining) record_length)
            (invalid_format "EXT4 directory entry exceeds block boundary")
          >> kept) in
    if ltb (length remaining) entry_header_size then ok [] else round

unfoldable pub parse_block : List ℕ → Result (List Ext4DirectoryEntry)
parse_block content = block_loop (length content + 1) content

-- `is_unused`, `is_regular_file`, `is_directory` and `is_symlink`
abbrev pub is_unused : Ext4DirectoryEntry → Bool
is_unused entry = entry.inode == 0

abbrev pub is_regular_file : Ext4DirectoryEntry → Bool
is_regular_file entry = entry.file_type == 1

abbrev pub is_directory : Ext4DirectoryEntry → Bool
is_directory entry = entry.file_type == 2

abbrev pub is_symlink : Ext4DirectoryEntry → Bool
is_symlink entry = entry.file_type == 7
