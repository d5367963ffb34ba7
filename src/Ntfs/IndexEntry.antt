-- ===== src/Ntfs/IndexEntry.antt =====
-- crates/forensis-core/src/filesystem/ntfs/index_entry.rs: one entry of a directory index.
pub mod Bounds
pub mod RoundTrip
use Prim.Native.Nat.{bit_and}
use forensis.Prelude.{
  Bool, List, Result, checked_add, fail_if, invalid_format, length, ltb, not, ok, ok_or, u64_mod, ℕ,
  ◌%◌, ◌++◌, ◌/◌, ◌==◌, ◌>>=◌, ◌>>◌, ◌^◌,
}
use forensis.Bytes.{read_le, slice, to_le_bytes}
use forensis.Ntfs.FileName
use forensis.Ntfs.FileName.{FileNameAttribute, mft_reference_mask}

pub record IndexEntry : Type 0 where
  pub file_reference : ℕ
  pub entry_length : ℕ
  pub key_length : ℕ
  pub flags : ℕ
  pub key : List ℕ

-- `IndexEntry::parse`
unfoldable pub parse : List ℕ → Result IndexEntry
parse content = do
  fail_if (ltb (length content) 16) (invalid_format "Invalid INDEX_ENTRY")
  file_reference ← read_le 8 content 0
  entry_length ← read_le 2 content 8
  key_length ← read_le 2 content 10
  flags ← read_le 2 content 12
  fail_if (ltb entry_length 16) (invalid_format "Invalid INDEX_ENTRY length")
  fail_if (ltb (length content) entry_length) (invalid_format "INDEX_ENTRY exceeds buffer")
  key_end ←
      ok_or (checked_add u64_mod 16 key_length) (invalid_format "Invalid INDEX_ENTRY key range")
  fail_if (ltb entry_length key_end) (invalid_format "INDEX_ENTRY key exceeds entry")
  key ← slice content 16 key_end
  ok (record {
    file_reference = file_reference;
    entry_length = entry_length;
    key_length = key_length;
    flags = flags;
    key = key;
  })

-- `IndexEntry::mft_record` and `IndexEntry::sequence_number`
abbrev pub mft_record : IndexEntry → ℕ
mft_record entry = bit_and entry.file_reference mft_reference_mask

abbrev pub sequence_number : IndexEntry → ℕ
sequence_number entry = entry.file_reference / 2 ^ 48 % 2 ^ 16

-- `flags & 0x0002 != 0`
abbrev pub is_last_flags : ℕ → Bool
is_last_flags flags = not (bit_and flags 2 == 0)

-- `IndexEntry::file_name`
unfoldable pub file_name : IndexEntry → Result FileNameAttribute
file_name entry = do
  fail_if (ltb (length entry.key) 66) (invalid_format "INDEX_ENTRY key is too small for FILE_NAME")
  FileName.parse_value entry.key

-- `IndexEntry::raw`
unfoldable pub raw : IndexEntry → List ℕ
raw entry =
    to_le_bytes 8 entry.file_reference
    ++ (to_le_bytes 2 entry.entry_length
        ++ (to_le_bytes 2 entry.key_length
            ++ (to_le_bytes 2 entry.flags ++ (to_le_bytes 2 0 ++ entry.key))))
