-- ===== src/Ntfs/Directory.antt =====
-- crates/forensis-core/src/filesystem/ntfs/directory.rs, directory_entry.rs, bitmap.rs and
-- file_content.rs: directories by their index entries, cluster bitmaps, and the content of a record.
use Prim.Native.Nat.{bit_and}
use forensis.Prelude.{
  Bool, List, Result, [], err, fail_if, false, get_elem?, get_or, if◌then◌else◌, invalid_format,
  leb, length, not, ok, ok_or, panic, ℕ, ◌%◌, ◌*◌, ◌++◌, ◌/◌, ◌==◌, ◌>>=◌, ◌>>◌, ◌^◌, ◌∷◌,
}
use forensis.Source.{Readable}
use forensis.Ntfs.FileName.{FileNameAttribute}
use forensis.Ntfs.IndexAllocation.{IndexAllocation}
use forensis.Ntfs.IndexEntry
use forensis.Ntfs.IndexEntry.{IndexEntry}
use forensis.Ntfs.IndexRoot.{IndexRoot}
use forensis.Ntfs.MftParser.{ParsedMftRecord}
use forensis.Ntfs.RunReader
use forensis.Ntfs.RunReader.{DataRunReader}

pub record NtfsDirectory : Type 0 where
  pub mft_record : ℕ
  pub entries : List IndexEntry

abbrev pub from_index_root : ℕ → IndexRoot → NtfsDirectory
from_index_root mft_record root = record { mft_record = mft_record; entries = root.entries }

abbrev pub add_index_allocation : NtfsDirectory → IndexAllocation → NtfsDirectory
add_index_allocation directory allocation = record directory {
  entries = directory.entries ++ allocation.entries;
}

-- `NtfsDirectory::file_name`, which refuses what is not a name.
unfoldable pub file_name : NtfsDirectory → ℕ → Result FileNameAttribute
file_name directory index = do
  entry ←
      ok_or (get_elem? directory.entries index)
        (invalid_format "Directory entry index out of range")
  IndexEntry.file_name entry

-- A round of the loop of `file_names`, before the names of the rounds that follow.
unfoldable pub keep_name :
    Result FileNameAttribute → List FileNameAttribute → Result (List FileNameAttribute)
keep_name (ok name) names = ok (name ∷ names)
keep_name (err error) names = ok names
keep_name panic names = panic

unfoldable pub names_loop : List IndexEntry → Result (List FileNameAttribute)
names_loop [] = ok []
names_loop (entry ∷ entries) = names_loop entries >>= keep_name (IndexEntry.file_name entry)

-- `NtfsDirectory::file_names`, which skips what is not a name.
unfoldable pub file_names : NtfsDirectory → Result (List FileNameAttribute)
file_names directory = names_loop directory.entries

pub record NtfsDirectoryEntry : Type 0 where
  pub file_reference : ℕ
  pub file_name : FileNameAttribute

-- `NtfsDirectoryEntry::from_index_entry`
unfoldable pub from_index_entry : IndexEntry → Result NtfsDirectoryEntry
from_index_entry entry = do
  fail_if (length entry.key == 0) (invalid_format "INDEX_ENTRY contains no FILE_NAME key")
  name ← IndexEntry.file_name entry
  ok (record { file_reference = IndexEntry.mft_record entry; file_name = name })

-- `Bitmap::parse`, `is_allocated` and `cluster_count`; a bitmap is its bytes.
unfoldable pub parse_bitmap : List ℕ → Result (List ℕ)
parse_bitmap bytes = do fail_if (length bytes == 0) (invalid_format "Empty bitmap"); ok bytes

abbrev pub is_allocated : List ℕ → ℕ → Bool
is_allocated bitmap cluster =
    if leb (length bitmap) (cluster / 8)
    then false
    else not (bit_and (get_or bitmap (cluster / 8) 0) (2 ^ (cluster % 8)) == 0)

abbrev pub cluster_count : List ℕ → ℕ
cluster_count bitmap = length bitmap * 8

-- `FileContentReader::read_record`; `read_attribute` is the reader of data runs'.
unfoldable pub read_content : DataRunReader → Readable → ParsedMftRecord → Result (List ℕ)
read_content runs reader parsed = do
  attribute ← ok_or parsed.content (invalid_format "MFT record does not contain a DATA attribute")
  RunReader.read_attribute runs reader attribute
