-- ===== src/Ntfs/DataAttribute.antt =====
-- crates/forensis-core/src/filesystem/ntfs/data_attribute.rs: where the content of a file is.
pub mod Bounds
use forensis.Prelude.{
  Bool, List, Option, Result, [], checked_add, fail_if, false, if◌then◌else◌, invalid_format, leb,
  length, ltb, none, not, ok, ok_or, some, true, u64_mod, ℕ, ◌==◌, ◌>>=◌, ◌>>◌, ◌||◌,
}
use forensis.Bytes.{read_le, byte_at, slice}
use forensis.Ntfs.DataRun
use forensis.Ntfs.DataRun.{DataRun}

abbrev pub data_attribute_type : ℕ
data_attribute_type = 0x80

pub record DataAttribute : Type 0 where
  pub non_resident : Bool
  pub real_size : ℕ
  pub allocated_size : ℕ
  pub resident_data : Option (List ℕ)
  pub data_runs : List DataRun

-- The branch for resident data.
unfoldable pub parse_resident : List ℕ → ℕ → Result DataAttribute
parse_resident buffer size = do
  fail_if (ltb size 22) (invalid_format "Invalid resident DATA attribute")
  value_length ← read_le 4 buffer 16
  value_offset ← read_le 2 buffer 20
  value_end ←
      ok_or (checked_add u64_mod value_offset value_length)
        (invalid_format "Invalid DATA value range")
  fail_if (ltb value_offset 22 || ltb size value_end)
      (invalid_format "DATA value exceeds attribute")
  content ← slice buffer value_offset value_end
  ok (record {
    non_resident = false;
    real_size = value_length;
    allocated_size = value_length;
    resident_data = some content;
    data_runs = [];
  })

-- The branch for data in runs.
unfoldable pub parse_non_resident : List ℕ → ℕ → Result DataAttribute
parse_non_resident buffer size = do
  fail_if (ltb size 64) (invalid_format "Invalid non-resident DATA attribute")
  runlist_offset ← read_le 2 buffer 32
  allocated_size ← read_le 8 buffer 40
  real_size ← read_le 8 buffer 48
  fail_if (leb size runlist_offset) (invalid_format "Invalid DATA runlist offset")
  runlist ← slice buffer runlist_offset size
  data_runs ← DataRun.parse runlist
  ok (record {
    non_resident = true;
    real_size = real_size;
    allocated_size = allocated_size;
    resident_data = none;
    data_runs = data_runs;
  })

-- `DataAttribute::parse`
unfoldable pub parse : List ℕ → Result DataAttribute
parse buffer = do
  fail_if (ltb (length buffer) 16) (invalid_format "Invalid DATA attribute")
  attribute_type ← read_le 4 buffer 0
  fail_if (not (attribute_type == data_attribute_type)) (invalid_format "Not a DATA attribute")
  size ← read_le 4 buffer 4
  fail_if (ltb (length buffer) size) (invalid_format "Truncated DATA attribute")
  flag ← byte_at buffer 8
  if flag == 0 then parse_resident buffer size else parse_non_resident buffer size
