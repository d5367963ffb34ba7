-- ===== src/Ntfs/FileName.antt =====
-- crates/forensis-core/src/filesystem/ntfs/file_name.rs: the name of a file and its parent.
pub mod Bounds
use Prim.Native.Nat.{bit_and}
use forensis.Prelude.{
  Bool, List, Result, checked_add, checked_mul, fail_if, invalid_format, length, ltb, not, ok,
  ok_or, u64_mod, ℕ, ◌%◌, ◌/◌, ◌==◌, ◌>>=◌, ◌>>◌, ◌^◌, ◌||◌,
}
use forensis.Bytes.{read_le, byte_at, slice}
use forensis.Text.{Text, utf16_units, from_utf16}

abbrev pub file_name_attribute_type : ℕ
file_name_attribute_type = 0x30

abbrev pub mft_reference_mask : ℕ
mft_reference_mask = 0xffff_ffff_ffff

abbrev pub file_name_value_fixed_size : ℕ
file_name_value_fixed_size = 66

pub record FileNameAttribute : Type 0 where
  pub parent_record : ℕ
  pub parent_sequence : ℕ
  pub namespace : ℕ
  pub name : Text
  pub allocated_size : ℕ
  pub real_size : ℕ
  pub file_attributes : ℕ

-- The name out of a value: its length in units is at 64.
unfoldable pub parse_name : List ℕ → ℕ → Result Text
parse_name value name_length = do
  name_size ← ok_or (checked_mul u64_mod name_length 2) (invalid_format "Invalid FILE_NAME length")
  name_end ←
      ok_or (checked_add u64_mod file_name_value_fixed_size name_size)
        (invalid_format "Invalid FILE_NAME name range")
  fail_if (ltb (length value) name_end) (invalid_format "FILE_NAME name exceeds value")
  name_bytes ← slice value file_name_value_fixed_size name_end
  ok_or (from_utf16 (utf16_units name_bytes)) (invalid_format "Invalid UTF-16 FILE_NAME")

-- `FileNameAttribute::parse_value`
unfoldable pub parse_value : List ℕ → Result FileNameAttribute
parse_value value = do
  fail_if (ltb (length value) file_name_value_fixed_size)
      (invalid_format "Truncated FILE_NAME value")
  parent_reference ← read_le 8 value 0
  allocated_size ← read_le 8 value 40
  real_size ← read_le 8 value 48
  file_attributes ← read_le 4 value 56
  name_length ← byte_at value 64
  namespace ← byte_at value 65
  name ← parse_name value name_length
  ok (record {
    parent_record = bit_and parent_reference mft_reference_mask;
    parent_sequence = parent_reference / 2 ^ 48 % 2 ^ 16;
    namespace = namespace;
    name = name;
    allocated_size = allocated_size;
    real_size = real_size;
    file_attributes = file_attributes;
  })

-- `FileNameAttribute::parse`
unfoldable pub parse : List ℕ → Result FileNameAttribute
parse buffer = do
  fail_if (ltb (length buffer) 16) (invalid_format "Invalid FILE_NAME attribute")
  attribute_type ← read_le 4 buffer 0
  fail_if (not (attribute_type == file_name_attribute_type))
      (invalid_format "Not a FILE_NAME attribute")
  attribute_length ← read_le 4 buffer 4
  fail_if (ltb attribute_length 24 || ltb (length buffer) attribute_length)
      (invalid_format "Invalid FILE_NAME attribute length")
  non_resident ← byte_at buffer 8
  fail_if (not (non_resident == 0)) (invalid_format "FILE_NAME attribute must be resident")
  fail_if (ltb (length buffer) 24) (invalid_format "Truncated FILE_NAME attribute header")
  value_length ← read_le 4 buffer 16
  value_offset ← read_le 2 buffer 20
  fail_if (ltb value_offset 24) (invalid_format "Invalid FILE_NAME value offset")
  value_end ←
      ok_or (checked_add u64_mod value_offset value_length)
        (invalid_format "Invalid FILE_NAME value range")
  fail_if (ltb attribute_length value_end || ltb (length buffer) value_end)
      (invalid_format "FILE_NAME value exceeds attribute")
  value ← slice buffer value_offset value_end
  parse_value value

-- `FileNameAttribute::is_directory`
abbrev pub is_directory : FileNameAttribute → Bool
is_directory attribute = not (bit_and attribute.file_attributes 0x1000_0000 == 0)
