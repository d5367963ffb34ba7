-- ===== src/Ntfs/Attribute.antt =====
-- crates/forensis-core/src/filesystem/ntfs/mft_attribute.rs: the attributes of a record.
pub mod Bounds
pub mod RoundTrip
use forensis.Prelude.{
  Bool, List, Result, [], checked_add, fail_if, false, if◌then◌else◌, invalid_format, length, ltb,
  not, ok, ok_or, true, u64_mod, ℕ, ◌==◌, ◌>>=◌, ◌>>◌, ◌||◌,
}
use forensis.Bytes.{read_le, byte_at, slice}

-- The source's `Data` is `data_attribute`.
pub data AttributeType : Type 0 where
  standard_information attribute_list file_name object_id security_descriptor : AttributeType
  volume_name volume_information data_attribute index_root index_allocation : AttributeType
  bitmap reparse_point extended_attribute_information extended_attribute end : AttributeType
  unknown : ℕ → AttributeType

-- `AttributeType::from_raw`
unfoldable pub from_raw : ℕ → AttributeType
from_raw value =
    if value == 0x10
    then standard_information
    else if value == 0x20
    then attribute_list
    else if value == 0x30
    then file_name
    else if value == 0x40
    then object_id
    else if value == 0x50
    then security_descriptor
    else if value == 0x60
    then volume_name
    else if value == 0x70
    then volume_information
    else if value == 0x80
    then data_attribute
    else if value == 0x90
    then index_root
    else if value == 0xa0
    then index_allocation
    else if value == 0xb0
    then bitmap
    else if value == 0xc0
    then reparse_point
    else if value == 0xd0
    then extended_attribute_information
    else if value == 0xe0
    then extended_attribute
    else if value == 0xffff_ffff
    then end
    else unknown value

-- `size` and `content` are the source's `length` and `data`.
pub record MftAttribute : Type 0 where
  pub attribute_type : AttributeType
  pub size : ℕ
  pub non_resident : Bool
  pub id : ℕ
  pub content : List ℕ

-- `attribute_type == AttributeType::End`
abbrev pub is_end : AttributeType → Bool
is_end end = true
is_end _ = false

-- `matches!(attribute_type, AttributeType::Unknown(_))`
abbrev pub is_unknown : AttributeType → Bool
is_unknown (unknown value) = true
is_unknown _ = false

abbrev pub end_attribute : MftAttribute
end_attribute = record {
  attribute_type = end;
  size = 0;
  non_resident = false;
  id = 0;
  content = [];
}

-- The value of a resident attribute of a declared length.
unfoldable pub resident_value : List ℕ → ℕ → Result (List ℕ)
resident_value buffer size = do
  fail_if (ltb size 22) (invalid_format "Invalid resident attribute header")
  value_length ← read_le 4 buffer 16
  value_offset ← read_le 2 buffer 20
  value_end ←
      ok_or (checked_add u64_mod value_offset value_length)
        (invalid_format "Invalid attribute value range")
  fail_if (ltb value_offset 22) (invalid_format "Invalid attribute value offset")
  fail_if (ltb size value_end) (invalid_format "Attribute value exceeds attribute length")
  slice buffer value_offset value_end

-- What is kept of the value: nothing of an attribute of unknown type or stored elsewhere.
unfoldable pub value_of : List ℕ → ℕ → AttributeType → Bool → Result (List ℕ)
value_of buffer size attribute_type non_resident =
    if is_unknown attribute_type || non_resident then ok [] else resident_value buffer size

-- The part behind the test for the end marker.
unfoldable pub parse_body : List ℕ → AttributeType → Result MftAttribute
parse_body buffer attribute_type = do
  size ← read_le 4 buffer 4
  fail_if (ltb size 16) (invalid_format "Invalid MFT attribute length")
  fail_if (ltb (length buffer) size) (invalid_format "MFT attribute exceeds record")
  flag ← byte_at buffer 8
  id ← read_le 2 buffer 14
  content ← value_of buffer size attribute_type (not (flag == 0))
  ok (record {
    attribute_type = attribute_type;
    size = size;
    non_resident = not (flag == 0);
    id = id;
    content = content;
  })

-- `MftAttribute::parse`
unfoldable pub parse : List ℕ → Result MftAttribute
parse buffer = do
  fail_if (ltb (length buffer) 16) (invalid_format "Invalid MFT attribute header")
  raw ← read_le 4 buffer 0
  if is_end (from_raw raw) then ok end_attribute else parse_body buffer (from_raw raw)
