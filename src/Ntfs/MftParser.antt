-- ===== src/Ntfs/MftParser.antt =====
-- crates/forensis-core/src/filesystem/ntfs/mft_parser.rs and parsed_record.rs: the attributes of a
-- record, interpreted.
pub mod Reached
pub mod Safety
use forensis.Prelude.{
  List, Option, Result, [], checked_add, err, fail_if, if◌then◌else◌, invalid_format, leb, length,
  ltb, none, ok, ok_or, panic, some, sub, suc, u64_mod, zero, ℕ, ◌++◌, ◌+◌, ◌==◌, ◌>>=◌, ◌>>◌, ◌||◌,
  ◌∷◌,
}
use forensis.Bytes.{read_le, slice}
use forensis.Ntfs.Attribute
use forensis.Ntfs.Attribute.{
  AttributeType, MftAttribute, is_end, standard_information, file_name, data_attribute, index_root,
}
use forensis.Ntfs.DataAttribute
use forensis.Ntfs.DataAttribute.{DataAttribute}
use forensis.Ntfs.FileName
use forensis.Ntfs.FileName.{FileNameAttribute}
use forensis.Ntfs.IndexRoot
use forensis.Ntfs.IndexRoot.{IndexRoot}
use forensis.Ntfs.Record.{MftRecord, MftRecordHeader, set_header}
use forensis.Ntfs.StandardInformation
use forensis.Ntfs.StandardInformation.{StandardInformation}

pub record ParsedMftRecord : Type 0 where
  pub index : ℕ
  pub mft_flags : ℕ
  pub information : Option StandardInformation
  pub file_names : List FileNameAttribute
  pub content : Option DataAttribute
  pub directory_index : Option IndexRoot

-- The variables of the loop before its first round, with the index and the flags.
abbrev pub empty_record : ℕ → ℕ → ParsedMftRecord
empty_record index mft_flags = record {
  index = index;
  mft_flags = mft_flags;
  information = none;
  file_names = [];
  content = none;
  directory_index = none;
}

-- The block that reads the header.
unfoldable pub parse_header : List ℕ → Result MftRecordHeader
parse_header content = do
  fail_if (ltb (length content) 42) (invalid_format "Invalid MFT record")
  usa_offset ← read_le 2 content 4
  usa_count ← read_le 2 content 6
  sequence_number ← read_le 2 content 16
  hard_link_count ← read_le 2 content 18
  first_attribute_offset ← read_le 2 content 20
  flags ← read_le 2 content 22
  used_size ← read_le 4 content 24
  allocated_size ← read_le 4 content 28
  base_record ← read_le 8 content 32
  next_attribute_id ← read_le 2 content 40
  fail_if (leb (length content) first_attribute_offset)
      (invalid_format "Invalid first attribute offset")
  ok (record {
    usa_offset = usa_offset;
    usa_count = usa_count;
    sequence_number = sequence_number;
    hard_link_count = hard_link_count;
    first_attribute_offset = first_attribute_offset;
    flags = flags;
    used_size = used_size;
    allocated_size = allocated_size;
    base_record = base_record;
    next_attribute_id = next_attribute_id;
  })

-- `result.ok()`; a panic goes on.
unfoldable pub to_option {ℓ} : {A : Type ℓ} → Result A → Result (Option A)
to_option (ok value) = ok (some value)
to_option (err error) = ok none
to_option panic = panic

-- The `match` on the type of an attribute; `part` is `data[offset..attribute_end]`.
unfoldable pub interpret :
    MftAttribute → List ℕ → AttributeType → ParsedMftRecord → Result ParsedMftRecord
interpret attribute part standard_information parsed = do
  information ← to_option (StandardInformation.parse attribute.content)
  ok (record parsed { information = information })
interpret attribute part file_name parsed = do
  name ← FileName.parse_value attribute.content
  ok (record parsed { file_names = parsed.file_names ++ (name ∷ []) })
interpret attribute part data_attribute parsed = do
  content ← DataAttribute.parse part
  ok (record parsed { content = some content })
interpret attribute part index_root parsed = do
  root ← IndexRoot.parse attribute.content
  ok (record parsed { directory_index = some root })
interpret attribute part _ parsed = ok parsed

-- A round that reaches an attribute: what has been parsed and the offset behind it, or `none` where
-- the loop breaks.
unfoldable pub read_attribute : List ℕ → ℕ → ParsedMftRecord → Result (Option (ParsedMftRecord × ℕ))
read_attribute content offset parsed = do
  declared_length ← read_le 4 content (offset + 4)
  remaining ← sub (length content) offset
  fail_if (ltb remaining declared_length) (invalid_format "MFT attribute exceeds record")
  tail ← slice content offset (length content)
  attribute ← Attribute.parse tail
  let interpreted = (do
    attribute_end ←
        ok_or (checked_add u64_mod offset attribute.size)
          (invalid_format "MFT attribute length overflow")
    fail_if (ltb (length content) attribute_end) (invalid_format "MFT attribute exceeds record")
    part ← slice content offset attribute_end
    parsed' ← interpret attribute part attribute.attribute_type parsed
    ok (some (parsed', attribute_end)))
  if is_end attribute.attribute_type || attribute.size == 0 then ok none else interpreted

-- The end of a round: the loop is left, or goes on by `next`.
unfoldable pub go_on :
    ParsedMftRecord
    → (ParsedMftRecord → ℕ → Result ParsedMftRecord)
    → Option (ParsedMftRecord × ℕ)
    → Result ParsedMftRecord
go_on parsed next none = ok parsed
go_on parsed next (some (parsed', offset)) = next parsed' offset

-- The `while` loop. An attribute that is passed takes at least sixteen bytes, so that the end of the
-- record comes before that of the fuel, one more than its length.
unfoldable pub attributes_loop : ℕ → List ℕ → ℕ → ParsedMftRecord → Result ParsedMftRecord
attributes_loop zero content offset parsed = panic
attributes_loop (suc fuel) content offset parsed =
    let next =
      λ (parsed' : ParsedMftRecord) (offset' : ℕ). attributes_loop fuel content offset' parsed' in
    let body = (do
      attribute_type_raw ← read_le 4 content offset
      let rest = read_attribute content offset parsed >>= go_on parsed next
      if attribute_type_raw == 0xffff_ffff then ok parsed else rest) in
    if leb (offset + 16) (length content) then body else ok parsed

-- `MftParser::parse`; the record gets its header also where an attribute is refused, which no caller
-- looks at.
unfoldable pub parse : MftRecord → Result (ParsedMftRecord × MftRecord)
parse record' = do
  header ← parse_header record'.content
  parsed ←
      attributes_loop (length record'.content + 1) record'.content header.first_attribute_offset
        (empty_record record'.index header.flags)
  ok (parsed, set_header header record')
