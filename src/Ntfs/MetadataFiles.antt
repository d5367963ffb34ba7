-- ===== src/Ntfs/MetadataFiles.antt =====
-- crates/forensis-core/src/filesystem/ntfs/volume_information.rs, upcase.rs and attr_def.rs: the
-- metadata files that have a structure.
pub mod Fields
use Prim.Native.Nat.{bit_and}
use forensis.Prelude.{
  Bool, List, Result, [], drop, fail_if, false, get_or, if◌then◌else◌, invalid_format, length, ltb,
  not, ok, panic, suc, take, true, zero, ℕ, ◌%◌, ◌+◌, ◌==◌, ◌>>=◌, ◌>>◌, ◌||◌, ◌∷◌,
}
use forensis.Bytes.{byte_at, le, read_le}
use forensis.Text.{Text, from_utf16_lossy, utf16_units}

pub record VolumeInformation : Type 0 where
  pub major_version : ℕ
  pub minor_version : ℕ
  pub flags : ℕ

-- `VolumeInformation::parse`
unfoldable pub parse_volume_information : List ℕ → Result VolumeInformation
parse_volume_information bytes = do
  fail_if (ltb (length bytes) 32) (invalid_format "Invalid $VOLUME_INFORMATION attribute")
  major_version ← byte_at bytes 32
  minor_version ← byte_at bytes 33
  flags ← read_le 2 bytes 34
  ok (record { major_version = major_version; minor_version = minor_version; flags = flags })

abbrev pub is_dirty : VolumeInformation → Bool
is_dirty volume = not (bit_and volume.flags 1 == 0)

-- `UpCase::parse`: the table.
unfoldable pub parse_upcase : List ℕ → Result (List ℕ)
parse_upcase bytes = do
  fail_if (length bytes == 0) (invalid_format "Empty $UpCase")
  fail_if (not (length bytes % 2 == 0)) (invalid_format "Invalid $UpCase size")
  ok (utf16_units bytes)

-- `UpCase::uppercase`
unfoldable pub uppercase : List ℕ → ℕ → ℕ
uppercase table value = if ltb value (length table) then get_or table value 0 else value

-- The loop of `equals_ignore_case` over both texts, which have the same length.
unfoldable pub units_loop : List ℕ → List ℕ → List ℕ → Bool
units_loop table [] b = true
units_loop table (x ∷ a) [] = true
units_loop table (x ∷ a) (y ∷ b) =
    let rest = units_loop table a b in
    if not (uppercase table x == uppercase table y) then false else rest

-- `UpCase::equals_ignore_case`
unfoldable pub equals_ignore_case : List ℕ → List ℕ → List ℕ → Bool
equals_ignore_case table a b = if not (length a == length b) then false else units_loop table a b

pub record AttributeDefinition : Type 0 where
  pub name : Text
  pub attribute_type : ℕ
  pub flags : ℕ
  pub minimum_size : ℕ
  pub maximum_size : ℕ

-- The units before the first zero.
unfoldable pub until_zero : List ℕ → List ℕ
until_zero [] = []
until_zero (value ∷ units) = let rest = until_zero units in if value == 0 then [] else value ∷ rest

-- The definition in 160 bytes.
abbrev pub definition : List ℕ → AttributeDefinition
definition entry = record {
  name = from_utf16_lossy (until_zero (utf16_units (take 128 entry)));
  attribute_type = le 4 (drop 128 entry);
  flags = le 4 (drop 132 entry);
  minimum_size = le 8 (drop 136 entry);
  maximum_size = le 8 (drop 144 entry);
}

-- The `while` loop of `AttrDef::parse` over what is left, with one more round than bytes.
unfoldable pub definitions_loop : ℕ → List ℕ → Result (List AttributeDefinition)
definitions_loop zero bytes = panic
definitions_loop (suc fuel) bytes =
    let rest = definitions_loop fuel (drop 160 bytes) in
    if ltb (length bytes) 160 || get_or bytes 0 0 == 0
    then ok []
    else rest >>= λ others. ok (definition (take 160 bytes) ∷ others)

-- `AttrDef::parse`
unfoldable pub parse_attr_def : List ℕ → Result (List AttributeDefinition)
parse_attr_def bytes = do
  fail_if (length bytes == 0) (invalid_format "Empty $AttrDef")
  definitions_loop (length bytes + 1) bytes
