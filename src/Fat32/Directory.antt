-- ===== src/Fat32/Directory.antt =====
-- crates/forensis-core/src/filesystem/fat32/directory.rs: the slots of a directory. A slot is always
-- a list of 32 bytes, so that its bytes are read without a check.
pub mod Bounds
pub mod Checksum
use Prim.Native.Nat.{bit_and}
use forensis.Prelude.{
  Bool, List, Option, Result, [], drop, false, get_or, if◌then◌else◌, leb, length, ltb, none, not,
  ok, panic, replicate, set, some, suc, take, true, zero, ℕ, ◌%◌, ◌&&◌, ◌*◌, ◌++◌, ◌+◌, ◌-◌, ◌/◌,
  ◌==◌, ◌>>=◌, ◌^◌, ◌||◌, ◌∷◌,
}
use forensis.Bytes.{le, bytes_eq}
use forensis.Text.{Text, utf16_units, from_utf16_lossy, is_control, is_whitespace}

abbrev pub attr_volume_label : ℕ
attr_volume_label = 8

abbrev pub attr_directory : ℕ
attr_directory = 0x10

abbrev pub attr_long_name : ℕ
attr_long_name = 0x0f

abbrev pub deleted_first_byte : ℕ
deleted_first_byte = 0xe5

abbrev pub end_mark : ℕ
end_mark = 0

pub record Fat32DirectoryEntry : Type 0 where
  pub name : Text
  pub short_name : Option Text
  pub attributes : ℕ
  pub cluster : ℕ
  pub size : ℕ
  pub deleted : Bool

abbrev pub is_directory : Fat32DirectoryEntry → Bool
is_directory entry = not (bit_and entry.attributes attr_directory == 0)

-- The loop of `lfn_checksum`, `((checksum & 1) << 7) | (checksum >> 1)` being a rotation.
unfoldable pub checksum_loop : ℕ → List ℕ → ℕ
checksum_loop checksum [] = checksum
checksum_loop checksum (byte ∷ bytes) =
    checksum_loop ((checksum % 2 * 128 + checksum / 2 + byte) % 256) bytes

unfoldable pub lfn_checksum : List ℕ → ℕ
lfn_checksum short_name = checksum_loop 0 short_name

-- `decode_short_component`, and the loop of `short_name_from_volume_label`.
abbrev pub decode_short_component : List ℕ → Text
decode_short_component [] = []
decode_short_component (byte ∷ bytes) =
    if byte == 0 || byte == 0x20 then [] else byte ∷ decode_short_component bytes

abbrev short_name_of : Text → Text → Text
short_name_of name [] = name
short_name_of name (c ∷ ext) = name ++ (0x2e ∷ c ∷ ext)

unfoldable pub short_name_from_bytes : List ℕ → Text
short_name_from_bytes bytes =
    short_name_of (decode_short_component (take 8 bytes)) (decode_short_component (drop 8 bytes))

-- The units of one area of a slot, up to the padding or the terminator.
abbrev pub units_until_end : List ℕ → List ℕ
units_until_end [] = []
units_until_end (value ∷ values) =
    if value == 0xffff || value == 0 then [] else value ∷ units_until_end values

abbrev slot_area : List ℕ → ℕ → ℕ → List ℕ
slot_area slot start end = units_until_end (utf16_units (take (end - start) (drop start slot)))

-- `lfn_slot_units`; the `break` leaves the loop over one area only.
unfoldable pub lfn_slot_units : List ℕ → List ℕ
lfn_slot_units slot =
    slot_area slot 0x01 0x0b ++ (slot_area slot 0x0e 0x1a ++ slot_area slot 0x1c 0x20)

abbrev pub has_nul : Text → Bool
has_nul [] = false
has_nul (c ∷ text) = c == 0 || has_nul text

abbrev pub count_printable : Text → ℕ
count_printable [] = 0
count_printable (c ∷ text) =
    (if not (is_control c) && not (is_whitespace c) then 1 else 0) + count_printable text

-- `is_plausible_leaf_name`. A quotient of `f64`s below 2 ^ 50 is at least the `f64` nearest to 0.7
-- where the quotient of the numbers is at least 7 / 10.
unfoldable pub is_plausible_leaf_name : Text → Bool
is_plausible_leaf_name name =
    if length name == 0 || has_nul name
    then false
    else leb (7 * length name) (10 * count_printable name)

abbrev pub extract_short_name : List ℕ → List ℕ
extract_short_name slot = take 11 slot

unfoldable pub short_name_with_placeholder : List ℕ → Bool → Text
short_name_with_placeholder short deleted =
    short_name_from_bytes (if deleted then set short 0 0x3f else short)

unfoldable pub build_leaf_name : List ℕ → List ℕ → Bool → Text
build_leaf_name slot lfn_units lfn_has_pending =
    let short = extract_short_name slot in
    let deleted = get_or slot 0 0 == deleted_first_byte in
    let checksum_matches = lfn_checksum short == get_or slot 0x0d 0 in
    if lfn_has_pending && (checksum_matches || deleted)
    then from_utf16_lossy lfn_units
    else short_name_with_placeholder short deleted

-- `append_leaf_entry`, before the entries that follow.
unfoldable pub append_leaf_entry :
    List ℕ → Text → List Fat32DirectoryEntry → List Fat32DirectoryEntry
append_leaf_entry slot name entries =
    let attributes = get_or slot 0x0b 0 in
    if get_or slot 0 0 == 0x2e
    then entries
    else if not (bit_and attributes attr_volume_label == 0)
    then record {
      name = decode_short_component (extract_short_name slot);
      short_name = none;
      attributes = attributes;
      cluster = 0;
      size = 0;
      deleted = false;
    }
      ∷ entries
    else record {
      name = name;
      short_name = some (short_name_from_bytes (extract_short_name slot));
      attributes = attributes;
      cluster = le 2 (drop 0x14 slot) * 2 ^ 16 + le 2 (drop 0x1a slot);
      size = le 4 (drop 0x1c slot);
      deleted = get_or slot 0 0 == deleted_first_byte;
    }
      ∷ entries

-- The `while` loop of `parse_directory_entries` over what is left of the buffer. Each round takes a
-- slot, so that the fuel, one more than the length of the buffer, is not used up.
unfoldable pub slots_loop : ℕ → List ℕ → List ℕ → Bool → Result (List Fat32DirectoryEntry)
slots_loop zero bytes lfn_units lfn_has_pending = panic
slots_loop (suc fuel) bytes lfn_units lfn_has_pending =
    let slot = take 32 bytes in
    let after = drop 32 bytes in
    let long = slots_loop fuel after (lfn_units ++ lfn_slot_units slot) true in
    let short = slots_loop fuel after [] false in
    let name = build_leaf_name slot lfn_units lfn_has_pending in
    let kept = short >>= λ entries. ok (append_leaf_entry slot name entries) in
    if ltb (length bytes) 32 || get_or slot 0 0 == end_mark
    then ok []
    else if get_or slot 0x0b 0 == attr_long_name
    then long
    else if is_plausible_leaf_name name
    then kept
    else short

unfoldable pub parse_directory_entries : List ℕ → Result (List Fat32DirectoryEntry)
parse_directory_entries buffer = slots_loop (length buffer + 1) buffer [] false

-- ".          " and "..         "
abbrev dot_name : List ℕ
dot_name = 0x2e ∷ replicate 10 0x20

abbrev dot_dot_name : List ℕ
dot_dot_name = 0x2e ∷ 0x2e ∷ replicate 9 0x20

-- The loop of `has_directory_markers`, with the slots that are left of three.
unfoldable pub markers_loop : ℕ → List ℕ → Bool
markers_loop zero bytes = false
markers_loop (suc left) bytes =
    let slot = take 32 bytes in
    let first = get_or slot 0 0 in
    let name = if first == deleted_first_byte then set (take 11 slot) 0 0x2e else take 11 slot in
    let rest = markers_loop left (drop 32 bytes) in
    if ltb (length bytes) 32 || first == end_mark
    then false
    else bytes_eq name dot_name || bytes_eq name dot_dot_name || rest

unfoldable pub has_directory_markers : List ℕ → Bool
has_directory_markers buffer = markers_loop 3 buffer
