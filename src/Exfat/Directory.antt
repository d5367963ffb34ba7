-- ===== src/Exfat/Directory.antt =====
-- crates/forensis-core/src/filesystem/exfat/directory.rs: the records of a directory. A slot is a list
-- of 32 bytes. `T` stands for `chrono::DateTime<Utc>`, and `date_time` for chrono's conversion of a
-- year, month, day, hour, minute and second, which is `none` where there is no such time.
pub mod Deleted
pub mod Bounds
use Prim.Native.Nat.{bit_and}
use forensis.Prelude.{
  Bool, List, Option, Result, [], drop, false, get_or, if◌then◌else◌, leb, length, ltb, min, none,
  not, ok, panic, some, suc, take, true, zero, ℕ, ◌%◌, ◌*◌, ◌++◌, ◌+◌, ◌/◌, ◌==◌, ◌>>=◌, ◌^◌, ◌||◌,
  ◌∷◌,
}
use forensis.Bytes.{le}
use forensis.Text.{Text, utf16_units, from_utf16_lossy}

abbrev pub attr_directory : ℕ
attr_directory = 0x10

abbrev pub in_use_bit : ℕ
in_use_bit = 0x80

abbrev pub entry_file : ℕ
entry_file = 0x85

abbrev pub entry_stream : ℕ
entry_stream = 0xc0

abbrev pub entry_file_name : ℕ
entry_file_name = 0xc1

abbrev pub entry_allocation_bitmap : ℕ
entry_allocation_bitmap = 0x81

abbrev pub entry_up_case_table : ℕ
entry_up_case_table = 0x82

abbrev pub entry_volume_label : ℕ
entry_volume_label = 0x83

abbrev pub end_mark : ℕ
end_mark = 0xff

abbrev pub name_units_per_entry : ℕ
name_units_per_entry = 15

pub data ExfatEntryKind : Type 0 where
  file directory volume_label allocation_bitmap up_case_table other : ExfatEntryKind

pub record ExfatDirectoryEntry (T : Type 0) : Type 0 where
  pub name : Text
  pub attributes : ℕ
  pub cluster : ℕ
  pub size : ℕ
  pub deleted : Bool
  pub kind : ExfatEntryKind
  pub secondary_count : ℕ
  pub created_at : Option T
  pub modified_at : Option T
  pub accessed_at : Option T

abbrev pub is_directory : ExfatEntryKind → Bool
is_directory ExfatEntryKind.directory = true
is_directory _ = false

abbrev pub is_volume_label : ExfatEntryKind → Bool
is_volume_label volume_label = true
is_volume_label _ = false

abbrev pub is_system : ExfatEntryKind → Bool
is_system allocation_bitmap = true
is_system up_case_table = true
is_system _ = false

-- "Allocation Bitmap", "Up-Case Table" and "System"
unfoldable pub system_entry_name : ℕ → Text
system_entry_name type_byte =
    if type_byte == entry_allocation_bitmap
    then 0x41 ∷ 0x6c ∷ 0x6c ∷ 0x6f ∷ 0x63 ∷ 0x61 ∷ 0x74 ∷ 0x69 ∷ 0x6f ∷ 0x6e ∷ 0x20 ∷ 0x42 ∷ 0x69
      ∷ 0x74 ∷ 0x6d ∷ 0x61 ∷ 0x70 ∷ []
    else if type_byte == entry_up_case_table
    then 0x55 ∷ 0x70 ∷ 0x2d ∷ 0x43 ∷ 0x61 ∷ 0x73 ∷ 0x65 ∷ 0x20 ∷ 0x54 ∷ 0x61 ∷ 0x62 ∷ 0x6c ∷ 0x65
      ∷ []
    else 0x53 ∷ 0x79 ∷ 0x73 ∷ 0x74 ∷ 0x65 ∷ 0x6d ∷ []

-- The units of a name entry or of a label, up to a terminator.
abbrev pub units_until_nul : List ℕ → List ℕ
units_until_nul [] = []
units_until_nul (unit ∷ units) = if unit == 0 then [] else unit ∷ units_until_nul units

abbrev pub slot_units : List ℕ → List ℕ
slot_units slot = units_until_nul (utf16_units (drop 2 slot))

-- What the slots behind the file entry hold: the start cluster, the length and the length of the
-- name, of the last stream extension; and the units of the name.
pub record Secondary : Type 0 where
  pub stream : Option (ℕ × ℕ × ℕ)
  pub name_units : List ℕ

abbrev is_stream : ℕ → Bool
is_stream type_byte = type_byte == entry_stream || type_byte == 0x40

abbrev is_file_name : ℕ → Bool
is_file_name type_byte = type_byte == entry_file_name || type_byte == 0x41

-- A round of the loop over the secondary slots.
unfoldable pub add_secondary : List ℕ → Secondary → Secondary
add_secondary slot found =
    if is_stream (get_or slot 0 0)
    then record found { stream = some (le 4 (drop 20 slot), le 8 (drop 24 slot), get_or slot 3 0) }
    else if is_file_name (get_or slot 0 0)
    then record found { name_units = found.name_units ++ slot_units slot }
    else found

-- The loop, with the slots that are left and the bytes from the next one on.
unfoldable pub secondary_loop : ℕ → List ℕ → Secondary → Secondary
secondary_loop zero bytes found = found
secondary_loop (suc left) bytes found =
    secondary_loop left (drop 32 bytes) (add_secondary (take 32 bytes) found)

abbrev no_secondary : Secondary
no_secondary = record { stream = none; name_units = [] }

-- `match stream`, with the length of the name in the file entry.
abbrev pub stream_of : Option (ℕ × ℕ × ℕ) → ℕ → ℕ × ℕ × ℕ
stream_of (some stream) name_length = stream
stream_of none name_length = (0, 0, name_length % 256)

unfoldable pub record_name : List ℕ → Bool → Text
record_name [] deleted = if deleted then 0x3f ∷ [] else []
record_name (unit ∷ units) deleted = from_utf16_lossy (unit ∷ units)

-- The units of the name that the lengths in the slots admit.
unfoldable pub admitted_units : List ℕ → Secondary → List ℕ
admitted_units slot found =
    let name_length = le 2 (drop 28 slot) in
    let stream = stream_of found.stream name_length in
    let expected_length = if not (stream.2 == 0) then stream.2 else name_length in
    let capacity = get_or slot 1 0 * name_units_per_entry in
    take (min expected_length capacity) found.name_units

module _ {T : Type 0} where
  -- An entry with a name, a cluster and a kind only.
  abbrev pub plain_entry : Text → ℕ → ExfatEntryKind → ExfatDirectoryEntry T
  plain_entry name cluster kind = record {
    name = name;
    attributes = 0;
    cluster = cluster;
    size = 0;
    deleted = false;
    kind = kind;
    secondary_count = 0;
    created_at = none;
    modified_at = none;
    accessed_at = none;
  }

  abbrev pub cons_entry :
      Option (ExfatDirectoryEntry T) → List (ExfatDirectoryEntry T) → List (ExfatDirectoryEntry T)
  cons_entry none entries = entries
  cons_entry (some entry) entries = entry ∷ entries

module _ {T : Type 0} (date_time : ℕ → ℕ → ℕ → ℕ → ℕ → ℕ → Option T) where
  unfoldable pub decode_timestamp : ℕ → Option T
  decode_timestamp raw =
      let time = raw % 2 ^ 16 in
      let date = raw / 2 ^ 16 in
      let month = date / 2 ^ 5 % 2 ^ 4 in
      let day = date % 2 ^ 5 in
      if raw == 0 || ltb month 1 || ltb 12 month
      then none
      else date_time (1980 + date / 2 ^ 9 % 2 ^ 7) month (if ltb day 1 then 1 else min day 31)
          (time / 2 ^ 11 % 2 ^ 5) (time / 2 ^ 5 % 2 ^ 6) (time % 2 ^ 5 * 2)

  -- The end of `parse_record`: the entry, from the first slot and what the other slots hold.
  unfoldable pub build_record : List ℕ → Bool → Secondary → ExfatDirectoryEntry T
  build_record slot deleted found =
      let stream = stream_of found.stream (le 2 (drop 28 slot)) in
      let attributes = le 2 (drop 4 slot) % 256 in
      record {
        name = record_name (admitted_units slot found) deleted;
        attributes = attributes;
        cluster = stream.0;
        size = stream.1;
        deleted = deleted;
        kind =
            if not (bit_and attributes attr_directory == 0)
            then ExfatEntryKind.directory
            else ExfatEntryKind.file;
        secondary_count = get_or slot 1 0;
        created_at = decode_timestamp (le 4 (drop 8 slot));
        modified_at = decode_timestamp (le 4 (drop 12 slot));
        accessed_at = decode_timestamp (le 4 (drop 16 slot));
      }

  -- `parse_record`, of a buffer with a slot at least.
  unfoldable pub parse_record : List ℕ → Bool → ExfatDirectoryEntry T
  parse_record buffer deleted =
      let slot = take 32 buffer in
      let secondary_count = get_or slot 1 0 in
      build_record slot deleted (
        if leb ((1 + secondary_count) * 32) (length buffer)
        then secondary_loop secondary_count (drop 32 buffer) no_secondary
        else no_secondary)

  unfoldable pub parse_deleted_record : List ℕ → Option (ExfatDirectoryEntry T)
  parse_deleted_record buffer =
      if not (get_or buffer 0 0 == 0x05) then none else some (parse_record buffer true)

  unfoldable pub parse_volume_label : List ℕ → ExfatDirectoryEntry T
  parse_volume_label slot =
      plain_entry (from_utf16_lossy (take (get_or slot 1 0) (slot_units slot))) 0 volume_label

  unfoldable pub system_entry : List ℕ → ExfatDirectoryEntry T
  system_entry slot =
      let type_byte = get_or slot 0 0 in
      plain_entry (system_entry_name type_byte) (le 4 (drop 4 slot))
        (if type_byte == entry_allocation_bitmap then allocation_bitmap else up_case_table)

  -- The entry that starts at a slot which is no end mark, of the buffer from the slot on.
  unfoldable pub entry_at : List ℕ → Option (ExfatDirectoryEntry T)
  entry_at buffer =
      let type_byte = get_or buffer 0 0 in
      if bit_and type_byte in_use_bit == 0
      then (if type_byte == 0 || type_byte == 3 then none else parse_deleted_record buffer)
      else if type_byte == entry_file
      then some (parse_record buffer false)
      else if type_byte == entry_volume_label
      then some (parse_volume_label (take 32 buffer))
      else if type_byte == entry_allocation_bitmap || type_byte == entry_up_case_table
      then some (system_entry (take 32 buffer))
      else none

  -- The `while` loop of `parse_directory_entries`, over what is left of the buffer. Each round takes a
  -- slot, so that the fuel, one more than the length of the buffer, is not used up.
  unfoldable pub slots_loop : ℕ → List ℕ → Result (List (ExfatDirectoryEntry T))
  slots_loop zero bytes = panic
  slots_loop (suc fuel) bytes =
      let rest = slots_loop fuel (drop 32 bytes) in
      if ltb (length bytes) 32 || get_or bytes 0 0 == end_mark
      then ok []
      else rest >>= λ entries. ok (cons_entry (entry_at bytes) entries)

  unfoldable pub parse_directory_entries : List ℕ → Result (List (ExfatDirectoryEntry T))
  parse_directory_entries buffer = slots_loop (length buffer + 1) buffer
