-- ===== src/Fat32/Tests/Directory.antt =====
-- The theorems on directories at a concrete slot of a long name and its short entry.
use forensis.Prelude.{
  List, [], false, get_or, ok, plumbing, refl, replicate, set, some, take, ℕ, ◌++◌, ◌∷◌, ◌≡◌,
}
use forensis.Text.{Text}
use forensis.Fat32.Directory.{
  Fat32DirectoryEntry, lfn_checksum, checksum_loop, lfn_slot_units, build_leaf_name,
  short_name_with_placeholder, short_name_from_bytes, is_plausible_leaf_name, append_leaf_entry,
  slots_loop, parse_directory_entries,
}
use forensis.Fat32.Directory.Checksum.{slots_loop-set}

-- "ab", with the checksum of "AB.TXT".
abbrev long_slot : List ℕ
long_slot =
    0x41
    ∷ 0x61
    ∷ 0
    ∷ 0x62
    ∷ 0
    ∷ 0
    ∷ 0
    ∷ 0xff
    ∷ 0xff
    ∷ 0xff
    ∷ 0xff
    ∷ 0x0f
    ∷ 0
    ∷ 0x6e
    ∷ (replicate 12 0xff ++ (0 ∷ 0 ∷ replicate 4 0xff))

-- "AB.TXT", at cluster 5, of nine bytes.
abbrev short_slot : List ℕ
short_slot =
    0x41
    ∷ 0x42
    ∷ 0x20
    ∷ 0x20
    ∷ 0x20
    ∷ 0x20
    ∷ 0x20
    ∷ 0x20
    ∷ 0x54
    ∷ 0x58
    ∷ 0x54
    ∷ 0x20
    ∷ (replicate 14 0 ++ (5 ∷ 0 ∷ 9 ∷ 0 ∷ 0 ∷ 0 ∷ []))

abbrev short_text : Text
short_text = 0x41 ∷ 0x42 ∷ 0x2e ∷ 0x54 ∷ 0x58 ∷ 0x54 ∷ []

abbrev listed : List Fat32DirectoryEntry
listed =
    record {
      name = short_text;
      short_name = some short_text;
      attributes = 0x20;
      cluster = 5;
      size = 9;
      deleted = false;
    }
    ∷ []

-- The long name is not used, although its slot has the right checksum.
parses_short_name : parse_directory_entries (long_slot ++ short_slot) ≡ ok listed
unfolding parse_directory_entries slots_loop lfn_slot_units build_leaf_name lfn_checksum
    checksum_loop short_name_with_placeholder short_name_from_bytes is_plausible_leaf_name
    append_leaf_entry plumbing
parses_short_name = refl

checksum_of_name : lfn_checksum (take 11 short_slot) ≡ get_or long_slot 0x0d 0
unfolding lfn_checksum checksum_loop
checksum_of_name = refl

slots_loop-set_example :
    slots_loop 65 (set long_slot 0x0d 0 ++ short_slot) [] false
    ≡ slots_loop 65 (long_slot ++ short_slot) [] false
slots_loop-set_example = slots_loop-set 65 long_slot short_slot [] false 0 refl refl
