-- ===== src/Exfat/Directory/Deleted.antt =====
-- What the deletion of a file leaves of its record: the in-use bit of every slot is cleared.
use forensis.Prelude.{
  All-drop, Bool, IsByte, List, Option, [], ap, arith, drop, drop-append, false, get_or, length,
  length-append, length-drop, length-take, refl, some, suc, sym, take, take_full, true, zero, ℕ,
  ◌%◌, ◌*◌, ◌++◌, ◌+◌, ◌<◌, ◌∙◌, ◌∷◌, ◌≡◌, ◌≢◌, ◌≤◌,
}
use forensis.Bytes.{AreBytes}
use forensis.Text.{Text}
use forensis.Exfat.Directory.{
  ExfatDirectoryEntry, Secondary, add_secondary, secondary_loop, build_record, record_name,
  admitted_units, parse_record, parse_deleted_record, entry_at, entry_file,
}

-- The bytes of a directory whose first n slots are deleted.
unfoldable pub clear_slots : ℕ → List ℕ → List ℕ
clear_slots zero bytes = bytes
clear_slots (suc n) [] = []
clear_slots (suc n) (type_byte ∷ bytes) =
    (type_byte % 128) ∷ (take 31 bytes ++ clear_slots n (drop 31 bytes))

add_secondary-clear :
    (type_byte : ℕ) (slot : List ℕ) (found : Secondary)
    → type_byte < 256
    → add_secondary ((type_byte % 128) ∷ slot) found ≡ add_secondary (type_byte ∷ slot) found
unfolding add_secondary
add_secondary-clear type_byte slot found b = ground arith

full : (bytes : List ℕ) → 31 ≤ length bytes → length (take 31 bytes) ≡ 31
full bytes h = omega (arith, length-take 31 bytes)

take_first :
    (bytes rest : List ℕ) → 31 ≤ length bytes → take 31 (take 31 bytes ++ rest) ≡ take 31 bytes
take_first bytes rest h = take_full 31 (take 31 bytes) rest (full bytes h)

drop_first : (bytes rest : List ℕ) → 31 ≤ length bytes → drop 31 (take 31 bytes ++ rest) ≡ rest
drop_first bytes rest h =
    ap (λ n. drop n (take 31 bytes ++ rest)) (sym (full bytes h)) ∙ drop-append (take 31 bytes) rest

-- The slots behind the file entry say the same when they are deleted.
secondary_loop-clear :
    (left : ℕ) (bytes : List ℕ) (found : Secondary)
    → AreBytes bytes
    → left * 32 ≤ length bytes
    → secondary_loop left (clear_slots left bytes) found ≡ secondary_loop left bytes found
unfolding secondary_loop clear_slots
secondary_loop-clear zero bytes found b h = refl
secondary_loop-clear (suc left) [] found b h = absurd (omega arith)
secondary_loop-clear (suc left) (type_byte ∷ bytes) found b h =
    let long : 31 ≤ length bytes = omega arith in
    let shorter = length-drop 31 bytes in
    rw
      (
        take_first bytes (clear_slots left (drop 31 bytes)) long,
        drop_first bytes (clear_slots left (drop 31 bytes)) long,
        add_secondary-clear type_byte (take 31 bytes) found b.0,
      )
      (secondary_loop-clear left (drop 31 bytes) _ (All-drop IsByte 31 bytes b.1)
        (omega (arith, shorter)))

length-clear_slots :
    (n : ℕ) (bytes : List ℕ) → n * 32 ≤ length bytes → length (clear_slots n bytes) ≡ length bytes
unfolding clear_slots
length-clear_slots zero bytes h = refl
length-clear_slots (suc n) [] h = refl
length-clear_slots (suc n) (type_byte ∷ bytes) h =
    let shorter = length-drop 31 bytes in
    omega (
      arith,
      length-append (take 31 bytes) (clear_slots n (drop 31 bytes)),
      length-take 31 bytes,
      shorter,
      length-clear_slots n (drop 31 bytes) (omega (arith, shorter)),
    )

first_kept : (bytes : List ℕ) → get_or (take 31 bytes) 0 0 ≡ get_or bytes 0 0
first_kept [] = refl
first_kept (byte ∷ bytes) = refl

-- Only an empty name is shown otherwise where the entry is deleted.
record_name-deleted :
    (units : List ℕ)
    → record_name units false ≢ []
    → record_name units true ≡ record_name units false
unfolding record_name
record_name-deleted [] n = absurd (n refl)
record_name-deleted (unit ∷ units) n = refl

module _ {T : Type 0} (date_time : ℕ → ℕ → ℕ → ℕ → ℕ → ℕ → Option T) where
  build_record-deleted :
      (slot : List ℕ) (found : Secondary)
      → (build_record date_time slot false found).name ≢ []
      → build_record date_time slot true found
        ≡ record (build_record date_time slot false found) { deleted = true }
  unfolding build_record
  build_record-deleted slot found n =
      ap
        (λ (name : Text). record (build_record date_time slot false found) {
          deleted = true;
          name = name;
        })
        (record_name-deleted (admitted_units slot found) n)

  build_record-clear :
      (type_byte : ℕ) (slot : List ℕ) (deleted : Bool) (found : Secondary)
      → build_record date_time ((type_byte % 128) ∷ slot) deleted found
        ≡ build_record date_time (type_byte ∷ slot) deleted found
  unfolding build_record admitted_units
  build_record-clear type_byte slot deleted found = refl

  parse_record-clear :
      (type_byte : ℕ) (bytes : List ℕ) (deleted : Bool)
      → AreBytes bytes
      → (1 + get_or bytes 0 0) * 32 ≤ length bytes + 1
      → parse_record date_time (clear_slots (suc (get_or bytes 0 0)) (type_byte ∷ bytes)) deleted
        ≡ parse_record date_time (type_byte ∷ bytes) deleted
  unfolding parse_record clear_slots
  parse_record-clear type_byte bytes deleted b h =
      let count = get_or bytes 0 0 in
      let cleared = clear_slots count (drop 31 bytes) in
      let long : 31 ≤ length bytes = omega arith in
      let shorter = length-drop 31 bytes in
      let same : length (take 31 bytes ++ cleared) ≡ length bytes = omega (
        arith,
        length-append (take 31 bytes) cleared,
        length-take 31 bytes,
        shorter,
        length-clear_slots count (drop 31 bytes) (omega (arith, shorter)),
      ) in
      rw
        (
          take_first bytes cleared long,
          drop_first bytes cleared long,
          same,
          first_kept bytes,
          build_record-clear type_byte (take 31 bytes) deleted,
          secondary_loop-clear count (drop 31 bytes) _ (All-drop IsByte 31 bytes b)
              (omega (arith, shorter)),
        )
        refl

  parse_record-deleted :
      (buffer : List ℕ)
      → (parse_record date_time buffer false).name ≢ []
      → parse_record date_time buffer true
        ≡ record (parse_record date_time buffer false) { deleted = true }
  unfolding parse_record
  parse_record-deleted buffer n = build_record-deleted (take 32 buffer) _ n

  entry_at-five :
      (buffer : List ℕ)
      → get_or buffer 0 0 ≡ 5
      → entry_at date_time buffer ≡ some (parse_record date_time buffer true)
  unfolding entry_at parse_deleted_record
  entry_at-five buffer h = rw h refl

  entry_at-file :
      (bytes : List ℕ)
      → entry_at date_time (entry_file ∷ bytes)
        ≡ some (parse_record date_time (entry_file ∷ bytes) false)
  unfolding entry_at
  entry_at-file bytes = refl

  first_cleared :
      (n : ℕ) (bytes : List ℕ) → get_or (clear_slots (suc n) (entry_file ∷ bytes)) 0 0 ≡ 5
  unfolding clear_slots
  first_cleared n bytes = refl

  -- The record of a file, of whole slots and with a name, is found again when its slots are deleted:
  -- with the same name, attributes, start cluster, length, kind and times, and marked as deleted.
  pub entry_at-deleted :
      (bytes : List ℕ) (entry : ExfatDirectoryEntry T)
      → AreBytes bytes
      → (1 + get_or bytes 0 0) * 32 ≤ length bytes + 1
      → entry_at date_time (entry_file ∷ bytes) ≡ some entry
      → entry.name ≢ []
      → entry_at date_time (clear_slots (suc (get_or bytes 0 0)) (entry_file ∷ bytes))
        ≡ some (record entry { deleted = true })
  entry_at-deleted bytes entry b h e n =
      let live = parse_record date_time (entry_file ∷ bytes) false in
      let whole : live ≡ entry = cc (sym (entry_at-file bytes) ∙ e) in
      entry_at-five _ (first_cleared (get_or bytes 0 0) bytes)
      ∙ ap some (
          parse_record-clear entry_file bytes true b h
          ∙ parse_record-deleted (entry_file ∷ bytes) (λ empty. n (rw (← whole) empty))
          ∙ ap (λ (found : ExfatDirectoryEntry T). record found { deleted = true }) whole)
