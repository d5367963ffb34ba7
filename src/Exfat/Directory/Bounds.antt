-- ===== src/Exfat/Directory/Bounds.antt =====
-- What the parser of exFAT directories returns of any bytes.
use forensis.Prelude.{
  All, All-drop, All-take, Bool, Bool-cases, Holds, Holds-bind, Holds-if, Holds-ok, IsByte, List,
  Option, arith, drop, false, get_or, inl, inr, leb, length, length-drop, ltb, none, some, suc,
  take, true, zero, ℕ, ◌*◌, ◌+◌, ◌<◌, ◌==◌, ◌^◌, ◌||◌, ◌≤◌,
}
use forensis.Bytes.{AreBytes}
use forensis.Bytes.Laws.{le-lt}
use forensis.Exfat.Directory.{
  ExfatDirectoryEntry, Secondary, add_secondary, secondary_loop, build_record, parse_record,
  parse_deleted_record, parse_volume_label, system_entry, entry_at, slots_loop,
  parse_directory_entries, end_mark, stream_of, cons_entry,
}

-- The cluster and the size of an entry are a `u32` and a `u64`.
abbrev pub IsSlotEntry : {T : Type 0} → ExfatDirectoryEntry T → Type 0
IsSlotEntry entry = (entry.cluster < 2 ^ 32) × (entry.size < 2 ^ 64)

-- What a stream extension says.
abbrev IsStream : Option (ℕ × ℕ × ℕ) → Type 0
IsStream none = Unit
IsStream (some stream) = (stream.0 < 2 ^ 32) × (stream.1 < 2 ^ 64)

add_secondary-IsStream :
    (slot : List ℕ) (found : Secondary)
    → AreBytes slot
    → IsStream found.stream
    → IsStream (add_secondary slot found).stream
unfolding add_secondary
add_secondary-IsStream slot found b h =
    let cluster = le-lt 4 (drop 20 slot) (All-drop IsByte 20 slot b) in
    let size = le-lt 8 (drop 24 slot) (All-drop IsByte 24 slot b) in ground (arith, cluster, size)

secondary_loop-IsStream :
    (left : ℕ) (bytes : List ℕ) (found : Secondary)
    → AreBytes bytes
    → IsStream found.stream
    → IsStream (secondary_loop left bytes found).stream
unfolding secondary_loop
secondary_loop-IsStream zero bytes found b h = h
secondary_loop-IsStream (suc left) bytes found b h =
    secondary_loop-IsStream left (drop 32 bytes) _ (All-drop IsByte 32 bytes b)
      (add_secondary-IsStream (take 32 bytes) found (All-take IsByte 32 bytes b) h)

stream_bounds :
    (stream : Option (ℕ × ℕ × ℕ)) (name_length : ℕ)
    → IsStream stream
    → ((stream_of stream name_length).0 < 2 ^ 32) × ((stream_of stream name_length).1 < 2 ^ 64)
stream_bounds none name_length h = (omega arith, omega arith)
stream_bounds (some stream) name_length h = h

module _ {T : Type 0} (date_time : ℕ → ℕ → ℕ → ℕ → ℕ → ℕ → Option T) where
  -- The entries of so many bytes.
  abbrev pub AreSlotEntries : ℕ → List (ExfatDirectoryEntry T) → Type 0
  AreSlotEntries room entries = All IsSlotEntry entries × (32 * length entries ≤ room)

  build_record-IsSlotEntry :
      (slot : List ℕ) (deleted : Bool) (found : Secondary)
      → IsStream found.stream
      → IsSlotEntry (build_record date_time slot deleted found)
  unfolding build_record
  build_record-IsSlotEntry slot deleted found h = stream_bounds found.stream _ h

  parse_record-IsSlotEntry :
      (buffer : List ℕ) (deleted : Bool)
      → AreBytes buffer
      → IsSlotEntry (parse_record date_time buffer deleted)
  unfolding parse_record
  parse_record-IsSlotEntry buffer deleted b =
      build_record-IsSlotEntry (take 32 buffer) deleted _
        (elim (Bool-cases (leb ((1 + get_or (take 32 buffer) 1 0) * 32) (length buffer))) [
          | inl whole ↦ rw whole (secondary_loop-IsStream _ _ _ (All-drop IsByte 32 buffer b) tt)
          | inr cut ↦ rw cut tt
        ])

  -- What a slot adds.
  adds :
      (buffer : List ℕ) (entries : List (ExfatDirectoryEntry T)) (room : ℕ)
      → AreBytes buffer
      → AreSlotEntries room entries
      → AreSlotEntries (room + 32) (cons_entry (entry_at date_time buffer) entries)
  unfolding entry_at parse_deleted_record parse_volume_label system_entry
  adds buffer entries room b h =
      let live = parse_record-IsSlotEntry buffer false b in
      let deleted = parse_record-IsSlotEntry buffer true b in
      let cluster =
        le-lt 4 (drop 4 (take 32 buffer))
          (All-drop IsByte 4 (take 32 buffer) (All-take IsByte 32 buffer b)) in
      ground (arith, live, deleted, cluster, h.0, h.1)

  slots_loop-Holds :
      (fuel : ℕ) (bytes : List ℕ)
      → AreBytes bytes
      → length bytes < fuel
      → Holds (AreSlotEntries (length bytes)) (slots_loop date_time fuel bytes)
  unfolding slots_loop
  slots_loop-Holds zero bytes b f = absurd (omega arith)
  slots_loop-Holds (suc fuel) bytes b f =
      Holds-if (ltb (length bytes) 32 || get_or bytes 0 0 == end_mark) _ _
        (λ _. Holds-ok _ (tt, omega arith))
        (λ more.
          let room : 32 ≤ length bytes = ground arith in
          let less = length-drop 32 bytes in
          Holds-bind _ _
            (slots_loop-Holds fuel (drop 32 bytes) (All-drop IsByte 32 bytes b)
              (omega (arith, less)))
            λ entries h _.
              let whole = adds bytes entries (length (drop 32 bytes)) b h in
              Holds-ok _ (whole.0, omega (arith, whole.1, less)))

  -- Any bytes are parsed as an exFAT directory, without an end before the end of the bytes; each entry
  -- takes a slot of its own, and has a cluster of 32 bits and a size of 64 bits.
  pub parse_exfat_entries-Holds :
      (buffer : List ℕ)
      → AreBytes buffer
      → Holds (AreSlotEntries (length buffer)) (parse_directory_entries date_time buffer)
  unfolding parse_directory_entries
  parse_exfat_entries-Holds buffer b = slots_loop-Holds (length buffer + 1) buffer b (omega arith)
