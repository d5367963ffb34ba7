-- ===== src/Fat32/Directory/Bounds.antt =====
-- What the parser of directories returns of any bytes.
use Prim.Native.Nat.{bit_and}
use forensis.Prelude.{
  All, All-drop, All-take, Bool, Bool-cases, Holds, Holds-bind, Holds-if, Holds-ok, Holds-weaken,
  IsByte, List, [], arith, drop, false, get_or, inl, inr, length, length-drop, ltb, not, suc, take,
  zero, ℕ, ◌*◌, ◌+◌, ◌<◌, ◌==◌, ◌^◌, ◌||◌, ◌≤◌,
}
use forensis.Bytes.{AreBytes, le}
use forensis.Bytes.Laws.{le-lt}
use forensis.Text.{Text}
use forensis.Fat32.Directory.{
  Fat32DirectoryEntry, append_leaf_entry, is_plausible_leaf_name, build_leaf_name, slots_loop,
  parse_directory_entries, attr_long_name, end_mark,
}

-- The cluster and the size of an entry are `u32`s.
abbrev pub IsSlotEntry : Fat32DirectoryEntry → Type 0
IsSlotEntry entry = (entry.cluster < 2 ^ 32) × (entry.size < 2 ^ 32)

-- The entries of so many bytes.
abbrev pub AreSlotEntries : ℕ → List Fat32DirectoryEntry → Type 0
AreSlotEntries room entries = All IsSlotEntry entries × (32 * length entries ≤ room)

append-AreSlotEntries :
    (room : ℕ) (slot : List ℕ) (name : Text) (entries : List Fat32DirectoryEntry)
    → AreBytes slot
    → AreSlotEntries room entries
    → AreSlotEntries (room + 32) (append_leaf_entry slot name entries)
unfolding append_leaf_entry
append-AreSlotEntries room slot name entries b h = elim (Bool-cases (get_or slot 0 0 == 0x2e)) [
  | inl dot ↦ rw dot (h.0, omega (arith, h.1))
  | inr leaf ↦ elim (Bool-cases (not (bit_and (get_or slot 0x0b 0) 8 == 0))) [
    | inl label ↦ rw (leaf, label) (((omega arith, omega arith), h.0), omega (arith, h.1))
    | inr plain ↦
        let high = le-lt 2 (drop 0x14 slot) (All-drop IsByte 0x14 slot b) in
        let low = le-lt 2 (drop 0x1a slot) (All-drop IsByte 0x1a slot b) in
        let size = le-lt 4 (drop 0x1c slot) (All-drop IsByte 0x1c slot b) in
        rw (leaf, plain)
          (((omega (arith, high, low), omega (arith, size)), h.0), omega (arith, h.1))
  ]
]

more_room :
    (room wider : ℕ)
    → room ≤ wider
    → (entries : List Fat32DirectoryEntry) → AreSlotEntries room entries
    → AreSlotEntries wider entries
more_room room wider le entries h = (h.0, omega (arith, h.1))

slots_loop-Holds :
    (fuel : ℕ) (bytes lfn_units : List ℕ) (lfn_has_pending : Bool)
    → AreBytes bytes
    → length bytes < fuel
    → Holds (AreSlotEntries (length bytes)) (slots_loop fuel bytes lfn_units lfn_has_pending)
unfolding slots_loop
slots_loop-Holds zero bytes lfn_units lfn_has_pending b f = absurd (omega arith)
slots_loop-Holds (suc fuel) bytes lfn_units lfn_has_pending b f =
    Holds-if (ltb (length bytes) 32 || get_or (take 32 bytes) 0 0 == end_mark) _ _
      (λ _. Holds-ok _ (tt, omega arith))
      (λ more.
        let room : 32 ≤ length bytes = ground arith in
        let less = length-drop 32 bytes in
        let next = λ (units : List ℕ) (pending : Bool).
          slots_loop-Holds fuel (drop 32 bytes) units pending (All-drop IsByte 32 bytes b)
            (omega (arith, less)) in
        let looser = more_room (length (drop 32 bytes)) (length bytes) (omega (arith, less)) in
        Holds-if (get_or (take 32 bytes) 0x0b 0 == attr_long_name) _ _
          (λ _. Holds-weaken _ looser (next _ _))
          (λ _.
            Holds-if
              (is_plausible_leaf_name (build_leaf_name (take 32 bytes) lfn_units lfn_has_pending)) _
              _
              (λ _. Holds-bind _ _ (next _ _) λ entries h _.
                let whole =
                  append-AreSlotEntries (length (drop 32 bytes)) (take 32 bytes) _ entries
                    (All-take IsByte 32 bytes b) h in
                Holds-ok _ (whole.0, omega (arith, whole.1, less)))
              (λ _. Holds-weaken _ looser (next _ _))))

-- Any bytes are parsed as a directory, without an end before the end of the bytes; each entry takes a
-- slot of its own, and has a cluster and a size of 32 bits.
pub parse_directory_entries-Holds :
    (buffer : List ℕ)
    → AreBytes buffer
    → Holds (AreSlotEntries (length buffer)) (parse_directory_entries buffer)
unfolding parse_directory_entries
parse_directory_entries-Holds buffer b =
    slots_loop-Holds (length buffer + 1) buffer [] false b (omega arith)
