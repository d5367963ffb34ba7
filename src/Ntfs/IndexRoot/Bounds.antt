-- ===== src/Ntfs/IndexRoot/Bounds.antt =====
-- The entries of an index root lie one behind the other within its value.
use forensis.Prelude.{
  All, Holds, Holds-bind, Holds-fail_if, Holds-if, Holds-ok, Holds-ok_or, List, [], arith,
  checked_add-eq, leb, length, suc, zero, ℕ, ◌+◌, ◌-◌, ◌<◌, ◌∷◌, ◌≤◌,
}
use forensis.Bytes.{AreBytes}
use forensis.Bytes.Laws.{read_le-Holds, slice-Holds}
use forensis.Ntfs.IndexEntry.{IndexEntry, is_last_flags}
use forensis.Ntfs.IndexEntry.Bounds.{IsEntry, parse_entry-Holds}
use forensis.Ntfs.IndexRoot.{IndexRoot, entries_loop, parse}

-- The bytes that the entries of a list take.
abbrev pub total_length : List IndexEntry → ℕ
total_length [] = 0
total_length (entry ∷ entries) = entry.entry_length + total_length entries

-- Entries of a part of `room` bytes.
abbrev pub AreEntries : ℕ → List IndexEntry → Type 0
AreEntries room entries = All IsEntry entries × (total_length entries ≤ room)

entries_loop-Holds :
    (fuel : ℕ) (content : List ℕ) (entries_end offset : ℕ)
    → AreBytes content
    → entries_end ≤ length content
    → (offset ≤ entries_end) × (entries_end < fuel + offset)
    → Holds (AreEntries (entries_end - offset)) (entries_loop fuel content entries_end offset)
unfolding entries_loop
entries_loop-Holds zero content entries_end offset b e f = absurd (omega (arith, f))
entries_loop-Holds (suc fuel) content entries_end offset b e f =
    Holds-if (leb (offset + 16) entries_end) _ _
      (λ more.
        let room : offset + 16 ≤ entries_end = ground arith in
        Holds-bind _ _ (read_le-Holds 2 content (offset + 8) b (omega arith)) λ entry_length _ _.
          Holds-bind _ _ (read_le-Holds 2 content (offset + 12) b (omega arith)) λ flags _ _.
            Holds-fail_if _ _ _ λ header. Holds-ok_or _ _ _ λ entry_end s.
              Holds-fail_if _ _ _ λ inside.
                Holds-if (is_last_flags flags) _ _ (λ last. Holds-ok _ (tt, omega arith))
                  (λ other.
                    let sum = checked_add-eq _ _ _ _ s in
                    let step : offset + 16 ≤ entry_end = ground (arith, sum) in
                    let fits : entry_end ≤ entries_end = ground arith in
                    Holds-bind _ _
                      (slice-Holds content offset entry_end b (omega arith) (omega arith))
                      λ part p _. Holds-bind _ _ (parse_entry-Holds part p.0) λ entry w _.
                        Holds-bind _ _
                          (entries_loop-Holds fuel content entries_end entry_end b e
                            (fits, omega (arith, f)))
                          λ others r _. Holds-ok _ ((w.0, r.0), omega (arith, w.1, p.1, r.1))))
      (λ done. Holds-ok _ (tt, omega arith))

-- On any bytes an index root is parsed or refused without a panic; its entries and their keys have
-- the sizes that they state, and together take no more than the value has behind its two headers.
pub parse_index_root-Holds :
    (content : List ℕ)
    → AreBytes content
    → Holds (λ (root : IndexRoot). AreEntries (length content - 16) root.entries) (parse content)
unfolding parse
parse_index_root-Holds content b = Holds-fail_if _ _ _ λ short.
    let first : 16 ≤ length content = ground arith in
    Holds-bind _ _ (read_le-Holds 4 content 0 b (omega arith)) λ _ _ _.
      Holds-bind _ _ (read_le-Holds 4 content 4 b (omega arith)) λ _ _ _.
        Holds-bind _ _ (read_le-Holds 4 content 8 b (omega arith)) λ _ _ _.
          Holds-fail_if _ _ _ λ enough.
            let long : 32 ≤ length content = ground arith in
            Holds-bind _ _ (read_le-Holds 4 content 16 b (omega arith)) λ relative _ _.
              Holds-bind _ _ (read_le-Holds 4 content 20 b (omega arith)) λ size _ _.
                Holds-ok_or _ _ _ λ entries_offset o. Holds-fail_if _ _ _ λ _.
                  Holds-ok_or _ _ _ λ entries_end e. Holds-fail_if _ _ _ λ inside.
                    Holds-fail_if _ _ _ λ ordered.
                      let start = checked_add-eq _ _ _ _ o in
                      let fits : entries_end ≤ length content = ground arith in
                      Holds-bind _ _
                        (entries_loop-Holds (length content) content entries_end entries_offset b
                          fits (ground arith, omega (arith, start)))
                        λ entries a _. Holds-ok _ (a.0, omega (arith, a.1, start))
