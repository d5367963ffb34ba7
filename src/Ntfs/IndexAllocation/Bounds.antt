-- ===== src/Ntfs/IndexAllocation/Bounds.antt =====
-- A block of an index is parsed without a panic, and its entries lie within it.
use forensis.Prelude.{
  All-set, Holds, Holds-bind, Holds-fail_if, Holds-if, Holds-ok, Holds-ok_or, Holds-sub,
  Holds-weaken, IsByte, List, arith, checked_add-eq, checked_mul-eq, leb, length, length-set, refl,
  set, suc, zero, ℕ, ◌%◌, ◌*◌, ◌+◌, ◌-◌, ◌/◌, ◌<◌, ◌≡◌, ◌≤◌,
}
use forensis.Bytes.{AreBytes}
use forensis.Bytes.Laws.{read_le-Holds, slice-Holds}
use forensis.Ntfs.IndexEntry.{is_last_flags}
use forensis.Ntfs.IndexEntry.Bounds.{parse_entry-Holds}
use forensis.Ntfs.IndexRoot.Bounds.{AreEntries}
use forensis.Ntfs.IndexAllocation.{
  IndexAllocation, fix_sector, fixup_loop, fixed_block, entries_loop, parse,
}

abbrev IsBlock : ℕ → List ℕ → Type 0
IsBlock size content = AreBytes content × (length content ≡ size)

fix_sector-Holds :
    (size usa_offset update_sequence sector_index : ℕ) (content : List ℕ)
    → IsBlock size content
    → usa_offset + 2 + sector_index * 2 + 2 ≤ size
    → Holds (IsBlock size) (fix_sector usa_offset update_sequence sector_index content)
unfolding fix_sector
fix_sector-Holds size usa_offset update_sequence sector_index content c array =
    Holds-ok_or _ _ _ λ sector_end s. Holds-fail_if _ _ _ λ inside.
      let product = checked_mul-eq _ _ _ _ s in
      let fits : sector_end ≤ size = ground (arith, c.1) in
      Holds-bind _ _
        (read_le-Holds 2 content (usa_offset + 2 + sector_index * 2) c.0 (omega (arith, c.1)))
        λ replacement r _. Holds-bind _ _ (Holds-sub sector_end 2 (omega (arith, product))) λ t e _.
          Holds-bind _ _ (read_le-Holds 2 content t c.0 (omega (arith, c.1, e, product)))
            λ trailer _ _. Holds-fail_if _ _ _ λ _.
              let once = set content t (replacement % 256) in
              Holds-ok _ (
                All-set IsByte once (t + 1) (replacement / 256)
                    (All-set IsByte content t (replacement % 256) c.0 (omega arith))
                    (omega (arith, r)),
                omega (
                  arith,
                  c.1,
                  length-set content t (replacement % 256),
                  length-set once (t + 1) (replacement / 256),
                ),
              )

fixup_loop-Holds :
    (size usa_offset update_sequence left sector_index : ℕ) (content : List ℕ)
    → IsBlock size content
    → usa_offset + 2 + (sector_index + left) * 2 ≤ size
    → Holds (IsBlock size) (fixup_loop usa_offset update_sequence left sector_index content)
unfolding fixup_loop
fixup_loop-Holds size usa_offset update_sequence zero sector_index content c array = Holds-ok _ c
fixup_loop-Holds size usa_offset update_sequence (suc left) sector_index content c array =
    Holds-bind _ _
      (fix_sector-Holds size usa_offset update_sequence sector_index content c (omega arith))
      λ fixed f _.
        fixup_loop-Holds size usa_offset update_sequence left (sector_index + 1) fixed f
          (omega arith)

fixed_block-Holds :
    (content : List ℕ)
    → AreBytes content
    → Holds (λ fixed. IsBlock (length content) fixed × (40 ≤ length content)) (fixed_block content)
unfolding fixed_block
fixed_block-Holds content b = Holds-fail_if _ _ _ λ enough.
    let long : 40 ≤ length content = ground arith in
    Holds-bind _ _ (slice-Holds content 0 4 b (omega arith) (omega arith)) λ _ _ _.
      Holds-fail_if _ _ _ λ _.
        Holds-bind _ _ (read_le-Holds 2 content 4 b (omega arith)) λ usa_offset _ _.
          Holds-bind _ _ (read_le-Holds 2 content 6 b (omega arith)) λ usa_count _ _.
            Holds-fail_if _ _ _ λ two. Holds-ok_or _ _ _ λ usa_size s.
              Holds-ok_or _ _ _ λ usa_end e. Holds-fail_if _ _ _ λ inside.
                let few : 2 ≤ usa_count = ground arith in
                let last : usa_offset + usa_count * 2 ≤ length content =
                  ground (arith, checked_mul-eq _ _ _ _ s, checked_add-eq _ _ _ _ e) in
                Holds-bind _ _ (read_le-Holds 2 content usa_offset b (omega arith))
                  λ update_sequence _ _.
                    Holds-bind _ _ (Holds-sub usa_count 1 (omega arith)) λ count c _.
                      Holds-fail_if _ _ _ λ _.
                        Holds-weaken _ (λ fixed f. (f, long))
                          (fixup_loop-Holds (length content) usa_offset update_sequence count 0
                            content (b, refl) (omega (arith, c)))

entries_loop-Holds :
    (fuel : ℕ) (content : List ℕ) (entries_end offset : ℕ)
    → AreBytes content
    → entries_end ≤ length content
    → (offset ≤ entries_end) × (entries_end < fuel + offset)
    → Holds (AreEntries (entries_end - offset)) (entries_loop fuel content entries_end offset)
unfolding entries_loop
entries_loop-Holds zero content entries_end offset b e f = absurd (omega (arith, f))
entries_loop-Holds (suc fuel) content entries_end offset b e f =
    Holds-if (leb (offset + 16) entries_end) _ _
      (λ more.
        let room : offset + 16 ≤ entries_end = ground arith in
        Holds-bind _ _ (read_le-Holds 2 content (offset + 8) b (omega arith)) λ entry_length _ _.
          Holds-bind _ _ (read_le-Holds 2 content (offset + 12) b (omega arith)) λ flags _ _.
            Holds-if (is_last_flags flags) _ _ (λ last. Holds-ok _ (tt, omega arith))
              (λ other. Holds-fail_if _ _ _ λ header. Holds-ok_or _ _ _ λ entry_end s.
                Holds-fail_if _ _ _ λ inside.
                  let sum = checked_add-eq _ _ _ _ s in
                  let step : offset + 16 ≤ entry_end = ground (arith, sum) in
                  let fits : entry_end ≤ entries_end = ground arith in
                  Holds-bind _ _
                    (slice-Holds content offset entry_end b (omega arith) (omega arith))
                    λ part p _. Holds-bind _ _ (parse_entry-Holds part p.0) λ entry w _.
                      Holds-bind _ _
                        (entries_loop-Holds fuel content entries_end entry_end b e
                          (fits, omega (arith, f)))
                        λ others r _. Holds-ok _ ((w.0, r.0), omega (arith, w.1, p.1, r.1))))
      (λ done. Holds-ok _ (tt, omega arith))

-- On any bytes a block of an index is parsed or refused without a panic; a block that is parsed keeps
-- its length, and its entries and their keys have the sizes that they state and together take no
-- more than the block has behind its header.
pub parse_index_block-Holds :
    (content : List ℕ)
    → AreBytes content
    → Holds
        (λ (block : IndexAllocation).
          (length block.content ≡ length content) × AreEntries (length content - 24) block.entries)
        (parse content)
unfolding parse
parse_index_block-Holds content b = Holds-bind _ _ (fixed_block-Holds content b) λ fixed f _.
    Holds-bind _ _ (read_le-Holds 4 fixed 24 f.0.0 (omega (arith, f))) λ relative _ _.
      Holds-bind _ _ (read_le-Holds 4 fixed 28 f.0.0 (omega (arith, f))) λ size _ _.
        Holds-ok_or _ _ _ λ entries_offset o. Holds-ok_or _ _ _ λ entries_end e.
          Holds-fail_if _ _ _ λ inside.
            let start = checked_add-eq _ _ _ _ o in
            let last = checked_add-eq _ _ _ _ e in
            let fits : entries_end ≤ length fixed = ground arith in
            Holds-bind _ _
              (entries_loop-Holds (length fixed + 1) fixed entries_end entries_offset f.0.0 fits
                (omega (arith, last), omega arith))
              λ entries a _. Holds-ok _ (f.0.1, (a.0, omega (arith, a.1, start, f.0.1)))
