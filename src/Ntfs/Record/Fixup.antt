-- ===== src/Ntfs/Record/Fixup.antt =====
-- The update sequence of a record: every byte of what the fixup returns, and its safety.
use forensis.Prelude.{
  All-set, Holds, Holds-bind, Holds-fail_if, Holds-ok, Holds-ok_or, IsByte, List, arith,
  checked_add-eq, checked_mul-eq, length, length-set, refl, set, suc, zero, ℕ, ◌*◌, ◌+◌, ◌-◌, ◌/◌,
  ◌≡◌, ◌≤◌,
}
use forensis.Bytes.{AreBytes}
use forensis.Bytes.Laws.{read_le-Holds, byte_at-Holds, slice-Holds}
use forensis.Ntfs.Record.{fix_sector, fixup_loop, apply_usa_fixup, new_record}

-- A record of bytes of a given length.
abbrev pub IsContent : ℕ → List ℕ → Type 0
IsContent size content = AreBytes content × (length content ≡ size)

fix_sector-Holds :
    (size usa_offset update_sequence sector_index : ℕ) (content : List ℕ)
    → IsContent size content
    → usa_offset + 2 + sector_index * 2 + 2 ≤ size
    → (sector_index + 1) * 512 ≤ size
    → Holds (IsContent size) (fix_sector usa_offset update_sequence sector_index content)
unfolding fix_sector
fix_sector-Holds size usa_offset update_sequence sector_index content c array sector =
    let place = usa_offset + 2 + sector_index * 2 in
    let trailer_offset = (sector_index + 1) * 512 - 2 in
    Holds-bind _ _ (byte_at-Holds content place c.0 (omega (arith, c.1))) λ first f _.
      Holds-bind _ _ (byte_at-Holds content (place + 1) c.0 (omega (arith, c.1))) λ second s _.
        Holds-bind _ _ (read_le-Holds 2 content trailer_offset c.0 (omega (arith, c.1)))
          λ trailer _ _. Holds-fail_if _ _ _ λ _.
            let once = set content trailer_offset first in
            Holds-ok _ (
              All-set IsByte once (trailer_offset + 1) second
                  (All-set IsByte content trailer_offset first c.0 f) s,
              omega (
                arith,
                c.1,
                length-set content trailer_offset first,
                length-set once (trailer_offset + 1) second,
              ),
            )

fixup_loop-Holds :
    (size usa_offset update_sequence left sector_index : ℕ) (content : List ℕ)
    → IsContent size content
    → usa_offset + 2 + (sector_index + left) * 2 ≤ size
    → (sector_index + left) * 512 ≤ size
    → Holds (IsContent size) (fixup_loop usa_offset update_sequence left sector_index content)
unfolding fixup_loop
fixup_loop-Holds size usa_offset update_sequence zero sector_index content c array sectors =
    Holds-ok _ c
fixup_loop-Holds size usa_offset update_sequence (suc left) sector_index content c array sectors =
    Holds-bind _ _
      (fix_sector-Holds size usa_offset update_sequence sector_index content c (omega arith)
        (omega arith))
      λ fixed f _.
        fixup_loop-Holds size usa_offset update_sequence left (sector_index + 1) fixed f
          (omega arith) (omega arith)

apply_usa_fixup-Holds :
    (content : List ℕ)
    → AreBytes content
    → Holds (IsContent (length content)) (apply_usa_fixup content)
unfolding apply_usa_fixup
apply_usa_fixup-Holds content b = Holds-fail_if _ _ _ λ long.
    let enough : 8 ≤ length content = ground arith in
    Holds-bind _ _ (read_le-Holds 2 content 4 b (omega arith)) λ usa_offset _ _.
      Holds-bind _ _ (read_le-Holds 2 content 6 b (omega arith)) λ usa_count _ _.
        Holds-fail_if _ _ _ λ two. Holds-ok_or _ _ _ λ usa_size s. Holds-ok_or _ _ _ λ usa_end e.
          Holds-fail_if _ _ _ λ inside. Holds-fail_if _ _ _ λ aligned.
            Holds-fail_if _ _ _ λ counted.
              let count : usa_count ≡ length content / 512 + 1 = ground arith in
              let few : 2 ≤ usa_count = ground arith in
              let last : usa_offset + usa_count * 2 ≤ length content =
                ground (arith, checked_mul-eq _ _ _ _ s, checked_add-eq _ _ _ _ e) in
              Holds-bind _ _ (read_le-Holds 2 content usa_offset b (omega arith))
                λ update_sequence _ _.
                  fixup_loop-Holds (length content) usa_offset update_sequence
                    (length content / 512) 0 content (b, refl) (omega arith) (omega arith)

-- On any bytes a record is made or refused without a panic, and a record that is made has as many
-- bytes as it was given.
pub new_record-Holds :
    (index : ℕ) (content : List ℕ)
    → AreBytes content
    → Holds
        (λ record'. (record'.index ≡ index) × IsContent (length content) record'.content)
        (new_record index content)
unfolding new_record
new_record-Holds index content b = Holds-fail_if _ _ _ λ _. Holds-fail_if _ _ _ λ long.
    Holds-bind _ _ (slice-Holds content 0 4 b (omega arith) (ground arith)) λ signature _ _.
      Holds-fail_if _ _ _
        λ _. Holds-bind _ _ (apply_usa_fixup-Holds content b) λ fixed f _. Holds-ok _ (refl, f)
