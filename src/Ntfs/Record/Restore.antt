-- ===== src/Ntfs/Record/Restore.antt =====
-- What the fixup restores, byte by byte, and what it has compared.
use forensis.Prelude.{
  >>=-eq-ok, Bool-cases, List, [], ap, arith, drop, fail_if-eq-ok, get_or, get_or-set,
  if◌then◌else◌, inl, inr, leb, length, length-set, ltb, none, ok, refl, set, suc, sym, zero, ℕ,
  ◌%◌, ◌&&◌, ◌*◌, ◌+◌, ◌-◌, ◌/◌, ◌<◌, ◌==◌, ◌∙◌, ◌∷◌, ◌≡◌, ◌≢◌, ◌≤◌, ◌⊎◌,
}
use forensis.Bytes.{read_le, byte_at, le}
use forensis.Ntfs.Record.{MftRecord, fix_sector, fixup_loop, apply_usa_fixup, new_record}

-- The byte at `j` after the sectors from `sector_index` on, `left` of them, are fixed: in the last
-- two places of such a sector the one that the array behind `usa_offset` holds for it.
abbrev restored : ℕ → ℕ → ℕ → List ℕ → ℕ → ℕ
restored usa_offset left sector_index content j =
    if leb 510 (j % 512) && leb sector_index (j / 512) && ltb (j / 512) (sector_index + left)
    then get_or content (usa_offset + 2 + j / 512 * 2 + (j % 512 - 510)) 0
    else get_or content j 0

byte_at-eq : (content : List ℕ) (i b : ℕ) → byte_at content i ≡ ok b → b ≡ get_or content i 0
unfolding byte_at
byte_at-eq content i b e = ground arith

read_le-eq :
    (n : ℕ) (content : List ℕ) (i v : ℕ) → read_le n content i ≡ ok v → v ≡ le n (drop i content)
unfolding read_le
read_le-eq n content i v e = ground arith

-- A 16-bit field by its two bytes.
le-two :
    (content : List ℕ) (i : ℕ)
    → le 2 (drop i content) ≡ get_or content i 0 + 256 * get_or content (i + 1) 0
le-two [] zero = omega arith
le-two [] (suc i) = omega arith
le-two (a ∷ []) zero = omega arith
le-two (a ∷ b ∷ content) zero = omega arith
le-two (a ∷ content) (suc i) =
    let p : suc i + 1 ≡ suc (i + 1) = omega arith in rw p (le-two content i)

write_two :
    (content : List ℕ) (t j a b : ℕ)
    → t + 1 < length content
    → get_or (set (set content t a) (t + 1) b) j 0
      ≡ (if j == t then a else if j == t + 1 then b else get_or content j 0)
write_two content t j a b h =
    elim (get_or-set (set content t a) (t + 1) j b 0 (omega (arith, length-set content t a))) [
      | inl (e, r) ↦ ground arith
      | inr (n, r) ↦ elim (get_or-set content t j a 0 (omega arith)) [
        | inl (e', r') ↦ ground arith
        | inr (n', r') ↦ ground arith
      ]
    ]

-- The two places of a trailer are those that `restored` has in mind.
restored-one :
    (usa_offset i j : ℕ) (content : List ℕ)
    → (if j == i * 512 + 510
        then get_or content (usa_offset + 2 + i * 2) 0
        else if j == i * 512 + 511
        then get_or content (usa_offset + 2 + i * 2 + 1) 0
        else get_or content j 0)
      ≡ restored usa_offset 1 i content j
restored-one usa_offset i j content = elim (Bool-cases (j == i * 512 + 510)) [
  | inl low ↦
      let at : j ≡ i * 512 + 510 = ground arith in
      let place : usa_offset + 2 + j / 512 * 2 + (j % 512 - 510) ≡ usa_offset + 2 + i * 2 =
        omega arith in
      ground (arith, ap (λ k. get_or content k 0) place)
  | inr other ↦ elim (Bool-cases (j == i * 512 + 511)) [
    | inl high ↦
        let at : j ≡ i * 512 + 511 = ground arith in
        let place : usa_offset + 2 + j / 512 * 2 + (j % 512 - 510) ≡ usa_offset + 2 + i * 2 + 1 =
          omega arith in
        ground (arith, ap (λ k. get_or content k 0) place)
    | inr neither ↦ ground arith
  ]
]

-- One round: the trailer matched, and two bytes are new.
record IsFixed (usa_offset update_sequence i : ℕ) (content fixed : List ℕ) : Type 0 where
  matched : le 2 (drop (i * 512 + 510) content) ≡ update_sequence
  same_length : length fixed ≡ length content
  bytes : (j : ℕ) → get_or fixed j 0 ≡ restored usa_offset 1 i content j

fix_sector-IsFixed :
    (usa_offset update_sequence i : ℕ) (content fixed : List ℕ)
    → (i + 1) * 512 ≤ length content
    → fix_sector usa_offset update_sequence i content ≡ ok fixed
    → IsFixed usa_offset update_sequence i content fixed
unfolding fix_sector
fix_sector-IsFixed usa_offset update_sequence i content fixed room e =
    let place = usa_offset + 2 + i * 2 in
    let (first, f, e1) = >>=-eq-ok (byte_at content place) _ e in
    let (second, s, e2) = >>=-eq-ok (byte_at content (place + 1)) _ e1 in
    let (trailer, t, e3) = >>=-eq-ok _ _ e2 in
    let (equal, e4) = fail_if-eq-ok _ _ _ e3 in
    let same : (i + 1) * 512 - 2 ≡ i * 512 + 510 = omega arith in
    let next : i * 512 + 510 + 1 ≡ i * 512 + 511 = omega arith in
    let whole : set (set content ((i + 1) * 512 - 2) first) ((i + 1) * 512 - 2 + 1) second ≡ fixed =
      cc e4 in
    let written : set (set content (i * 512 + 510) first) (i * 512 + 511) second ≡ fixed =
      rw (same, next) at whole in
    let low = byte_at-eq content place first f in
    let high = byte_at-eq content (place + 1) second s in
    let seen : trailer ≡ le 2 (drop (i * 512 + 510) content) =
      read_le-eq 2 content (i * 512 + 510) trailer (rw same at t) in
    record {
      matched = ground (arith, seen);
      same_length = rw (← written) (
          length-set (set content (i * 512 + 510) first) (i * 512 + 511) second
          ∙ length-set content (i * 512 + 510) first);
      bytes = λ j.
          rw (← written, ← next)
            (write_two content (i * 512 + 510) j first second (omega arith)
              ∙ rw (low, high, next) (restored-one usa_offset i j content));
    }

-- Outside the trailer of sector i, a round changes nothing.
outside :
    (usa_offset i j : ℕ) (content : List ℕ)
    → (j % 512 < 510) ⊎ (j / 512 ≢ i)
    → restored usa_offset 1 i content j ≡ get_or content j 0
outside usa_offset i j content (inl low) = ground arith
outside usa_offset i j content (inr other) = ground (arith, other)

restored-step :
    (usa_offset left i j : ℕ) (content once : List ℕ)
    → usa_offset + 2 + (i + suc left) * 2 ≤ 510
    → ((k : ℕ) → get_or once k 0 ≡ restored usa_offset 1 i content k)
    → restored usa_offset left (i + 1) once j ≡ restored usa_offset (suc left) i content j
restored-step usa_offset left i j content once front h =
    let place = usa_offset + 2 + j / 512 * 2 + (j % 512 - 510) in
    elim (Bool-cases (leb 510 (j % 512) && leb (i + 1) (j / 512) && ltb (j / 512) (i + 1 + left))) [
      | inl later ↦
          let first : place % 512 < 510 = ground arith in
          ground (arith, h place, outside usa_offset i place content (inl first))
      | inr other ↦ ground (arith, h j)
    ]

-- A round leaves the trailers of the other sectors.
same_trailer :
    (usa_offset i k : ℕ) (content once : List ℕ)
    → k ≢ i
    → ((j : ℕ) → get_or once j 0 ≡ restored usa_offset 1 i content j)
    → le 2 (drop (k * 512 + 510) once) ≡ le 2 (drop (k * 512 + 510) content)
same_trailer usa_offset i k content once other h =
    let t = k * 512 + 510 in
    let here : t / 512 ≡ k = omega arith in
    let next : (t + 1) / 512 ≡ k = omega arith in
    let low = h t ∙ outside usa_offset i t content (inr (λ e. other (omega (arith, e)))) in
    let high =
      h (t + 1) ∙ outside usa_offset i (t + 1) content (inr (λ e. other (omega (arith, e)))) in
    rw (le-two once t, le-two content t, low, high) refl

-- All the rounds: each trailer matched, and every byte is restored.
record AreFixed (usa_offset update_sequence left i : ℕ) (content fixed : List ℕ) : Type 0 where
  matched : (k : ℕ) → i ≤ k → k < i + left → le 2 (drop (k * 512 + 510) content) ≡ update_sequence
  bytes : (j : ℕ) → get_or fixed j 0 ≡ restored usa_offset left i content j

fixup_loop-AreFixed :
    (usa_offset update_sequence left i : ℕ) (content fixed : List ℕ)
    → usa_offset + 2 + (i + left) * 2 ≤ 510
    → (i + left) * 512 ≤ length content
    → fixup_loop usa_offset update_sequence left i content ≡ ok fixed
    → AreFixed usa_offset update_sequence left i content fixed
unfolding fixup_loop
fixup_loop-AreFixed usa_offset update_sequence zero i content fixed front room e =
    let same : content ≡ fixed = cc e in
    record { matched = λ k l h. absurd (omega arith); bytes = λ j. rw (← same) (ground arith) }
fixup_loop-AreFixed usa_offset update_sequence (suc left) i content fixed front room e =
    let (once, step, e') = >>=-eq-ok (fix_sector usa_offset update_sequence i content) _ e in
    let f = fix_sector-IsFixed usa_offset update_sequence i content once (omega arith) step in
    let later =
      fixup_loop-AreFixed usa_offset update_sequence left (i + 1) once fixed (omega arith)
        (omega (arith, f.same_length)) e' in
    record {
      matched = λ k l h. elim (Bool-cases (k == i)) [
        | inl here ↦ let same : k ≡ i = ground arith in rw same f.matched
        | inr other ↦
            sym (same_trailer usa_offset i k content once (λ e. ground arith) f.bytes)
            ∙ later.matched k (ground arith) (omega arith)
      ];
      bytes = λ j. later.bytes j ∙ restored-step usa_offset left i j content once front f.bytes;
    }

-- What it takes for the fixup to succeed, and what it then returns.
pub record IsRestored (content fixed : List ℕ) : Type 0 where
  pub matched :
      (k : ℕ)
      → k < length content / 512
      → le 2 (drop (k * 512 + 510) content) ≡ le 2 (drop (le 2 (drop 4 content)) content)
  pub trailers :
      (k e : ℕ)
      → k < length content / 512
      → e < 2
      → get_or fixed (k * 512 + 510 + e) 0
        ≡ get_or content (le 2 (drop 4 content) + 2 + k * 2 + e) 0
  pub others : (j : ℕ) → j % 512 < 510 → get_or fixed j 0 ≡ get_or content j 0

AreFixed-IsRestored :
    (content fixed : List ℕ)
    → AreFixed
        (le 2 (drop 4 content))
        (le 2 (drop (le 2 (drop 4 content)) content))
        (length content / 512)
        0
        content
        fixed
    → IsRestored content fixed
AreFixed-IsRestored content fixed f = record {
  matched = λ k h. f.matched k (omega arith) (omega arith);
  trailers = λ k e h l.
      let j = k * 512 + 510 + e in
      let sector : j / 512 ≡ k = omega arith in
      let rest : j % 512 ≡ 510 + e = omega arith in
      let array = le 2 (drop 4 content) + 2 in
      let place : array + j / 512 * 2 + (j % 512 - 510) ≡ array + k * 2 + e = omega arith in
      f.bytes j ∙ ground (arith, ap (λ i. get_or content i 0) place);
  others = λ j h. f.bytes j ∙ ground arith;
}

apply_usa_fixup-IsRestored :
    (content fixed : List ℕ)
    → le 2 (drop 4 content) + le 2 (drop 6 content) * 2 ≤ 510
    → apply_usa_fixup content ≡ ok fixed
    → IsRestored content fixed
unfolding apply_usa_fixup
apply_usa_fixup-IsRestored content fixed front e =
    let (_, e1) = fail_if-eq-ok _ _ _ e in
    let (usa_offset, o, e2) = >>=-eq-ok (read_le 2 content 4) _ e1 in
    let (usa_count, c, e3) = >>=-eq-ok (read_le 2 content 6) _ e2 in
    let (_, e4) = fail_if-eq-ok _ _ _ e3 in
    let (usa_size, _, e5) = >>=-eq-ok _ _ e4 in
    let (usa_end, _, e6) = >>=-eq-ok _ _ e5 in
    let (_, e7) = fail_if-eq-ok _ _ _ e6 in
    let (_, e8) = fail_if-eq-ok _ _ _ e7 in
    let (counted, e9) = fail_if-eq-ok _ _ _ e8 in
    let (update_sequence, u, e10) = >>=-eq-ok (read_le 2 content usa_offset) _ e9 in
    let o' = read_le-eq 2 content 4 usa_offset o in
    let c' = read_le-eq 2 content 6 usa_count c in
    let u' = read_le-eq 2 content usa_offset update_sequence u in
    let count : usa_count ≡ length content / 512 + 1 = ground arith in
    AreFixed-IsRestored content fixed (
      rw (← o', ← u')
        (fixup_loop-AreFixed usa_offset update_sequence (length content / 512) 0 content fixed
          (omega (arith, o', c', count)) (omega arith) e10))

-- Where the update sequence array lies in front of the first trailer, a record that is accepted had
-- the update sequence number in the trailer of every sector; in the record that is made, each
-- trailer holds the two bytes that the array keeps for its sector, and all other bytes are those
-- that were given.
pub new_record-IsRestored :
    (index : ℕ) (content : List ℕ) (made : MftRecord)
    → le 2 (drop 4 content) + le 2 (drop 6 content) * 2 ≤ 510
    → new_record index content ≡ ok made
    → IsRestored content made.content
unfolding new_record
new_record-IsRestored index content made front e =
    let (_, e1) = fail_if-eq-ok _ _ _ e in
    let (_, e2) = fail_if-eq-ok _ _ _ e1 in
    let (signature, _, e3) = >>=-eq-ok _ _ e2 in
    let (_, e4) = fail_if-eq-ok _ _ _ e3 in
    let (fixed, f, e5) = >>=-eq-ok (apply_usa_fixup content) _ e4 in
    let same : record { index = index; header = none; content = fixed } ≡ made = cc e5 in
    rw (← same) (apply_usa_fixup-IsRestored content fixed front f)
