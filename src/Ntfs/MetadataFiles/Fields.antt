-- ===== src/Ntfs/MetadataFiles/Fields.antt =====
-- What the fields of the metadata files are read from, and the comparison of names.
use forensis.Prelude.{
  Bool-cases, Holds, Holds-bind, Holds-fail_if, Holds-if, Holds-ok, List, [], ap, arith, drop,
  get_or, inl, inr, length, length-drop, ltb, map, panic, plumbing, refl, suc, sym, true, zero, ℕ,
  ◌*◌, ◌+◌, ◌<◌, ◌==◌, ◌||◌, ◌↔◌, ◌∙◌, ◌∷◌, ◌≡◌, ◌≤◌,
}
use forensis.Bytes.{byte_at, read_le}
use forensis.Ntfs.MetadataFiles.{
  definitions_loop, equals_ignore_case, parse_attr_def, parse_volume_information, units_loop,
  uppercase,
}

-- An attribute of 32 to 35 bytes passes the check of its length, and is read past its end.
pub parse_volume_information_short :
    (bytes : List ℕ)
    → 32 ≤ length bytes
    → length bytes < 36
    → parse_volume_information bytes ≡ panic
unfolding parse_volume_information byte_at read_le plumbing
parse_volume_information_short bytes low high = ground arith

units_loop-uppercase :
    (table a b : List ℕ)
    → length a ≡ length b
    → (units_loop table a b ≡ true) ↔ (map (uppercase table) a ≡ map (uppercase table) b)
unfolding units_loop
units_loop-uppercase table [] [] e = (λ _. refl, λ _. refl)
units_loop-uppercase table [] (y ∷ b) e = absurd (omega (arith, e))
units_loop-uppercase table (x ∷ a) [] e = absurd (omega (arith, e))
units_loop-uppercase table (x ∷ a) (y ∷ b) e =
    let rest = units_loop-uppercase table a b (omega (arith, e)) in
    elim (Bool-cases (uppercase table x == uppercase table y)) [
      | inl same ↦
          let heads : uppercase table x ≡ uppercase table y = ground (arith, same) in
          (λ h. cc (heads, rest.0 (rw same at h)), λ h. rw same (rest.1 (cc h)))
      | inr other ↦ (
        λ h. absurd (cc (rw other at h)),
        λ h. absurd (ground (arith, other, ap (λ units. get_or units 0 0) h)),
      )
    ]

length-uppercase : (table units : List ℕ) → length (map (uppercase table) units) ≡ length units
length-uppercase table [] = refl
length-uppercase table (x ∷ units) = ap suc (length-uppercase table units)

-- Two names are equal up to case exactly where their units become the same in the table's capitals.
pub equals_ignore_case-uppercase :
    (table a b : List ℕ)
    → (equals_ignore_case table a b ≡ true) ↔ (map (uppercase table) a ≡ map (uppercase table) b)
unfolding equals_ignore_case
equals_ignore_case-uppercase table a b = elim (Bool-cases (length a == length b)) [
  | inl same ↦
      let lengths : length a ≡ length b = ground (arith, same) in
      rw same (units_loop-uppercase table a b lengths)
  | inr other ↦
      let lengths : map (uppercase table) a ≡ map (uppercase table) b → length a ≡ length b =
        λ h. sym (length-uppercase table a) ∙ ap length h ∙ length-uppercase table b in
      rw other (λ h. absurd (cc h), λ h. absurd (ground (arith, other, lengths h)))
]

definitions_loop-Holds :
    (fuel : ℕ) (bytes : List ℕ)
    → length bytes < fuel
    → Holds (λ entries. 160 * length entries ≤ length bytes) (definitions_loop fuel bytes)
unfolding definitions_loop
definitions_loop-Holds zero bytes f = absurd (omega arith)
definitions_loop-Holds (suc fuel) bytes f =
    Holds-if (ltb (length bytes) 160 || get_or bytes 0 0 == 0) _ _ (λ _. Holds-ok _ (omega arith))
      λ more.
        let room : 160 ≤ length bytes = ground arith in
        let less = length-drop 160 bytes in
        Holds-bind _ _ (definitions_loop-Holds fuel (drop 160 bytes) (omega (arith, less)))
          λ others h _. Holds-ok _ (omega (arith, h, less))

-- Any bytes are parsed as a table of definitions, without a panic: an error, or as many definitions
-- as there are whole entries of 160 bytes at most.
pub parse_attr_def-Holds :
    (bytes : List ℕ) → Holds (λ entries. 160 * length entries ≤ length bytes) (parse_attr_def bytes)
unfolding parse_attr_def
parse_attr_def-Holds bytes =
    Holds-fail_if _ _ _ λ _. definitions_loop-Holds (length bytes + 1) bytes (omega arith)
