-- ===== src/Ntfs/Attribute/Bounds.antt =====
-- An attribute stays within the record it is read from, and the next one is behind it.
use forensis.Prelude.{
  >>-eq-ok, >>=-eq-ok, Bool, Bool-cases, Holds, Holds-bind, Holds-fail_if, Holds-if, Holds-ok,
  Holds-ok_or, Holds-weaken, List, [], ap, arith, checked_add-eq, false, inl, inr, length, not, ok,
  ok_inj, refl, true, ℕ, ◌+◌, ◌==◌, ◌||◌, ◌∙◌, ◌≡◌, ◌≤◌, ◌⊎◌,
}
use forensis.Bytes.{AreBytes, byte_at, read_le}
use forensis.Bytes.Laws.{read_le-Holds, byte_at-Holds, slice-Holds}
use forensis.Ntfs.Attribute.{
  AttributeType, MftAttribute, from_raw, is_end, is_unknown, resident_value, value_of, parse_body,
  parse, end_attribute,
}

-- The end marker, or an attribute that takes 16 bytes at least and none behind the buffer, whose
-- value leaves room for the 22 bytes of a resident header.
pub record IsWithin (room : ℕ) (attribute : MftAttribute) : Type 0 where
  pub place :
      (attribute.size ≡ 0) × (is_end attribute.attribute_type ≡ true)
      ⊎ (16 ≤ attribute.size) × (attribute.size ≤ room) × (is_end attribute.attribute_type ≡ false)
  pub value : (attribute.content ≡ []) ⊎ (length attribute.content + 22 ≤ attribute.size)
  pub bytes : AreBytes attribute.content

abbrev FitsValue : ℕ → List ℕ → Type 0
FitsValue size value = AreBytes value × ((value ≡ []) ⊎ (length value + 22 ≤ size))

resident_value-Holds :
    (buffer : List ℕ) (size : ℕ)
    → AreBytes buffer
    → size ≤ length buffer
    → Holds (FitsValue size) (resident_value buffer size)
unfolding resident_value
resident_value-Holds buffer size b fits = Holds-fail_if _ _ _ λ long.
    let header : 22 ≤ size = ground arith in
    Holds-bind _ _ (read_le-Holds 4 buffer 16 b (omega arith)) λ value_length _ _.
      Holds-bind _ _ (read_le-Holds 2 buffer 20 b (omega arith)) λ value_offset _ _.
        Holds-ok_or _ _ _ λ value_end e. Holds-fail_if _ _ _ λ behind. Holds-fail_if _ _ _ λ inside.
          let sum = checked_add-eq _ _ _ _ e in
          let low : 22 ≤ value_offset = ground arith in
          let high : value_end ≤ size = ground arith in
          Holds-weaken _ (λ value s. (s.0, inr (omega (arith, s.1, sum))))
            (slice-Holds buffer value_offset value_end b (omega (arith, sum)) (omega arith))

value_of-Holds :
    (buffer : List ℕ) (size : ℕ) (attribute_type : AttributeType) (non_resident : Bool)
    → AreBytes buffer
    → size ≤ length buffer
    → Holds (FitsValue size) (value_of buffer size attribute_type non_resident)
unfolding value_of
value_of-Holds buffer size attribute_type non_resident b fits =
    Holds-if (is_unknown attribute_type || non_resident) _ _ (λ _. Holds-ok _ (tt, inl refl))
      (λ _. resident_value-Holds buffer size b fits)

parse_body-Holds :
    (buffer : List ℕ) (attribute_type : AttributeType)
    → AreBytes buffer
    → 16 ≤ length buffer
    → is_end attribute_type ≡ false
    → Holds (IsWithin (length buffer)) (parse_body buffer attribute_type)
unfolding parse_body
parse_body-Holds buffer attribute_type b long n =
    Holds-bind _ _ (read_le-Holds 4 buffer 4 b (omega arith)) λ size _ _.
      Holds-fail_if _ _ _ λ enough. Holds-fail_if _ _ _ λ inside.
        Holds-bind _ _ (byte_at-Holds buffer 8 b (omega arith)) λ flag _ _.
          Holds-bind _ _ (read_le-Holds 2 buffer 14 b (omega arith)) λ id _ _.
            Holds-bind _ _
              (value_of-Holds buffer size attribute_type (not (flag == 0)) b (ground arith))
              λ content c _.
                Holds-ok _
                  (record { place = inr (ground arith, ground arith, n); value = c.1; bytes = c.0 })

-- On any bytes the parser returns or fails without a panic. What it returns is the end marker, or an
-- attribute that takes at least 16 bytes, so that a scan of a record goes on, and at most those that
-- are there; a value that is kept lies behind the 22 bytes of its header and within the attribute.
pub parse_attribute-Holds :
    (buffer : List ℕ) → AreBytes buffer → Holds (IsWithin (length buffer)) (parse buffer)
unfolding parse
parse_attribute-Holds buffer b = Holds-fail_if _ _ _ λ enough.
    let long : 16 ≤ length buffer = ground arith in
    Holds-bind _ _ (read_le-Holds 4 buffer 0 b (omega arith)) λ raw _ _.
      Holds-if (is_end (from_raw raw)) _ _
        (λ _. Holds-ok _ (record { place = inl (refl, refl); value = inl refl; bytes = tt }))
        (λ n. parse_body-Holds buffer (from_raw raw) b long n)

-- What an attribute other than the end marker states as its size.
pub parse_attribute-size :
    (buffer : List ℕ) (attribute : MftAttribute)
    → parse buffer ≡ ok attribute
    → is_end attribute.attribute_type ≡ false
    → read_le 4 buffer 4 ≡ ok attribute.size
unfolding parse parse_body
parse_attribute-size buffer attribute e n =
    let (raw, r, e1) = >>=-eq-ok (read_le 4 buffer 0) _ (>>-eq-ok _ _ e) in
    elim (Bool-cases (is_end (from_raw raw))) [
      | inl marker ↦
          let same : end_attribute ≡ attribute = ok_inj (rw marker at e1) in absurd (cc (n, same))
      | inr other ↦
          let (size, s, e2) = >>=-eq-ok (read_le 4 buffer 4) _ (rw other at e1) in
          let e3 = >>-eq-ok _ _ (>>-eq-ok _ _ e2) in
          let (flag, f, e4) = >>=-eq-ok (byte_at buffer 8) _ e3 in
          let (id, i, e5) = >>=-eq-ok (read_le 2 buffer 14) _ e4 in
          let (content, c, e6) =
            >>=-eq-ok (value_of buffer size (from_raw raw) (not (flag == 0))) _ e5 in
          s ∙ ap (λ (a : MftAttribute). ok a.size) (ok_inj e6)
    ]
