-- ===== src/Ntfs/Attribute/RoundTrip.antt =====
-- A resident attribute, written and read back.
use forensis.Prelude.{
  List, ap, arith, drop, false, length, length-append, ltb, ok, plumbing, refl, take_full, ℕ, ◌++◌,
  ◌+◌, ◌-◌, ◌<◌, ◌^◌, ◌∙◌, ◌∷◌, ◌≡◌,
}
use forensis.Bytes.{read_le, byte_at, slice, to_le_bytes}
use forensis.Bytes.Laws.{read_le-ok, byte_at-ok, slice-ok, le-to_le_bytes}
use forensis.Ntfs.Attribute.{
  from_raw, is_end, is_unknown, resident_value, value_of, parse_body, parse,
}

-- The header of 24 bytes, without a name, and the value; `rest` is what follows in the record.
unfoldable pub encode : ℕ → ℕ → List ℕ → List ℕ → List ℕ
encode raw id value rest =
    to_le_bytes 4 raw
    ++ (to_le_bytes 4 (24 + length value)
        ++ (0
            ∷ 0
            ∷ 24
            ∷ 0
            ∷ 0
            ∷ 0
            ∷ (to_le_bytes 2 id
                ++ (to_le_bytes 4 (length value) ++ (24 ∷ 0 ∷ 0 ∷ 0 ∷ (value ++ rest))))))

module _ (raw id : ℕ) (value rest : List ℕ) where
  length-encode : length (encode raw id value rest) ≡ 24 + length value + length rest
  unfolding encode to_le_bytes
  length-encode = omega (arith, length-append value rest)

  encode-type : raw < 2 ^ 32 → read_le 4 (encode raw id value rest) 0 ≡ ok raw
  unfolding encode to_le_bytes
  encode-type h =
      read_le-ok 4 (encode raw id value rest) 0 (omega arith)
      ∙ ap ok (le-to_le_bytes 4 raw (drop 4 (encode raw id value rest)) h)

  encode-size :
      24 + length value < 2 ^ 32 → read_le 4 (encode raw id value rest) 4 ≡ ok (24 + length value)
  unfolding encode to_le_bytes
  encode-size h =
      read_le-ok 4 (encode raw id value rest) 4 (omega arith)
      ∙ ap ok (le-to_le_bytes 4 (24 + length value) (drop 8 (encode raw id value rest)) h)

  encode-flag : byte_at (encode raw id value rest) 8 ≡ ok 0
  unfolding encode to_le_bytes
  encode-flag = byte_at-ok (encode raw id value rest) 8 (omega arith)

  encode-id : id < 2 ^ 16 → read_le 2 (encode raw id value rest) 14 ≡ ok id
  unfolding encode to_le_bytes
  encode-id h =
      read_le-ok 2 (encode raw id value rest) 14 (omega arith)
      ∙ ap ok (le-to_le_bytes 2 id (drop 16 (encode raw id value rest)) h)

  encode-length :
      length value < 2 ^ 32 → read_le 4 (encode raw id value rest) 16 ≡ ok (length value)
  unfolding encode to_le_bytes
  encode-length h =
      read_le-ok 4 (encode raw id value rest) 16 (omega arith)
      ∙ ap ok (le-to_le_bytes 4 (length value) (drop 20 (encode raw id value rest)) h)

  encode-offset : read_le 2 (encode raw id value rest) 20 ≡ ok 24
  unfolding encode to_le_bytes
  encode-offset = read_le-ok 2 (encode raw id value rest) 20 (omega arith)

  encode-value : slice (encode raw id value rest) 24 (24 + length value) ≡ ok value
  unfolding encode to_le_bytes
  encode-value =
      slice-ok (encode raw id value rest) 24 (24 + length value) (omega arith)
        (omega (arith, length-append value rest))
      ∙ ap ok (take_full (24 + length value - 24) value rest (omega arith))

  resident_value-encode :
      24 + length value < 2 ^ 32
      → resident_value (encode raw id value rest) (24 + length value) ≡ ok value
  unfolding resident_value plumbing
  resident_value-encode h =
      rw (encode-length (omega arith), encode-offset) (ground (arith, encode-value))

-- A resident attribute of a known type other than the end marker, whose type and length have 32 bits
-- and whose identifier has 16, written with a nameless header and followed by anything, is read back
-- with its type, length, identifier and value.
pub parse_attribute-encode :
    (raw id : ℕ) (value rest : List ℕ)
    → raw < 2 ^ 32
    → id < 2 ^ 16
    → 24 + length value < 2 ^ 32
    → is_end (from_raw raw) ≡ false
    → is_unknown (from_raw raw) ≡ false
    → parse (encode raw id value rest)
      ≡ ok (record {
        attribute_type = from_raw raw;
        size = 24 + length value;
        non_resident = false;
        id = id;
        content = value;
      })
unfolding parse parse_body value_of plumbing
parse_attribute-encode raw id value rest r i s not_end known =
    let size = length-encode raw id value rest in
    let long : ltb (length (encode raw id value rest)) 16 ≡ false = ground (arith, size) in
    let fits : ltb (length (encode raw id value rest)) (24 + length value) ≡ false =
      ground (arith, size) in
    let enough : ltb (24 + length value) 16 ≡ false = ground arith in
    rw
      (
        long,
        encode-type raw id value rest r,
        not_end,
        encode-size raw id value rest s,
        enough,
        fits,
        encode-flag raw id value rest,
        encode-id raw id value rest i,
        known,
        resident_value-encode raw id value rest s,
      )
      refl
