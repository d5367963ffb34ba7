-- ===== src/Text/Utf16.antt =====
-- Decoding UTF-16 reads back what encoding wrote.
use forensis.Prelude.{
  All, List, [], arith, if◌then◌else◌, length, ltb, refl, some, ℕ, ◌%◌, ◌*◌, ◌+◌, ◌-◌, ◌/◌, ◌<◌,
  ◌∷◌, ◌≡◌, ◌≤◌, ◌⊎◌,
}
use forensis.Text.{Text, utf16_units, decode_utf16, from_utf16}

-- A Unicode scalar value.
abbrev pub IsScalar : ℕ → Type 0
IsScalar c = (c < 0xd800) ⊎ ((0xe000 ≤ c) × (c < 0x110000))

abbrev pub AreScalars : Text → Type 0
AreScalars = All IsScalar

-- The units of a text.
unfoldable pub encode_utf16 : Text → List ℕ
encode_utf16 [] = []
encode_utf16 (c ∷ text) =
    if ltb c 0x10000
    then c ∷ encode_utf16 text
    else (0xd800 + (c - 0x10000) / 0x400) ∷ (0xdc00 + (c - 0x10000) % 0x400) ∷ encode_utf16 text

-- The bytes of a list of units.
unfoldable pub unit_bytes : List ℕ → List ℕ
unit_bytes [] = []
unit_bytes (unit ∷ units) = (unit % 256) ∷ (unit / 256) ∷ unit_bytes units

pub utf16_units-unit_bytes : (units : List ℕ) → utf16_units (unit_bytes units) ≡ units
unfolding unit_bytes
utf16_units-unit_bytes [] = refl
utf16_units-unit_bytes (unit ∷ units) =
    let e : unit % 256 + 256 * (unit / 256) ≡ unit = omega arith in
    rw (e, utf16_units-unit_bytes units) refl

pub length-unit_bytes : (units : List ℕ) → length (unit_bytes units) ≡ 2 * length units
unfolding unit_bytes
length-unit_bytes [] = refl
length-unit_bytes (unit ∷ units) = omega (arith, length-unit_bytes units)

pub from_utf16-encode_utf16 :
    (text : Text) → AreScalars text → from_utf16 (encode_utf16 text) ≡ some text
unfolding decode_utf16 encode_utf16
from_utf16-encode_utf16 [] s = refl
from_utf16-encode_utf16 (c ∷ text) s = ground (arith, s.0, from_utf16-encode_utf16 text s.1)
