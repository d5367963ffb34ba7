-- ===== src/Text.antt =====
-- Texts as lists of code points, and the decoders of Rust's `String` that the parsers call.
pub mod Utf16
pub mod Utf8
use forensis.Prelude.{
  Bool, List, Option, [], if◌then◌else◌, leb, ltb, none, some, ℕ, ◌&&◌, ◌*◌, ◌+◌, ◌-◌, ◌==◌, ◌||◌,
  ◌∷◌,
}

-- A `String` that a program puts together, by its code points.
abbrev pub Text : Type 0
Text = List ℕ

-- `chunks_exact(2)` and `u16::from_le_bytes` of each chunk.
abbrev pub utf16_units : List ℕ → List ℕ
utf16_units [] = []
utf16_units (low ∷ []) = []
utf16_units (low ∷ high ∷ bytes) = (low + 256 * high) ∷ utf16_units bytes

abbrev pub is_high_surrogate : ℕ → Bool
is_high_surrogate unit = leb 0xd800 unit && ltb unit 0xdc00

abbrev pub is_low_surrogate : ℕ → Bool
is_low_surrogate unit = leb 0xdc00 unit && ltb unit 0xe000

abbrev pub join_surrogates : ℕ → ℕ → ℕ
join_surrogates high low = 0x10000 + (high - 0xd800) * 0x400 + (low - 0xdc00)

abbrev pub cons_text : ℕ → Option Text → Option Text
cons_text c none = none
cons_text c (some text) = some (c ∷ text)

-- `String::from_utf16`: a surrogate outside a pair is an error. The argument `held` is a high
-- surrogate that waits for its partner.
unfoldable pub decode_utf16 : Option ℕ → List ℕ → Option Text
decode_utf16 none [] = some []
decode_utf16 (some high) [] = none
decode_utf16 none (unit ∷ units) =
    let held = decode_utf16 (some unit) units in
    let plain = decode_utf16 none units in
    if is_high_surrogate unit
    then held
    else if is_low_surrogate unit
    then none
    else cons_text unit plain
decode_utf16 (some high) (unit ∷ units) =
    let rest = decode_utf16 none units in
    if is_low_surrogate unit then cons_text (join_surrogates high unit) rest else none

abbrev pub from_utf16 : List ℕ → Option Text
from_utf16 units = decode_utf16 none units

abbrev pub replacement : ℕ
replacement = 0xfffd

-- `String::from_utf16_lossy`: a surrogate outside a pair is the replacement character. The argument
-- `held` is a high surrogate that waits for its second half.
abbrev pub decode_lossy : Option ℕ → List ℕ → Text
decode_lossy none [] = []
decode_lossy (some high) [] = replacement ∷ []
decode_lossy none (unit ∷ units) =
    let held = decode_lossy (some unit) units in
    let plain = decode_lossy none units in
    if is_high_surrogate unit
    then held
    else if is_low_surrogate unit
    then replacement ∷ plain
    else unit ∷ plain
decode_lossy (some high) (unit ∷ units) =
    let held = decode_lossy (some unit) units in
    let plain = decode_lossy none units in
    if is_low_surrogate unit
    then join_surrogates high unit ∷ plain
    else if is_high_surrogate unit
    then replacement ∷ held
    else replacement ∷ unit ∷ plain

abbrev pub from_utf16_lossy : List ℕ → Text
from_utf16_lossy = decode_lossy none

-- `char::is_control` and `char::is_whitespace`, which are Unicode's Cc and White_Space.
abbrev pub is_control : ℕ → Bool
is_control c = ltb c 0x20 || leb 0x7f c && ltb c 0xa0

abbrev pub is_whitespace : ℕ → Bool
is_whitespace c =
    leb 9 c && ltb c 14
    || c == 0x20
    || c == 0x85
    || c == 0xa0
    || c == 0x1680
    || leb 0x2000 c && ltb c 0x200b
    || c == 0x2028
    || c == 0x2029
    || c == 0x202f
    || c == 0x205f
    || c == 0x3000
