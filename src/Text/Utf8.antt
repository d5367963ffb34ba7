-- ===== src/Text/Utf8.antt =====
-- `String::from_utf8_lossy`: a byte that no sequence can have at its place ends the sequence, which
-- becomes one replacement character, and starts anew.
use forensis.Prelude.{
  All, List, [], ap, arith, if◌then◌else◌, leb, ltb, refl, true, ℕ, ◌%◌, ◌&&◌, ◌*◌, ◌++◌, ◌+◌, ◌-◌,
  ◌<◌, ◌==◌, ◌∷◌, ◌≡◌,
}
use forensis.Text.{Text, replacement}

-- Between two characters, or inside one: the bytes that are left, the value so far, and the bounds of
-- the next byte.
pub data Utf8State : Type 0 where
  between : Utf8State
  inside : ℕ → ℕ → ℕ → ℕ → Utf8State

unfoldable pub lead_byte : ℕ → Text × Utf8State
lead_byte b =
    if ltb b 0x80
    then (b ∷ [], between)
    else if leb 0xc2 b && ltb b 0xe0
    then ([], inside 1 (b % 32) 0x80 0xbf)
    else if leb 0xe0 b && ltb b 0xf0
    then (
      [],
      inside 2 (b % 16) (if b == 0xe0 then 0xa0 else 0x80) (if b == 0xed then 0x9f else 0xbf),
    )
    else if leb 0xf0 b && leb b 0xf4
    then (
      [],
      inside 3 (b % 8) (if b == 0xf0 then 0x90 else 0x80) (if b == 0xf4 then 0x8f else 0xbf),
    )
    else (replacement ∷ [], between)

unfoldable pub next_byte : Utf8State → ℕ → Text × Utf8State
unfolding lead_byte
next_byte between b = lead_byte b
next_byte (inside left value low high) b =
    if leb low b && leb b high
    then (if left == 1
        then ((value * 64 + b % 64) ∷ [], between)
        else ([], inside (left - 1) (value * 64 + b % 64) 0x80 0xbf))
    else (replacement ∷ (lead_byte b).0, (lead_byte b).1)

unfoldable pub decode_utf8 : Utf8State → List ℕ → Text
unfolding next_byte
decode_utf8 between [] = []
decode_utf8 (inside left value low high) [] = replacement ∷ []
decode_utf8 state (b ∷ bytes) = (next_byte state b).0 ++ decode_utf8 (next_byte state b).1 bytes

unfoldable pub from_utf8_lossy : List ℕ → Text
unfolding decode_utf8
from_utf8_lossy bytes = decode_utf8 between bytes

-- ASCII is read as it is.
pub from_utf8_lossy-ascii :
    (bytes : List ℕ) → All (λ b. b < 0x80) bytes → from_utf8_lossy bytes ≡ bytes
unfolding from_utf8_lossy
from_utf8_lossy-ascii [] h = refl
from_utf8_lossy-ascii (b ∷ bytes) h =
    let low : ltb b 0x80 ≡ true = ground (arith, h.0) in
    rw low (ap (λ rest. b ∷ rest) (from_utf8_lossy-ascii bytes h.1))
