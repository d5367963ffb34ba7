-- ===== src/Bytes/Laws.antt =====
-- What the byte readers return, and when they do not panic.
use native.Mathlib.Nat.{pow-suc}
use forensis.Prelude.{
  All-drop, All-take, Holds, Holds-ok, IsByte, List, [], ap, arith, drop, get_or, length,
  length-drop, length-take, le→leb, lt→ltb, ok, refl, suc, take, zero, ℕ, ◌%◌, ◌*◌, ◌++◌, ◌+◌, ◌-◌,
  ◌/◌, ◌<◌, ◌^◌, ◌∷◌, ◌≡◌, ◌≤◌,
}
use forensis.Bytes.{AreBytes, le, read_le, byte_at, slice, to_le_bytes}

pub pow_pos : (n : ℕ) → 0 < 256 ^ n
pow_pos zero = omega arith
pow_pos (suc n) = rw pow-suc (omega (arith, pow_pos n))

pub le-lt : (n : ℕ) (bytes : List ℕ) → AreBytes bytes → le n bytes < 256 ^ n
le-lt zero bytes h = omega arith
le-lt (suc n) [] h = pow_pos (suc n)
le-lt (suc n) (b ∷ bytes) h = rw pow-suc (omega (arith, le-lt n bytes h.1, h.0))

pub get_or-IsByte : (i : ℕ) (bytes : List ℕ) → AreBytes bytes → get_or bytes i 0 < 256
get_or-IsByte i [] h = omega arith
get_or-IsByte zero (b ∷ bytes) h = h.0
get_or-IsByte (suc i) (b ∷ bytes) h = get_or-IsByte i bytes h.1

pub read_le-ok :
    (n : ℕ) (buffer : List ℕ) (offset : ℕ)
    → offset + n ≤ length buffer
    → read_le n buffer offset ≡ ok (le n (drop offset buffer))
unfolding read_le
read_le-ok n buffer offset h = rw (le→leb _ _ h)

pub byte_at-ok :
    (buffer : List ℕ) (index : ℕ)
    → index < length buffer
    → byte_at buffer index ≡ ok (get_or buffer index 0)
unfolding byte_at
byte_at-ok buffer index h = rw (lt→ltb _ _ h)

pub slice-ok :
    (buffer : List ℕ) (start end : ℕ)
    → start ≤ end
    → end ≤ length buffer
    → slice buffer start end ≡ ok (take (end - start) (drop start buffer))
unfolding slice
slice-ok buffer start end h k = rw (le→leb _ _ h, le→leb _ _ k)

-- A field that lies within the slice is read without a panic, and is in range.
pub read_le-Holds :
    (n : ℕ) (buffer : List ℕ) (offset : ℕ)
    → AreBytes buffer
    → offset + n ≤ length buffer
    → Holds (λ v. v < 256 ^ n) (read_le n buffer offset)
read_le-Holds n buffer offset b h =
    rw (read_le-ok n buffer offset h) (Holds-ok _ (le-lt n _ (All-drop IsByte offset buffer b)))

pub byte_at-Holds :
    (buffer : List ℕ) (index : ℕ)
    → AreBytes buffer
    → index < length buffer
    → Holds (λ v. v < 256) (byte_at buffer index)
byte_at-Holds buffer index b h =
    rw (byte_at-ok buffer index h) (Holds-ok _ (get_or-IsByte index buffer b))

pub slice-Holds :
    (buffer : List ℕ) (start end : ℕ)
    → AreBytes buffer
    → start ≤ end
    → end ≤ length buffer
    → Holds (λ v. AreBytes v × (length v ≡ end - start)) (slice buffer start end)
slice-Holds buffer start end b h k = rw (slice-ok buffer start end h k) (
    Holds-ok _ (
      All-take IsByte (end - start) _ (All-drop IsByte start buffer b),
      omega (arith, length-take (end - start) (drop start buffer), length-drop start buffer),
    ))

pub length-to_le_bytes : (n v : ℕ) → length (to_le_bytes n v) ≡ n
unfolding to_le_bytes
length-to_le_bytes zero v = refl
length-to_le_bytes (suc n) v = ap suc (length-to_le_bytes n (v / 256))

pub to_le_bytes-AreBytes : (n v : ℕ) → AreBytes (to_le_bytes n v)
unfolding to_le_bytes
to_le_bytes-AreBytes zero v = tt
to_le_bytes-AreBytes (suc n) v = (omega arith, to_le_bytes-AreBytes n (v / 256))

-- Decoding reads back what encoding wrote, whatever follows.
pub le-to_le_bytes : (n v : ℕ) (rest : List ℕ) → v < 256 ^ n → le n (to_le_bytes n v ++ rest) ≡ v
unfolding to_le_bytes
le-to_le_bytes zero v rest h = omega arith
le-to_le_bytes (suc n) v rest h =
    let p : 256 ^ suc n ≡ 256 ^ n * 256 = rw pow-suc (omega arith) in
    omega (arith, le-to_le_bytes n (v / 256) rest (omega arith))

pub take-to_le_bytes :
    (n v : ℕ) (rest : List ℕ) → take n (to_le_bytes n v ++ rest) ≡ to_le_bytes n v
unfolding to_le_bytes
take-to_le_bytes zero v rest = refl
take-to_le_bytes (suc n) v rest = ap (λ l. (v % 256) ∷ l) (take-to_le_bytes n (v / 256) rest)

pub drop-to_le_bytes : (n v : ℕ) (rest : List ℕ) → drop n (to_le_bytes n v ++ rest) ≡ rest
unfolding to_le_bytes
drop-to_le_bytes zero v rest = refl
drop-to_le_bytes (suc n) v rest = drop-to_le_bytes n (v / 256) rest

-- A slice within the buffer is the part of it that it names.
pub slice-exact :
    (buffer : List ℕ) (start end : ℕ)
    → start ≤ end
    → end ≤ length buffer
    → Holds (λ v. v ≡ take (end - start) (drop start buffer)) (slice buffer start end)
slice-exact buffer start end h k = rw (slice-ok buffer start end h k) (Holds-ok _ refl)
