-- ===== src/Prelude/Bits.antt =====
-- `|` and `&` on words, where they join or test bits that do not overlap.
use Prim.Native.Nat.{
  ℕ, zero, suc, ◌+◌, ◌*◌, ◌/◌, ◌%◌, ◌^◌, ◌≤◌, ◌<◌, min, max, bit_and, bit_or, digits,
  bit_and-bitwise, bit_or-bitwise,
}
use mathlib.Core.Path.{◌≡◌, refl}
use native.Mathlib.Omega.{arith}
use native.Mathlib.Nat.{pow-suc}

-- A native bit operation stands for a recursion on binary digits, whose fuel does not matter where
-- it is at least the first number.
module _ (low : ℕ → ℕ) (join : ℕ → ℕ → ℕ) where
  same_digits :
      (v w fuel more : ℕ)
      → (v ≤ fuel) × (v ≤ more)
      → digits low join fuel v w ≡ digits low join more v w
  same_digits zero w zero zero enough = refl
  same_digits zero w zero (suc more) enough = refl
  same_digits zero w (suc fuel) zero enough = refl
  same_digits zero w (suc fuel) (suc more) enough = refl
  same_digits (suc v) w zero more enough = absurd (omega (arith, enough.0))
  same_digits (suc v) w (suc fuel) zero enough = absurd (omega (arith, enough.1))
  same_digits (suc v) w (suc fuel) (suc more) enough =
      let half : (suc v / 2 ≤ fuel) × (suc v / 2 ≤ more) =
        (omega (arith, enough.0), omega (arith, enough.1)) in
      omega (arith, same_digits (suc v / 2) (w / 2) fuel more half)

or_of_zero : (w : ℕ) → bit_or 0 w ≡ w
or_of_zero w = bit_or-bitwise 0 w

and_of_zero : (w : ℕ) → bit_and 0 w ≡ 0
and_of_zero w = bit_and-bitwise 0 w

-- The lowest digit and the others.
or_digit : (v w : ℕ) → bit_or v w ≡ max (v % 2) (w % 2) + 2 * bit_or (v / 2) (w / 2)
or_digit zero w = omega (arith, or_of_zero (w / 2), or_of_zero w)
or_digit (suc v) w =
    let fuels =
      same_digits (λ d. d) max (suc v / 2) (w / 2) v (suc v / 2) (omega arith, omega arith) in
    omega (arith, fuels, bit_or-bitwise (suc v / 2) (w / 2), bit_or-bitwise (suc v) w)

and_digit : (v w : ℕ) → bit_and v w ≡ min (v % 2) (w % 2) + 2 * bit_and (v / 2) (w / 2)
and_digit zero w = omega (arith, and_of_zero (w / 2), and_of_zero w)
and_digit (suc v) w =
    let fuels =
      same_digits (λ d. zero) min (suc v / 2) (w / 2) v (suc v / 2) (omega arith, omega arith) in
    omega (arith, fuels, bit_and-bitwise (suc v / 2) (w / 2), bit_and-bitwise (suc v) w)

double_pow : (c k : ℕ) → c * 2 ^ suc k ≡ c * 2 ^ k * 2
double_pow c k = rw pow-suc (omega arith)

-- `low | (high << k)` for a `low` of k bits.
pub bit_or_disjoint :
    (k low high : ℕ) → low < 2 ^ k → bit_or low (high * 2 ^ k) ≡ low + high * 2 ^ k
bit_or_disjoint zero low high h =
    let e : low ≡ 0 = omega arith in rw e (omega (arith, or_of_zero (high * 1)))
bit_or_disjoint (suc k) low high h =
    let p : 2 ^ suc k ≡ 2 ^ k * 2 = rw pow-suc (omega arith) in
    let d : high * 2 ^ suc k / 2 ≡ high * 2 ^ k = omega (arith, double_pow high k) in
    let s : bit_or low (high * 2 ^ suc k)
        ≡ max (low % 2) (high * 2 ^ suc k % 2) + 2 * bit_or (low / 2) (high * 2 ^ suc k / 2) =
      or_digit low (high * 2 ^ suc k) in
    let s' : bit_or low (high * 2 ^ suc k)
        ≡ max (low % 2) (high * 2 ^ suc k % 2) + 2 * bit_or (low / 2) (high * 2 ^ k) =
      rw d at s in
    omega (arith, s', double_pow high k, bit_or_disjoint k (low / 2) high (omega arith))

half_pow : (k : ℕ) → 2 ^ suc k / 2 ≡ 2 ^ k
half_pow k = rw pow-suc (omega arith)

even_pow : (k : ℕ) → 2 ^ suc k % 2 ≡ 0
even_pow k = rw pow-suc (omega arith)

and_pow_step : (k v : ℕ) → bit_and v (2 ^ suc k) ≡ bit_and (v / 2) (2 ^ k) * 2
and_pow_step k v =
    let s : bit_and v (2 ^ suc k)
        ≡ min (v % 2) (2 ^ suc k % 2) + 2 * bit_and (v / 2) (2 ^ suc k / 2) =
      and_digit v (2 ^ suc k) in
    let s' : bit_and v (2 ^ suc k) ≡ min (v % 2) (2 ^ suc k % 2) + 2 * bit_and (v / 2) (2 ^ k) =
      rw half_pow at s in
    omega (arith, s', even_pow k)

-- `v & (1 << k)` tests the top bit of a value of k + 1 bits.
pub bit_and_low : (k v : ℕ) → v < 2 ^ k → bit_and v (2 ^ k) ≡ 0
bit_and_low zero v h = let e : v ≡ 0 = omega arith in rw e (and_of_zero 1)
bit_and_low (suc k) v h =
    let p : 2 ^ suc k ≡ 2 ^ k * 2 = rw pow-suc (omega arith) in
    omega (arith, and_pow_step k v, bit_and_low k (v / 2) (omega arith))

pub bit_and_high : (k v : ℕ) → 2 ^ k ≤ v → v < 2 ^ suc k → bit_and v (2 ^ k) ≡ 2 ^ k
bit_and_high zero v h l = let e : v ≡ 1 = omega arith in rw e refl
bit_and_high (suc k) v h l =
    let p : 2 ^ suc k ≡ 2 ^ k * 2 = rw pow-suc (omega arith) in
    let q : 2 ^ suc (suc k) ≡ 2 ^ suc k * 2 = rw pow-suc (omega arith) in
    omega (arith, and_pow_step k v, bit_and_high k (v / 2) (omega arith) (omega arith))
