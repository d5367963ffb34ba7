-- ===== src/Prelude/Words.antt =====
-- Unsigned machine words as native numbers, and the checked operations of Rust on them.
-- `usize` is taken to be 64 bits wide.
use Prim.Native.Nat.{ℕ, ◌+◌, ◌-◌, ◌*◌, ◌/◌, ◌^◌, ◌<◌, ◌≤◌}
use mathlib.Core.Option.{Option, none, some}
use forensis.Prelude.Tests.{ltb, leb, if◌then◌else◌}
use mathlib.Core.Path.{◌≡◌, refl}
use forensis.Prelude.Tests.{lt→ltb, le→leb}
use forensis.Prelude.Errors.{Result, ok, panic, Holds, Holds-ok}
use native.Mathlib.Omega.{arith}

abbrev pub u64_max : ℕ
u64_max = 2 ^ 64 - 1

abbrev pub IsByte : ℕ → Type 0
IsByte b = b < 256

abbrev pub IsU64 : ℕ → Type 0
IsU64 v = v < 2 ^ 64

-- The `checked_*` methods on an unsigned word whose values are below `m`.
abbrev pub checked_add : ℕ → ℕ → ℕ → Option ℕ
checked_add m a b = if ltb (a + b) m then some (a + b) else none

abbrev pub checked_mul : ℕ → ℕ → ℕ → Option ℕ
checked_mul m a b = if ltb (a * b) m then some (a * b) else none

abbrev pub checked_sub : ℕ → ℕ → Option ℕ
checked_sub a b = if leb b a then some (a - b) else none

-- Plain arithmetic: overflow panics.
abbrev pub add : ℕ → ℕ → ℕ → Result ℕ
add m a b = if ltb (a + b) m then ok (a + b) else panic

abbrev pub mul : ℕ → ℕ → ℕ → Result ℕ
mul m a b = if ltb (a * b) m then ok (a * b) else panic

abbrev pub sub : ℕ → ℕ → Result ℕ
sub a b = if leb b a then ok (a - b) else panic

abbrev pub u32_mod : ℕ
u32_mod = 2 ^ 32

abbrev pub u64_mod : ℕ
u64_mod = 2 ^ 64

-- `a.div_ceil(b)` for a positive `b`.
abbrev pub div_ceil : ℕ → ℕ → ℕ
div_ceil a b = (a + b - 1) / b

-- Arithmetic that stays in range does not panic.
pub Holds-add : (m a b : ℕ) → a + b < m → Holds (λ v. v ≡ a + b) (add m a b)
Holds-add m a b h = rw (lt→ltb _ _ h) (Holds-ok _ refl)

pub Holds-mul : (m a b : ℕ) → a * b < m → Holds (λ v. v ≡ a * b) (mul m a b)
Holds-mul m a b h = rw (lt→ltb _ _ h) (Holds-ok _ refl)

pub Holds-sub : (a b : ℕ) → b ≤ a → Holds (λ v. v ≡ a - b) (sub a b)
Holds-sub a b h = rw (le→leb _ _ h) (Holds-ok _ refl)

-- What a checked operation returns.
pub checked_add-eq : (m a b c : ℕ) → checked_add m a b ≡ some c → (c ≡ a + b) × (a + b < m)
checked_add-eq m a b c h = ground arith

pub checked_mul-eq : (m a b c : ℕ) → checked_mul m a b ≡ some c → (c ≡ a * b) × (a * b < m)
checked_mul-eq m a b c h = ground arith

pub checked_sub-eq : (a b c : ℕ) → checked_sub a b ≡ some c → (c ≡ a - b) × (b ≤ a)
checked_sub-eq a b c h = ground arith
