-- ===== src/Prelude/Errors.antt =====
-- crates/forensis-core/src/error.rs and the `Result` that every fallible function returns.
use Prim.Native.String.{String}
use mathlib.Core.Path.{◌≡◌, refl}
use mathlib.Core.Logic.{◌≢◌}
use mathlib.Core.Bool.{Bool, true, false}
use forensis.Prelude.Tests.{if◌then◌else◌}
use mathlib.Core.Option.{Option, none, some}

-- The payload of `Io` is the operating system's and is left out.
pub data ForensisError : Type 0 where
  io unknown_filesystem unsupported_filesystem invalid_partition : ForensisError
  invalid_boot_sector file_not_found directory_not_found : ForensisError
  generic invalid_format : String → ForensisError

-- `panic` is no Rust value: an index out of range, a failed `unwrap`, or arithmetic that overflows.
pub data Result {ℓ} (A : Type ℓ) : Type ℓ where
  ok : A → Result A
  err : ForensisError → Result A
  panic : Result A

infixl 5 ◌>>=◌ ◌>>◌
unfoldable pub ◌>>=◌ {ℓ κ} : {V : Type ℓ} {W : Type κ} → Result V → (V → Result W) → Result W
ok value >>= next = next value
err error >>= next = err error
panic >>= next = panic

unfoldable pub ◌>>◌ {ℓ} : {W : Type ℓ} → Result (Unit {0}) → Result W → Result W
unfolding ◌>>=◌
check >> rest = check >>= λ _. rest

-- `if condition { return Err(error); }`
unfoldable pub fail_if : Bool → ForensisError → Result (Unit {0})
fail_if true error = err error
fail_if false error = ok tt

-- `option.ok_or_else(|| error)?`
unfoldable pub ok_or {ℓ} : {A : Type ℓ} → Option A → ForensisError → Result A
ok_or none error = err error
ok_or (some value) error = ok value

-- A proof that unfolds `plumbing` computes with all of the above.
unfoldable pub plumbing : ForensisError
unfolding ◌>>=◌ ◌>>◌ fail_if ok_or
plumbing = io

-- The computation does not panic, and what it returns on success satisfies `P`.
pub record Holds {ℓ} {A : Type ℓ} (P : A → Type ℓ) (r : Result A) : Type ℓ where
  pub no_panic : r ≢ panic
  pub on_ok : (a : A) → r ≡ ok a → P a

subst_ok {ℓ} : {A : Type ℓ} (P : A → Type ℓ) (a b : A) → ok a ≡ ok b → P a → P b
subst_ok P a b e h = let d : a ≡ b = cc e in rw (← d) h

module _ {ℓ} {A : Type ℓ} {P : A → Type ℓ} where
  pub Holds-ok : (a : A) → P a → Holds P (ok a)
  Holds-ok a h = record { no_panic = λ e. cc e; on_ok = λ b e. subst_ok P a b e h }

  pub Holds-err : (e : ForensisError) → Holds P (err e)
  Holds-err e = record { no_panic = λ p. cc p; on_ok = λ b p. absurd (cc p) }

  pub Holds-if :
      (b : Bool) (m n : Result A)
      → (b ≡ true → Holds P m)
      → (b ≡ false → Holds P n)
      → Holds P (if b then m else n)
  Holds-if true m n hm hn = hm refl
  Holds-if false m n hm hn = hn refl

  pub Holds-fail_if :
      (b : Bool) (e : ForensisError) (k : Result A)
      → (b ≡ false → Holds P k)
      → Holds P (fail_if b e >> k)
  unfolding plumbing
  Holds-fail_if true e k h = Holds-err e
  Holds-fail_if false e k h = h refl

  pub Holds-weaken : {Q : A → Type ℓ} (r : Result A) → ((a : A) → Q a → P a) → Holds Q r → Holds P r
  Holds-weaken r f h = record { no_panic = h.no_panic; on_ok = λ a e. f a (h.on_ok a e) }

module _ {ℓ} {A B : Type ℓ} {P : B → Type ℓ} where
  pub Holds-bind :
      {Q : A → Type ℓ} (m : Result A) (f : A → Result B)
      → Holds Q m
      → ((a : A) → Q a → m ≡ ok a → Holds P (f a))
      → Holds P (m >>= f)
  unfolding plumbing
  Holds-bind (ok a) f hm hf = hf a (hm.on_ok a refl) refl
  Holds-bind (err e) f hm hf = Holds-err e
  Holds-bind panic f hm hf = absurd (hm.no_panic refl)

  pub Holds-ok_or :
      (o : Option A) (e : ForensisError) (f : A → Result B)
      → ((a : A) → o ≡ some a → Holds P (f a))
      → Holds P (ok_or o e >>= f)
  unfolding plumbing
  Holds-ok_or none e f h = Holds-err e
  Holds-ok_or (some a) e f h = h a refl

module _ {ℓ} {A : Type ℓ} {P : A → Type ℓ} where
  pub Holds-some :
      (o : Option A) (e : ForensisError) → ((a : A) → o ≡ some a → P a) → Holds P (ok_or o e)
  unfolding plumbing
  Holds-some none e h = Holds-err e
  Holds-some (some a) e h = Holds-ok a (h a refl)

pub ok_inj {ℓ} : {A : Type ℓ} {a b : A} → ok a ≡ ok b → a ≡ b
ok_inj e = cc e

-- Two computations that go on alike are equal.
pub >>=-cong {ℓ κ} :
    {A : Type ℓ} {B : Type κ} (m : Result A) (f g : A → Result B)
    → ((a : A) → f a ≡ g a)
    → (m >>= f) ≡ (m >>= g)
unfolding plumbing
>>=-cong (ok a) f g h = h a
>>=-cong (err error) f g h = refl
>>=-cong panic f g h = refl

-- Inversion of a successful computation.
module _ {ℓ κ} {A : Type ℓ} {B : Type κ} where
  pub >>=-eq-ok :
      (first : Result A) (next : A → Result B) {value : B}
      → (first >>= next) ≡ ok value
      → (a : A) × (first ≡ ok a) × (next a ≡ ok value)
  unfolding plumbing
  >>=-eq-ok (ok a) f h = (a, refl, h)
  >>=-eq-ok (err e) f h = absurd (cc h)
  >>=-eq-ok panic f h = absurd (cc h)

-- And after a check that passed, what follows succeeded.
pub >>-eq-ok {ℓ} : {B : Type ℓ} (m : Result Unit) (k : Result B) {b : B} → m >> k ≡ ok b → k ≡ ok b
unfolding ◌>>◌
>>-eq-ok m k h = let (_, _, e) = >>=-eq-ok m (λ _. k) h in e

pub fail_if-eq-ok {ℓ} :
    {B : Type ℓ} (test : Bool) (error : ForensisError) (rest : Result B) {value : B}
    → (fail_if test error >> rest) ≡ ok value
    → (test ≡ false) × (rest ≡ ok value)
unfolding plumbing
fail_if-eq-ok true error rest h = absurd (cc h)
fail_if-eq-ok false error rest h = (refl, h)
