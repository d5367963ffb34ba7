-- ===== src/Prelude/Lists.antt =====
-- Lists measured and indexed by native numbers, under the library's names.
use Prim.Native.Nat.{ℕ, zero, suc, ◌+◌, ◌-◌, ◌≤◌, ◌<◌, min}
use mathlib.Core.Logic.{◌≢◌, ◌⊎◌, inl, inr}
use mathlib.Core.Path.{◌≡◌, refl, ap, ◌∙◌}
use mathlib.Core.List.{List, [], ◌∷◌, ◌++◌, append-nil}
use mathlib.Core.Option.{Option, none, some}
use native.Mathlib.Omega.{arith}

module _ {ℓ} {A : Type ℓ} where
  abbrev pub length : List A → ℕ
  length [] = 0
  length (x ∷ xs) = suc (length xs)

  abbrev pub get_elem? : List A → ℕ → Option A
  get_elem? [] i = none
  get_elem? (x ∷ xs) zero = some x
  get_elem? (x ∷ xs) (suc i) = get_elem? xs i

  -- A write out of bounds changes nothing.
  abbrev pub set : List A → ℕ → A → List A
  set [] i v = []
  set (x ∷ xs) zero v = v ∷ xs
  set (x ∷ xs) (suc i) v = x ∷ set xs i v

  abbrev pub get_or : List A → ℕ → A → A
  get_or [] i d = d
  get_or (x ∷ xs) zero d = x
  get_or (x ∷ xs) (suc i) d = get_or xs i d

  abbrev pub take : ℕ → List A → List A
  take zero xs = []
  take (suc n) [] = []
  take (suc n) (x ∷ xs) = x ∷ take n xs

  abbrev pub drop : ℕ → List A → List A
  drop zero xs = xs
  drop (suc n) [] = []
  drop (suc n) (x ∷ xs) = drop n xs

  abbrev pub replicate : ℕ → A → List A
  replicate zero a = []
  replicate (suc n) a = a ∷ replicate n a

  abbrev pub All {κ} : (A → Type κ) → List A → Type κ
  All P [] = Unit {κ}
  All P (x ∷ xs) = P x × All P xs

zero_add : (b : ℕ) → zero + b ≡ b
zero_add b = omega arith

suc_add : (a b : ℕ) → suc a + b ≡ suc (a + b)
suc_add a b = omega arith

module _ {ℓ} {A : Type ℓ} where
  pub length-append : (xs ys : List A) → length (xs ++ ys) ≡ length xs + length ys
  length-append [] ys = omega arith
  length-append (x ∷ xs) ys = omega (arith, length-append xs ys)

  pub length-take : (n : ℕ) (xs : List A) → length (take n xs) ≡ min n (length xs)
  length-take zero xs = omega arith
  length-take (suc n) [] = omega arith
  length-take (suc n) (x ∷ xs) = omega (arith, length-take n xs)

  pub length-drop : (n : ℕ) (xs : List A) → length (drop n xs) ≡ length xs - n
  length-drop zero xs = omega arith
  length-drop (suc n) [] = omega arith
  length-drop (suc n) (x ∷ xs) = omega (arith, length-drop n xs)

  pub length-replicate : (n : ℕ) (a : A) → length (replicate n a) ≡ n
  length-replicate zero a = refl
  length-replicate (suc n) a = ap suc (length-replicate n a)

  pub length-set : (xs : List A) (i : ℕ) (v : A) → length (set xs i v) ≡ length xs
  length-set [] i v = refl
  length-set (x ∷ xs) zero v = refl
  length-set (x ∷ xs) (suc i) v = ap suc (length-set xs i v)

  pub take-all : (n : ℕ) (xs : List A) → length xs ≤ n → take n xs ≡ xs
  take-all zero [] h = refl
  take-all zero (x ∷ xs) h = absurd (omega arith)
  take-all (suc n) [] h = refl
  take-all (suc n) (x ∷ xs) h = ap (λ l. x ∷ l) (take-all n xs (omega arith))

  -- A prefix of a concatenation: the first list, then what is left of the second.
  pub take-append :
      (n : ℕ) (xs ys : List A) → take n (xs ++ ys) ≡ take n xs ++ take (n - length xs) ys
  take-append zero xs ys = let e : zero - length xs ≡ zero = omega arith in rw e refl
  take-append (suc n) [] ys = let e : suc n - 0 ≡ suc n = omega arith in rw e refl
  take-append (suc n) (x ∷ xs) ys =
      let e : suc n - suc (length xs) ≡ n - length xs = omega arith in
      rw e (ap (λ l. x ∷ l) (take-append n xs ys))

  pub All-append {κ} : (P : A → Type κ) (xs ys : List A) → All P xs → All P ys → All P (xs ++ ys)
  All-append P [] ys h k = k
  All-append P (x ∷ xs) ys h k = (h.0, All-append P xs ys h.1 k)

  pub All-take {κ} : (P : A → Type κ) (n : ℕ) (xs : List A) → All P xs → All P (take n xs)
  All-take P zero xs h = tt
  All-take P (suc n) [] h = tt
  All-take P (suc n) (x ∷ xs) h = (h.0, All-take P n xs h.1)

  pub All-drop {κ} : (P : A → Type κ) (n : ℕ) (xs : List A) → All P xs → All P (drop n xs)
  All-drop P zero xs h = h
  All-drop P (suc n) [] h = tt
  All-drop P (suc n) (x ∷ xs) h = All-drop P n xs h.1

  pub All-replicate {κ} : (P : A → Type κ) (n : ℕ) (a : A) → P a → All P (replicate n a)
  All-replicate P zero a h = tt
  All-replicate P (suc n) a h = (h, All-replicate P n a h)

  take-nil : (n : ℕ) → take {A = A} n [] ≡ []
  take-nil zero = refl
  take-nil (suc n) = refl

  drop-nil : (n : ℕ) → drop {A = A} n [] ≡ []
  drop-nil zero = refl
  drop-nil (suc n) = refl

  -- Skipping twice, and indexing behind what was skipped.
  pub drop-add : (a b : ℕ) (xs : List A) → drop (a + b) xs ≡ drop b (drop a xs)
  drop-add zero b xs = rw (zero_add b) refl
  drop-add (suc a) b [] = rw (suc_add a b, drop-nil b) refl
  drop-add (suc a) b (x ∷ xs) = rw (suc_add a b) (drop-add a b xs)

  pub get_or-drop : (a b : ℕ) (xs : List A) (d : A) → get_or xs (a + b) d ≡ get_or (drop a xs) b d
  get_or-drop zero b xs d = rw (zero_add b) refl
  get_or-drop (suc a) b [] d = refl
  get_or-drop (suc a) b (x ∷ xs) d = rw (suc_add a b) (get_or-drop a b xs d)

  pub drop-append : (xs ys : List A) → drop (length xs) (xs ++ ys) ≡ ys
  drop-append [] ys = refl
  drop-append (x ∷ xs) ys = drop-append xs ys

  pub take_full : (n : ℕ) (xs ys : List A) → length xs ≡ n → take n (xs ++ ys) ≡ xs
  take_full n xs ys h =
      let e : n - length xs ≡ 0 = omega arith in
      take-append n xs ys ∙ rw (e, take-all n xs (omega arith)) (append-nil xs)

  take_prefix : (n : ℕ) (xs ys : List A) → take n (take n xs ++ ys) ≡ take n (xs ++ ys)
  take_prefix zero xs ys = refl
  take_prefix (suc n) [] ys = refl
  take_prefix (suc n) (x ∷ xs) ys = ap (λ l. x ∷ l) (take_prefix n xs ys)

  -- The cut of a concatenation, piece by piece.
  pub take_cut :
      (target : ℕ) (gathered piece rest : List A)
      → length gathered ≤ target
      → take target ((gathered ++ take (target - length gathered) piece) ++ rest)
        ≡ take target (gathered ++ (piece ++ rest))
  take_cut target [] piece rest h =
      let e : target - 0 ≡ target = omega arith in rw e (take_prefix target piece rest)
  take_cut zero (g ∷ gathered) piece rest h = refl
  take_cut (suc target) (g ∷ gathered) piece rest h =
      let e : suc target - suc (length gathered) ≡ target - length gathered = omega arith in
      rw e (ap (λ l. g ∷ l) (take_cut target gathered piece rest (omega arith)))

  -- A cut at the shorter of a length and what is there.
  pub take-min : (n : ℕ) (xs : List A) → take (min n (length xs)) xs ≡ take n xs
  take-min zero xs = let e : min zero (length xs) ≡ 0 = omega arith in rw e refl
  take-min (suc n) [] = let e : min (suc n) 0 ≡ 0 = omega arith in rw e refl
  take-min (suc n) (x ∷ xs) =
      let e : min (suc n) (suc (length xs)) ≡ suc (min n (length xs)) = omega arith in
      rw e (ap (λ l. x ∷ l) (take-min n xs))

  -- A write is read back at its place, and nowhere else.
  pub get_or-set :
      (xs : List A) (i j : ℕ) (v d : A)
      → i < length xs
      → ((j ≡ i) × (get_or (set xs i v) j d ≡ v))
        ⊎ ((j ≢ i) × (get_or (set xs i v) j d ≡ get_or xs j d))
  get_or-set [] i j v d h = absurd (omega arith)
  get_or-set (x ∷ xs) zero zero v d h = inl (refl, refl)
  get_or-set (x ∷ xs) zero (suc j) v d h = inr (λ e. omega (arith, e), refl)
  get_or-set (x ∷ xs) (suc i) zero v d h = inr (λ e. omega (arith, e), refl)
  get_or-set (x ∷ xs) (suc i) (suc j) v d h = elim (get_or-set xs i j v d (omega arith)) [
    | inl (e, r) ↦ inl (ap suc e, r)
    | inr (n, r) ↦ inr (λ e. n (omega (arith, e)), r)
  ]

  pub All-set {κ} :
      (P : A → Type κ) (xs : List A) (i : ℕ) (v : A) → All P xs → P v → All P (set xs i v)
  All-set P [] i v h p = tt
  All-set P (x ∷ xs) zero v h p = (p, h.1)
  All-set P (x ∷ xs) (suc i) v h p = (h.0, All-set P xs i v h.1 p)

  pub drop-take : (o n : ℕ) (xs : List A) → drop o (take n xs) ≡ take (n - o) (drop o xs)
  drop-take zero n xs = let e : n - zero ≡ n = omega arith in rw e refl
  drop-take (suc o) zero xs = let e : zero - suc o ≡ 0 = omega arith in rw e refl
  drop-take (suc o) (suc n) [] = rw (take-nil (suc n - suc o)) refl
  drop-take (suc o) (suc n) (x ∷ xs) =
      let e : suc n - suc o ≡ n - o = omega arith in rw e (drop-take o n xs)

  pub take-take : (m n : ℕ) (xs : List A) → take m (take n xs) ≡ take (min m n) xs
  take-take zero n xs = let e : min zero n ≡ 0 = omega arith in rw e refl
  take-take (suc m) zero xs = let e : min (suc m) zero ≡ 0 = omega arith in rw e refl
  take-take (suc m) (suc n) [] = rw (take-nil (min (suc m) (suc n))) refl
  take-take (suc m) (suc n) (x ∷ xs) =
      let e : min (suc m) (suc n) ≡ suc (min m n) = omega arith in
      rw e (ap (λ l. x ∷ l) (take-take m n xs))
