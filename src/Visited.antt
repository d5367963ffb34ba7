-- ===== src/Visited.antt =====
-- Searches that note the keys they have visited, and end since there are only so many.
use forensis.Prelude.{
  Bool, Bool-cases, List, [], arith, false, if◌then◌else◌, inl, inr, length, refl, true, ℕ, ◌+◌,
  ◌<◌, ◌==◌, ◌||◌, ◌∷◌, ◌≡◌, ◌≤◌,
}

-- `visited.contains(&key)` of a vector of numbers.
abbrev pub contains : ℕ → List ℕ → Bool
contains key [] = false
contains key (visited ∷ others) = visited == key || contains key others

-- The keys that have not been visited.
pub unvisited : List ℕ → List ℕ → ℕ
unvisited visited [] = 0
unvisited visited (key ∷ keys) = (if contains key visited then 0 else 1) + unvisited visited keys

pub unvisited-nil : (keys : List ℕ) → unvisited [] keys ≡ length keys
unfolding unvisited
unvisited-nil [] = refl
unvisited-nil (key ∷ keys) = omega (arith, unvisited-nil keys)

unvisited-le :
    (current : ℕ) (visited keys : List ℕ)
    → unvisited (current ∷ visited) keys ≤ unvisited visited keys
unfolding unvisited
unvisited-le current visited [] = omega arith
unvisited-le current visited (key ∷ keys) = ground (arith, unvisited-le current visited keys)

-- A new key that is visited is one less to visit.
pub unvisited-lt :
    (current : ℕ) (visited keys : List ℕ)
    → contains current visited ≡ false
    → contains current keys ≡ true
    → unvisited (current ∷ visited) keys < unvisited visited keys
unfolding unvisited
unvisited-lt current visited [] new e = absurd (cc e)
unvisited-lt current visited (key ∷ keys) new e = elim (Bool-cases (key == current)) [
  | inl same ↦
      let at : key ≡ current = ground (arith, same) in
      let fresh : contains key visited ≡ false = rw at new in
      rw fresh (ground (arith, unvisited-le current visited keys, same))
  | inr other ↦
      ground (arith, unvisited-lt current visited keys new (ground (arith, e, other)), other)
]
