-- ===== src/Fat32/Directory/Checksum.antt =====
-- The checksum in the slots of a long name.
use forensis.Prelude.{
  Bool, List, [], ap, arith, drop, drop-append, get_or, length, length-append, length-set, refl,
  set, suc, sym, take, take_full, zero, ℕ, ◌++◌, ◌<◌, ◌∙◌, ◌∷◌, ◌≡◌, ◌≤◌,
}
use forensis.Fat32.Directory.{attr_long_name, lfn_slot_units, slots_loop}

module _ {ℓ} {A : Type ℓ} where
  -- Taking, dropping and reading around a place that is set.
  take-set : (n i : ℕ) (v : A) (l : List A) → n ≤ i → take n (set l i v) ≡ take n l
  take-set zero i v l h = refl
  take-set (suc n) i v [] h = refl
  take-set (suc n) zero v (x ∷ l) h = absurd (omega arith)
  take-set (suc n) (suc i) v (x ∷ l) h = ap (λ r. x ∷ r) (take-set n i v l (omega arith))

  drop-set : (n i : ℕ) (v : A) (l : List A) → i < n → drop n (set l i v) ≡ drop n l
  drop-set zero i v l h = absurd (omega arith)
  drop-set (suc n) i v [] h = refl
  drop-set (suc n) zero v (x ∷ l) h = refl
  drop-set (suc n) (suc i) v (x ∷ l) h = drop-set n i v l (omega arith)

  get_or_before : (j i : ℕ) (v d : A) (l : List A) → j < i → get_or (set l i v) j d ≡ get_or l j d
  get_or_before j i v d [] h = refl
  get_or_before j zero v d (x ∷ l) h = absurd (omega arith)
  get_or_before zero (suc i) v d (x ∷ l) h = refl
  get_or_before (suc j) (suc i) v d (x ∷ l) h = get_or_before j i v d l (omega arith)

  drop_one-set : (i : ℕ) (v : A) (l : List A) → drop 1 (set l (suc i) v) ≡ set (drop 1 l) i v
  drop_one-set i v [] = refl
  drop_one-set i v (x ∷ l) = refl

drop_full : (slot rest : List ℕ) → length slot ≡ 32 → drop 32 (slot ++ rest) ≡ rest
drop_full slot rest l = ap (λ n. drop n (slot ++ rest)) (sym l) ∙ drop-append slot rest

units-set :
    (slot : List ℕ) (checksum : ℕ) → lfn_slot_units (set slot 13 checksum) ≡ lfn_slot_units slot
unfolding lfn_slot_units
units-set slot checksum =
    rw
      (
        drop_one-set 12 checksum slot,
        take-set 10 12 checksum (drop 1 slot) (omega arith),
        drop-set 14 13 checksum slot (omega arith),
        drop-set 28 13 checksum slot (omega arith),
      )
      refl

-- A slot of a long name adds the same to the entries whatever checksum it holds, so that nothing ties
-- it to the short entry behind it but the bytes of that entry.
pub slots_loop-set :
    (fuel : ℕ) (slot rest lfn_units : List ℕ) (lfn_has_pending : Bool) (checksum : ℕ)
    → length slot ≡ 32
    → get_or slot 0x0b 0 ≡ attr_long_name
    → slots_loop fuel (set slot 0x0d checksum ++ rest) lfn_units lfn_has_pending
      ≡ slots_loop fuel (slot ++ rest) lfn_units lfn_has_pending
unfolding slots_loop
slots_loop-set zero slot rest lfn_units lfn_has_pending checksum l a = refl
slots_loop-set (suc fuel) slot rest lfn_units lfn_has_pending checksum l a =
    let l' : length (set slot 0x0d checksum) ≡ 32 = length-set slot 0x0d checksum ∙ l in
    let a' : get_or (set slot 0x0d checksum) 0x0b 0 ≡ attr_long_name =
      get_or_before 0x0b 0x0d checksum 0 slot (omega arith) ∙ a in
    let lengths : length (set slot 0x0d checksum ++ rest) ≡ length (slot ++ rest) =
      omega (arith, l, l', length-append (set slot 0x0d checksum) rest, length-append slot rest) in
    rw
      (
        take_full 32 (set slot 0x0d checksum) rest l',
        take_full 32 slot rest l,
        drop_full (set slot 0x0d checksum) rest l',
        drop_full slot rest l,
        units-set slot checksum,
        get_or_before 0 0x0d checksum 0 slot (omega arith),
        a,
        a',
      )
      (rw lengths refl)
