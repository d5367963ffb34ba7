-- ===== src/Ntfs/DataRun/Extend.antt =====
-- The loops over the bytes of a field, and the sign extension, in plain arithmetic.
use Prim.Native.Nat.{bit_or}
use native.Mathlib.Nat.{pow-suc, mod-eq_of_lt, one-le-pow}
use forensis.Prelude.{
  Bool-cases, List, [], ap, arith, false, if◌then◌else◌, inl, inr, length, ltb, ltb→ge, ltb→lt,
  lt→ltb, ok, refl, suc, take, zero, ℕ, ◌%◌, ◌*◌, ◌+◌, ◌-◌, ◌<◌, ◌==◌, ◌^◌, ◌∙◌, ◌∷◌, ◌≡◌, ◌≤◌,
}
use forensis.Prelude.Int.{pos, ◌+ℤ◌, to_i64}
use forensis.Prelude.Bits.{bit_or_disjoint, bit_and_low, bit_and_high}
use forensis.Bytes.{AreBytes, le}
use forensis.Ntfs.DataRun.{or_bytes, sign_extend}
use forensis.Ntfs.DataRun.Encode.{DeltaFits, delta}

pow_eight : (i : ℕ) → 2 ^ (suc i * 8) ≡ 256 * 2 ^ (i * 8)
pow_eight i =
    let e : suc i * 8 ≡ suc (suc (suc (suc (suc (suc (suc (suc (i * 8)))))))) = omega arith in
    rw e (simp pow-suc (omega arith))

-- A byte shifted to its place loses no bit.
byte_fits : (i b : ℕ) → i ≤ 7 → b < 256 → b * 2 ^ (i * 8) < 2 ^ 64
byte_fits zero b h k = omega arith
byte_fits (suc zero) b h k = omega arith
byte_fits (suc (suc zero)) b h k = omega arith
byte_fits (suc (suc (suc zero))) b h k = omega arith
byte_fits (suc (suc (suc (suc zero)))) b h k = omega arith
byte_fits (suc (suc (suc (suc (suc zero))))) b h k = omega arith
byte_fits (suc (suc (suc (suc (suc (suc zero)))))) b h k = omega arith
byte_fits (suc (suc (suc (suc (suc (suc (suc zero))))))) b h k = omega arith
byte_fits (suc (suc (suc (suc (suc (suc (suc (suc i)))))))) b h k = absurd (omega arith)

scale : (b p : ℕ) → b < 256 → b * p + p ≤ 256 * p
scale b p h = grind arith

-- One round, as an addition.
join :
    (i b value : ℕ)
    → i ≤ 7
    → b < 256
    → value < 2 ^ (i * 8)
    → bit_or value (b * 2 ^ (i * 8) % 2 ^ 64) ≡ value + b * 2 ^ (i * 8)
join i b value h k v = rw (mod-eq_of_lt (byte_fits i b h k)) (bit_or_disjoint (i * 8) value b v)

-- Below 64 bits the loop adds up the little-endian value.
pub or_bytes-le :
    (n i : ℕ) (bytes : List ℕ) (value : ℕ)
    → n + i ≤ 8
    → n ≤ length bytes
    → AreBytes (take n bytes)
    → value < 2 ^ (i * 8)
    → or_bytes n i bytes value ≡ ok (value + le n bytes * 2 ^ (i * 8))
unfolding or_bytes
or_bytes-le zero i bytes value h l b v = ap ok (omega arith)
or_bytes-le (suc n) i [] value h l b v = absurd (omega arith)
or_bytes-le (suc n) i (b ∷ bytes) value h l bs v =
    rw (lt→ltb (i * 8) 64 (omega arith), join i b value (omega arith) bs.0 v)
      (or_bytes-le n (suc i) bytes _ (omega arith) (omega arith) bs.1
          (rw pow_eight (omega (arith, scale b (2 ^ (i * 8)) bs.0)))
        ∙ ap ok (omega (arith, ap (λ (t : ℕ). le n bytes * t) (pow_eight i))))

-- The sign bit is bit m, and `c` is the mask above it, shifted down.
extend_case :
    (m c v : ℕ)
    → m < 63
    → (2 ^ 64 - 1) * 2 ^ suc m % 2 ^ 64 ≡ c * 2 ^ suc m
    → v < 2 ^ suc m
    → sign_extend (suc m) v ≡ (if ltb v (2 ^ m) then to_i64 v else to_i64 (v + c * 2 ^ suc m))
unfolding sign_extend
extend_case m c v h e l = elim (Bool-cases (ltb v (2 ^ m))) [
  | inl low ↦ rw (low, e0, e1, bit_and_low m v (ltb→lt _ _ low))
  | inr high ↦
      rw (high, e0, e1, bit_and_high m v (ltb→ge _ _ high) l, e2, e, bit_or_disjoint (suc m) v c l)
]
  where
    e0 : (suc m == 64) ≡ false
    e0 = ground arith

    e1 : suc m - 1 ≡ m
    e1 = omega arith

    e2 : (2 ^ m == 0) ≡ false
    e2 = let p : 1 ≤ 2 ^ m = one-le-pow m 2 (omega arith) in ground arith

-- The difference that an encoder writes in k bytes brings the previous LCN to the next.
pub add_delta :
    (k previous lcn : ℕ)
    → previous < 2 ^ 63
    → DeltaFits k previous lcn
    → pos previous +ℤ sign_extend (k * 8) (delta k previous lcn) ≡ pos lcn
add_delta zero p n h f = absurd (omega arith)
add_delta (suc zero) p n h f =
    rw (extend_case 7 (2 ^ 56 - 1) (delta 1 p n) (omega arith) refl (omega arith)) (ground arith)
add_delta (suc (suc zero)) p n h f =
    rw (extend_case 15 (2 ^ 48 - 1) (delta 2 p n) (omega arith) refl (omega arith)) (ground arith)
add_delta (suc (suc (suc zero))) p n h f =
    rw (extend_case 23 (2 ^ 40 - 1) (delta 3 p n) (omega arith) refl (omega arith)) (ground arith)
add_delta (suc (suc (suc (suc zero)))) p n h f =
    rw (extend_case 31 (2 ^ 32 - 1) (delta 4 p n) (omega arith) refl (omega arith)) (ground arith)
add_delta (suc (suc (suc (suc (suc zero))))) p n h f =
    rw (extend_case 39 (2 ^ 24 - 1) (delta 5 p n) (omega arith) refl (omega arith)) (ground arith)
add_delta (suc (suc (suc (suc (suc (suc zero)))))) p n h f =
    rw (extend_case 47 (2 ^ 16 - 1) (delta 6 p n) (omega arith) refl (omega arith)) (ground arith)
add_delta (suc (suc (suc (suc (suc (suc (suc zero))))))) p n h f =
    rw (extend_case 55 (2 ^ 8 - 1) (delta 7 p n) (omega arith) refl (omega arith)) (ground arith)
add_delta (suc (suc (suc (suc (suc (suc (suc (suc zero)))))))) p n h f =
    unfold sign_extend in ground arith
add_delta (suc (suc (suc (suc (suc (suc (suc (suc (suc k))))))))) p n h f = absurd (omega arith)
