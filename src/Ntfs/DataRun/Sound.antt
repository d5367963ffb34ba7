-- ===== src/Ntfs/DataRun/Sound.antt =====
-- What the parser of run lists accepts, and when it panics.
use Prim.Native.Nat.{bit_or}
use native.Mathlib.Nat.{pow-le-pow_right}
use forensis.Prelude.{
  All, All-drop, All-take, Holds, Holds-bind, Holds-err, Holds-fail_if, Holds-if, Holds-ok,
  Holds-ok_or, Holds-weaken, IsByte, List, Option, [], arith, checked_mul, drop, false,
  if◌then◌else◌, length, length-drop, ltb, none, panic, plumbing, refl, some, suc, take, u64_mod,
  zero, ℕ, ◌%◌, ◌*◌, ◌+◌, ◌-◌, ◌/◌, ◌<◌, ◌==◌, ◌^◌, ◌∷◌, ◌≡◌, ◌≤◌,
}
use forensis.Prelude.Int.{ℤ, pos, negsuc, fits_i64, is_negative, ◌+ℤ◌, checked_add_i64}
use forensis.Bytes.{AreBytes}
use forensis.Bytes.Laws.{le-lt}
use forensis.Ntfs.DataRun.{DataRun, or_bytes, sign_extend, parse_lcn, parse_run, parse_runs, parse}
use forensis.Ntfs.DataRun.Extend.{or_bytes-le}

-- A non-negative `i64`.
abbrev pub IsLcn : ℤ → Type 0
IsLcn (pos n) = n < 2 ^ 63
IsLcn (negsuc n) = ⊥

abbrev IsLcn? : Option ℤ → Type 0
IsLcn? none = Unit
IsLcn? (some z) = IsLcn z

abbrev pub IsRun : DataRun → Type 0
IsRun r = IsLcn? r.lcn × (0 < r.cluster_count) × (r.cluster_count < 2 ^ 64)

-- No byte has a low half above 8: as a header it gives the count at most eight bytes.
abbrev pub AreNarrow : List ℕ → Type 0
AreNarrow = All (λ b. (b < 256) × (b % 16 ≤ 8))

AreNarrow-AreBytes : (bytes : List ℕ) → AreNarrow bytes → AreBytes bytes
AreNarrow-AreBytes [] h = tt
AreNarrow-AreBytes (b ∷ bytes) h = (h.0.0, AreNarrow-AreBytes bytes h.1)

abbrev IsStep : List ℕ → DataRun × ℤ × List ℕ → Type 0
IsStep bytes t = IsRun t.0 × IsLcn t.1 × AreNarrow t.2 × (length t.2 ≤ length bytes)

or_bytes-Holds :
    (n : ℕ) (bytes : List ℕ)
    → n ≤ 8
    → n ≤ length bytes
    → AreNarrow bytes
    → Holds (λ v. v < 2 ^ 64) (or_bytes n 0 bytes 0)
or_bytes-Holds n bytes h l b =
    let a : AreBytes (take n bytes) = All-take IsByte n bytes (AreNarrow-AreBytes bytes b) in
    rw (or_bytes-le n 0 bytes 0 (omega arith) l a (omega arith)) (
      Holds-ok _ (
        omega (
          arith,
          le-lt n bytes (AreNarrow-AreBytes bytes b),
          pow-le-pow_right {n = 256} (omega arith) h,
        )))

checked_pos : (z : ℤ) (n : ℕ) → (if fits_i64 z then some z else none) ≡ some (pos n) → n < 2 ^ 63
checked_pos (pos m) n e = ground arith
checked_pos (negsuc m) n e = ground arith

at_most_eight : (n bits : ℕ) → checked_mul u64_mod n 8 ≡ some bits → ltb 64 bits ≡ false → n ≤ 8
at_most_eight n bits e h = ground arith

IsLcn-checked : (a b c : ℤ) → checked_add_i64 a b ≡ some c → is_negative c ≡ false → IsLcn c
IsLcn-checked a b (pos n) e h = checked_pos (a +ℤ b) n e
IsLcn-checked a b (negsuc n) e h = absurd (cc h)

parse_lcn-Holds :
    (n count : ℕ) (bytes : List ℕ) (previous : ℤ)
    → 0 < count
    → count < 2 ^ 64
    → n ≤ length bytes
    → AreNarrow bytes
    → Holds (IsStep bytes) (parse_lcn n count bytes previous)
unfolding parse_lcn
parse_lcn-Holds n count bytes previous p c l b = Holds-ok_or _ _ _ λ bits e.
    Holds-fail_if _ _ _ λ narrow.
      Holds-bind _ _ (or_bytes-Holds n bytes (at_most_eight n bits e narrow) l b) λ delta d _.
        Holds-ok_or _ _ _ λ lcn s. Holds-fail_if _ _ _ λ positive. Holds-ok _ (
          (IsLcn-checked previous (sign_extend bits delta) lcn s positive, p, c),
          IsLcn-checked previous (sign_extend bits delta) lcn s positive,
          All-drop _ n bytes b,
          omega (arith, length-drop n bytes),
        )

parse_run-Holds :
    (header : ℕ) (bytes : List ℕ) (previous : ℤ)
    → header % 16 ≤ 8
    → IsLcn previous
    → AreNarrow bytes
    → Holds (IsStep bytes) (parse_run header bytes previous)
unfolding parse_run
parse_run-Holds header bytes previous h q b = Holds-fail_if _ _ _ λ some_count.
    Holds-ok_or _ _ _ λ required r. Holds-fail_if _ _ _ λ room.
      let fits : header % 16 + header / 16 ≤ length bytes = ground arith in
      Holds-bind _ _ (or_bytes-Holds (header % 16) bytes h (omega arith) b) λ count c _.
        Holds-fail_if _ _ _ λ positive.
          let after = drop (header % 16) bytes in
          let p : 0 < count = ground arith in
          let b' : AreNarrow after = All-drop _ (header % 16) bytes b in
          let l : length after ≡ length bytes - header % 16 = length-drop (header % 16) bytes in
          Holds-if (header / 16 == 0) _ _ (λ _. Holds-ok _ ((tt, p, c), q, b', omega arith))
            (λ _.
              Holds-weaken _ (λ t s. (s.0, s.1, s.2, omega arith))
                (parse_lcn-Holds (header / 16) count after previous p c (omega arith) b'))

parse_runs-Holds :
    (fuel : ℕ) (bytes : List ℕ) (previous : ℤ)
    → length bytes ≤ fuel
    → IsLcn previous
    → AreNarrow bytes
    → Holds (All IsRun) (parse_runs fuel bytes previous)
unfolding parse_runs
parse_runs-Holds fuel [] previous l q b = Holds-err _
parse_runs-Holds zero (header ∷ bytes) previous l q b = absurd (omega arith)
parse_runs-Holds (suc fuel) (header ∷ bytes) previous l q b =
    Holds-if (header == 0) _ _ (λ _. Holds-ok _ tt)
      λ _. Holds-bind _ _ (parse_run-Holds header bytes previous b.0.1 q b.1) λ t s _.
        Holds-bind _ _ (parse_runs-Holds fuel t.2 t.1 (omega arith) s.1 s.2)
          λ runs all _. Holds-ok _ (s.0, all)

-- Where no byte gives a count more than eight bytes, the parser does not panic, and every run that
-- it returns has a non-negative LCN below 2 ^ 63, or none, and a positive count below 2 ^ 64.
pub parse-Holds : (bytes : List ℕ) → AreNarrow bytes → Holds (All IsRun) (parse bytes)
unfolding parse
parse-Holds bytes b = parse_runs-Holds (length bytes) bytes (pos 0) (omega arith) (omega arith) b

-- The ninth round of the loop shifts by 64.
or_bytes_panic :
    (n i : ℕ) (bytes : List ℕ) (value : ℕ) → 8 < n + i → i ≤ 8 → or_bytes n i bytes value ≡ panic
unfolding or_bytes
or_bytes_panic zero i bytes value h l = absurd (omega arith)
or_bytes_panic (suc n) i [] value h l = refl
or_bytes_panic (suc n) i (b ∷ bytes) value h l =
    ground (
      arith,
      or_bytes_panic n (suc i) bytes (bit_or value (b * 2 ^ (i * 8) % 2 ^ 64)) (omega arith),
    )

-- A first header that announces nine to fifteen bytes of count, all of them present, makes the
-- parser panic where overflow is checked.
pub parse_wide_count :
    (header : ℕ) (bytes : List ℕ)
    → header < 256
    → 8 < header % 16
    → header % 16 + header / 16 ≤ length bytes
    → parse (header ∷ bytes) ≡ panic
unfolding parse parse_runs parse_run plumbing
parse_wide_count header bytes h w l =
    ground (arith, or_bytes_panic (header % 16) 0 bytes 0 (omega arith) (omega arith))
