-- ===== src/Ntfs/DataRun/RoundTrip.antt =====
-- Parsing a run list gives back the runs that were encoded.
use mathlib.Core.List.{append_assoc}
use forensis.Prelude.{
  List, [], arith, false, length, length-append, map, ok, plumbing, refl, suc, zero, ℕ, ◌*◌, ◌++◌,
  ◌+◌, ◌<◌, ◌==◌, ◌^◌, ◌∷◌, ◌≡◌,
}
use forensis.Prelude.Int.{ℤ, pos}
use forensis.Bytes.{to_le_bytes}
use forensis.Ntfs.DataRun.{DataRun, parse_run, parse_runs, parse}
use forensis.Ntfs.DataRun.Encode.{Extent, sparse, physical, encode, Fits, to_run, delta}
use forensis.Ntfs.DataRun.Step.{parse_run-sparse, parse_run-physical}

longer : (b : ℕ) (xs ys rest : List ℕ) → length (ys ++ rest) < length ((b ∷ (xs ++ ys)) ++ rest)
longer b xs ys rest =
    omega (arith, length-append ys rest, length-append (xs ++ ys) rest, length-append xs ys)

length-encode :
    (previous : ℕ) (extents : List Extent) (rest : List ℕ)
    → length extents < length (encode previous extents ++ rest)
unfolding encode
length-encode p [] rest = omega arith
length-encode p (sparse n c ∷ es) rest =
    omega (arith, length-encode p es rest, longer n (to_le_bytes n c) (encode p es) rest)
length-encode p (physical n c k l ∷ es) rest = omega (
  arith,
  length-encode l es rest,
  longer (k * 16 + n) (to_le_bytes n c) (to_le_bytes k (delta k p l) ++ encode l es) rest,
  longer 0 (to_le_bytes k (delta k p l)) (encode l es) rest,
)

-- One round of the loop on a record that is read.
round :
    (fuel header : ℕ) (bytes after : List ℕ) (previous lcn : ℤ) (run : DataRun)
    (runs : List DataRun)
    → (header == 0) ≡ false
    → parse_run header bytes previous ≡ ok (run, lcn, after)
    → parse_runs fuel after lcn ≡ ok runs
    → parse_runs (suc fuel) (header ∷ bytes) previous ≡ ok (run ∷ runs)
unfolding parse_runs plumbing
round fuel header bytes after previous lcn run runs z step ih = rw (z, step, ih)

parse_runs-encode :
    (fuel previous : ℕ) (extents : List Extent) (rest : List ℕ)
    → previous < 2 ^ 63
    → Fits previous extents
    → length extents < fuel
    → parse_runs fuel (encode previous extents ++ rest) (pos previous) ≡ ok (map to_run extents)
unfolding encode
parse_runs-encode zero p es rest h f l = absurd (omega arith)
parse_runs-encode (suc fuel) p [] rest h f l = unfold parse_runs in refl
parse_runs-encode (suc fuel) p (sparse n c ∷ es) rest h f l = rw append_assoc (
    round fuel n _ _ _ _ _ _ (ground arith) (parse_run-sparse n c (encode p es ++ rest) (pos p) f.0)
      (parse_runs-encode fuel p es rest h f.1 (omega arith)))
parse_runs-encode (suc fuel) p (physical n c k m ∷ es) rest h f l = simp append_assoc (
    round fuel (k * 16 + n) _ _ _ _ _ _ (ground arith)
      (parse_run-physical n c k p m (encode m es ++ rest) f.0 h f.1)
      (parse_runs-encode fuel m es rest (omega arith) f.2 (omega arith)))

-- A run list whose extents fit the sizes they are written with is, encoded and whatever follows it,
-- parsed into the runs that it encodes.
pub parse-encode :
    (extents : List Extent) (rest : List ℕ)
    → Fits 0 extents
    → parse (encode 0 extents ++ rest) ≡ ok (map to_run extents)
unfolding parse
parse-encode es rest f = parse_runs-encode _ 0 es rest (omega arith) f (length-encode 0 es rest)
