-- ===== src/Ntfs/DataRun/Step.antt =====
-- One record of a run list, read back from its encoding.
use forensis.Prelude.{
  List, ap, arith, false, length, length-append, ltb, none, ok, plumbing, refl, some, true, u64_mod,
  ℕ, ◌%◌, ◌*◌, ◌++◌, ◌+◌, ◌/◌, ◌<◌, ◌^◌, ◌∙◌, ◌≡◌, ◌≤◌,
}
use forensis.Prelude.Int.{ℤ, pos}
use forensis.Bytes.{to_le_bytes}
use forensis.Bytes.Laws.{
  take-to_le_bytes, drop-to_le_bytes, le-to_le_bytes, length-to_le_bytes, to_le_bytes-AreBytes,
  pow_pos,
}
use forensis.Ntfs.DataRun.{or_bytes, parse_lcn, parse_run}
use forensis.Ntfs.DataRun.Encode.{CountFits, DeltaFits, delta}
use forensis.Ntfs.DataRun.Extend.{or_bytes-le, add_delta}

-- A field of at most eight bytes.
pub or_bytes-to_le_bytes :
    (n v : ℕ) (rest : List ℕ)
    → n ≤ 8
    → v < 256 ^ n
    → or_bytes n 0 (to_le_bytes n v ++ rest) 0 ≡ ok v
or_bytes-to_le_bytes n v rest h f =
    or_bytes-le n 0 (to_le_bytes n v ++ rest) 0 (omega arith)
      (omega (arith, length-append (to_le_bytes n v) rest, length-to_le_bytes n v))
      (rw take-to_le_bytes (to_le_bytes-AreBytes n v)) (omega arith)
    ∙ ap ok (omega (arith, le-to_le_bytes n v rest f))

fields_length : (n v : ℕ) (rest : List ℕ) → length (to_le_bytes n v ++ rest) ≡ n + length rest
fields_length n v rest = omega (arith, length-append (to_le_bytes n v) rest, length-to_le_bytes n v)

pub parse_run-sparse :
    (n count : ℕ) (rest : List ℕ) (previous : ℤ)
    → CountFits n count
    → parse_run n (to_le_bytes n count ++ rest) previous
      ≡ ok (record { lcn = none; cluster_count = count }, previous, rest)
unfolding parse_run plumbing
parse_run-sparse n count rest previous f =
    let low : n % 16 ≡ n = omega arith in
    let high : n / 16 ≡ 0 = omega arith in
    rw (low, high)
      (ground (
        arith,
        fields_length n count rest,
        or_bytes-to_le_bytes n count rest (omega arith) (omega arith),
        drop-to_le_bytes n count rest,
      ))

parse_lcn-delta :
    (count k previous lcn : ℕ) (rest : List ℕ)
    → previous < 2 ^ 63
    → DeltaFits k previous lcn
    → parse_lcn k count (to_le_bytes k (delta k previous lcn) ++ rest) (pos previous)
      ≡ ok (record { lcn = some (pos lcn); cluster_count = count }, pos lcn, rest)
unfolding parse_lcn plumbing
parse_lcn-delta count k previous lcn rest h d =
    let wide : ltb (k * 8) u64_mod ≡ true = ground arith in
    let fits : ltb 64 (k * 8) ≡ false = ground arith in
    let bytes : or_bytes k 0 (to_le_bytes k (delta k previous lcn) ++ rest) 0
        ≡ ok (delta k previous lcn) =
      or_bytes-to_le_bytes k (delta k previous lcn) rest (omega arith) (omega (arith, pow_pos k)) in
    let small : ltb lcn (2 ^ 63) ≡ true = ground arith in
    rw (wide, fits, bytes, add_delta k previous lcn h d, small, drop-to_le_bytes) refl

pub parse_run-physical :
    (n count k previous lcn : ℕ) (rest : List ℕ)
    → CountFits n count
    → previous < 2 ^ 63
    → DeltaFits k previous lcn
    → parse_run
        (k * 16 + n)
        (to_le_bytes n count ++ (to_le_bytes k (delta k previous lcn) ++ rest))
        (pos previous)
      ≡ ok (record { lcn = some (pos lcn); cluster_count = count }, pos lcn, rest)
unfolding parse_run plumbing
parse_run-physical n count k previous lcn rest f h d =
    let low : (k * 16 + n) % 16 ≡ n = omega arith in
    let high : (k * 16 + n) / 16 ≡ k = omega arith in
    let after = to_le_bytes k (delta k previous lcn) ++ rest in
    rw (low, high)
      (ground (
        arith,
        fields_length n count after,
        fields_length k (delta k previous lcn) rest,
        or_bytes-to_le_bytes n count after (omega arith) (omega arith),
        drop-to_le_bytes n count after,
        parse_lcn-delta count k previous lcn rest h d,
      ))
