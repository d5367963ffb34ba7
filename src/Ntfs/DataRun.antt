-- ===== src/Ntfs/DataRun.antt =====
-- crates/forensis-core/src/filesystem/ntfs/data_run.rs: the run list of a non-resident attribute.
pub mod Encode
pub mod Extend
pub mod Step
pub mod RoundTrip
pub mod Sound
use Prim.Native.Nat.{bit_and, bit_or}
use forensis.Prelude.{
  List, Option, Result, [], checked_add, checked_mul, drop, err, fail_if, if◌then◌else◌,
  invalid_format, length, ltb, none, ok, ok_or, panic, some, suc, u64_mod, zero, ℕ, ◌%◌, ◌*◌, ◌-◌,
  ◌/◌, ◌==◌, ◌>>=◌, ◌>>◌, ◌^◌, ◌∷◌,
}
use forensis.Prelude.Int.{ℤ, pos, checked_add_i64, is_negative, to_i64}

-- `none` is a sparse run. The LCN is an `i64`, the count a `u64`.
pub record DataRun : Type 0 where
  pub lcn : Option ℤ
  pub cluster_count : ℕ

-- `for i in 0..n { value |= (data[offset + i] as u64) << (i * 8); }`, the list being what is left
-- of `data[offset..]` at round `i`. A shift by 64 or more overflows.
unfoldable pub or_bytes : ℕ → ℕ → List ℕ → ℕ → Result ℕ
or_bytes zero i bytes value = ok value
or_bytes (suc n) i [] value = panic
or_bytes (suc n) i (b ∷ bytes) value =
    let rest = or_bytes n (suc i) bytes (bit_or value (b * 2 ^ (i * 8) % 2 ^ 64)) in
    if ltb (i * 8) 64 then rest else panic

-- The two's-complement value of the lowest `lcn_bits` bits.
unfoldable pub sign_extend : ℕ → ℕ → ℤ
sign_extend lcn_bits lcn_delta_bits =
    if lcn_bits == 64
    then to_i64 lcn_delta_bits
    else if bit_and lcn_delta_bits (2 ^ (lcn_bits - 1)) == 0
    then to_i64 lcn_delta_bits
    else to_i64 (bit_or lcn_delta_bits ((2 ^ 64 - 1) * 2 ^ lcn_bits % 2 ^ 64))

-- The LCN part of a record: the run, the new `previous_lcn` and the bytes that follow.
unfoldable pub parse_lcn : ℕ → ℕ → List ℕ → ℤ → Result (DataRun × ℤ × List ℕ)
parse_lcn lcn_size cluster_count bytes previous_lcn = do
  lcn_bits ←
      ok_or (checked_mul u64_mod lcn_size 8) (invalid_format "Invalid NTFS data run LCN size")
  fail_if (ltb 64 lcn_bits) (invalid_format "Invalid NTFS data run LCN size")
  lcn_delta_bits ← or_bytes lcn_size 0 bytes 0
  lcn ←
      ok_or (checked_add_i64 previous_lcn (sign_extend lcn_bits lcn_delta_bits))
        (invalid_format "NTFS data run LCN overflow")
  fail_if (is_negative lcn) (invalid_format "Invalid negative NTFS LCN")
  ok (record { lcn = some lcn; cluster_count = cluster_count }, lcn, drop lcn_size bytes)

-- One record, its header read: `bytes` is `data[offset..]`. A slice is shorter than 2 ^ 63 bytes,
-- so that `offset + required` does not overflow.
unfoldable pub parse_run : ℕ → List ℕ → ℤ → Result (DataRun × ℤ × List ℕ)
parse_run header bytes previous_lcn = do
  let lcn_size = header / 16
  let cluster_count_size = header % 16
  fail_if (cluster_count_size == 0) (invalid_format "Invalid NTFS data run header")
  required ←
      ok_or (checked_add u64_mod cluster_count_size lcn_size)
        (invalid_format "Invalid NTFS data run size")
  fail_if (ltb (length bytes) required) (invalid_format "Truncated NTFS data run")
  cluster_count ← or_bytes cluster_count_size 0 bytes 0
  fail_if (cluster_count == 0) (invalid_format "Invalid NTFS data run cluster count")
  let after = drop cluster_count_size bytes
  if lcn_size == 0
      then ok (record { lcn = none; cluster_count = cluster_count }, previous_lcn, after)
      else parse_lcn lcn_size cluster_count after previous_lcn

-- The `while` loop. The end of the bytes before a zero header is an error; a round takes at least
-- the header, so the fuel `length bytes` is never used up.
unfoldable pub parse_runs : ℕ → List ℕ → ℤ → Result (List DataRun)
parse_runs fuel [] previous_lcn = err (invalid_format "NTFS data runlist is not terminated")
parse_runs zero (header ∷ bytes) previous_lcn = panic
parse_runs (suc fuel) (header ∷ bytes) previous_lcn =
    if header == 0
    then ok []
    else parse_run header bytes previous_lcn >>= λ (run, lcn, after).
        parse_runs fuel after lcn >>= λ runs. ok (run ∷ runs)

unfoldable pub parse : List ℕ → Result (List DataRun)
parse bytes = parse_runs (length bytes) bytes (pos 0)
