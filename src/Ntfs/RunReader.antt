-- ===== src/Ntfs/RunReader.antt =====
-- crates/forensis-core/src/filesystem/ntfs/data_run_reader.rs: the bytes that data runs describe.
pub mod Content
pub mod Safety
use forensis.Prelude.{
  List, Option, Result, [], add, checked_mul, fail_if, if◌then◌else◌, invalid_format, leb, length,
  ltb, min, mul, none, not, ok, ok_or, replicate, some, take, u64_mod, ℕ, ◌++◌, ◌-◌, ◌==◌, ◌>>=◌,
  ◌>>◌, ◌∷◌,
}
use forensis.Prelude.Int.{ℤ, is_negative, to_u64}
use forensis.Source.{Readable}
use forensis.Ntfs.DataRun.{DataRun}
use forensis.Ntfs.DataAttribute.{DataAttribute}

pub record DataRunReader : Type 0 where
  pub partition_offset : ℕ
  pub bytes_per_cluster : ℕ

-- `self.partition_offset + lcn as u64 * self.bytes_per_cluster`, in plain arithmetic.
unfoldable pub lcn_offset : DataRunReader → ℤ → Result ℕ
lcn_offset runs lcn = do
  relative ← mul u64_mod (to_u64 lcn) runs.bytes_per_cluster
  add u64_mod runs.partition_offset relative

-- The `match` on the LCN of a run whose size in bytes is known.
unfoldable pub read_lcn : DataRunReader → Readable → ℕ → Option ℤ → Result (List ℕ)
read_lcn runs reader size none = ok (replicate size 0)
read_lcn runs reader size (some lcn) = do
  fail_if (is_negative lcn) (invalid_format "Invalid negative NTFS LCN")
  offset ← lcn_offset runs lcn
  reader.read_at offset size

unfoldable pub read_run : DataRunReader → Readable → DataRun → Result (List ℕ)
read_run runs reader run = do
  size ←
      ok_or (checked_mul u64_mod run.cluster_count runs.bytes_per_cluster)
        (invalid_format "Data run size overflow")
  read_lcn runs reader size run.lcn

-- The `for` loop of `read_runs`, the bytes gathered so far being `result`.
unfoldable pub runs_loop : DataRunReader → Readable → ℕ → List DataRun → List ℕ → Result (List ℕ)
runs_loop runs reader real_size [] result = ok result
runs_loop runs reader real_size (run ∷ rest) result =
    if leb real_size (length result)
    then ok result
    else (read_run runs reader run >>= λ bytes.
        let remaining = real_size - length result in
        let bytes_to_copy = min remaining (length bytes) in
        runs_loop runs reader real_size rest (result ++ take bytes_to_copy bytes))

unfoldable pub read_runs : DataRunReader → Readable → List DataRun → ℕ → Result (List ℕ)
read_runs runs reader listed real_size =
    let gathered = (do
      result ← runs_loop runs reader real_size listed []
      fail_if (ltb (length result) real_size)
          (invalid_format "Data runs do not contain enough data for file size")
      ok result) in
    if real_size == 0 then ok [] else gathered

-- `attribute.resident_data.clone().unwrap_or_default()`
abbrev resident_or_empty : Option (List ℕ) → List ℕ
resident_or_empty none = []
resident_or_empty (some bytes) = bytes

unfoldable pub read_attribute : DataRunReader → Readable → DataAttribute → Result (List ℕ)
read_attribute runs reader attribute =
    if not attribute.non_resident
    then ok (resident_or_empty attribute.resident_data)
    else read_runs runs reader attribute.data_runs attribute.real_size
