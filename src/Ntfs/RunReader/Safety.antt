-- ===== src/Ntfs/RunReader/Safety.antt =====
-- Where reading runs does not panic, and where it does.
use forensis.Prelude.{
  All, All-append, All-replicate, All-take, Bool-cases, Holds, Holds-add, Holds-bind, Holds-fail_if,
  Holds-if, Holds-mul, Holds-ok, Holds-ok_or, Holds-weaken, IsByte, List, Option, [], arith, inl,
  inr, leb, length, length-append, length-take, ltb, lt→ltb, min, none, panic, plumbing, refl, some,
  take, u64_mod, ℕ, ◌*◌, ◌++◌, ◌+◌, ◌-◌, ◌<◌, ◌==◌, ◌^◌, ◌↔◌, ◌∷◌, ◌≡◌, ◌≤◌, ◌⊎◌,
}
use forensis.Prelude.Int.{ℤ, pos, negsuc}
use forensis.Bytes.{AreBytes}
use forensis.Source.{Readable, FillsBuffer, IsTotal}
use forensis.Ntfs.DataRun.{DataRun}
use forensis.Ntfs.RunReader.{DataRunReader, lcn_offset, read_lcn, read_run, runs_loop, read_runs}

-- The first byte of the run has a 64-bit offset.
abbrev pub IsReachable : DataRunReader → Option ℤ → Type 0
IsReachable runs none = Unit
IsReachable runs (some (pos n)) = runs.partition_offset + n * runs.bytes_per_cluster < 2 ^ 64
IsReachable runs (some (negsuc n)) = Unit

lcn_offset-Holds :
    (runs : DataRunReader) (n : ℕ)
    → runs.partition_offset + n * runs.bytes_per_cluster < 2 ^ 64
    → Holds (λ _. Unit {0}) (lcn_offset runs (pos n))
unfolding lcn_offset
lcn_offset-Holds runs n r =
    Holds-bind _ _ (Holds-mul u64_mod n runs.bytes_per_cluster (omega arith)) λ relative e _.
      Holds-weaken _ (λ v _. tt)
        (Holds-add u64_mod runs.partition_offset relative (omega (arith, e)))

module _ (runs : DataRunReader) (reader : Readable) (t : IsTotal reader) where
  read_lcn-Holds :
      (size : ℕ) (lcn : Option ℤ)
      → IsReachable runs lcn
      → Holds AreBytes (read_lcn runs reader size lcn)
  unfolding read_lcn
  read_lcn-Holds size none r = Holds-ok _ (All-replicate IsByte size 0 (omega arith))
  read_lcn-Holds size (some (pos n)) r = Holds-fail_if _ _ _ λ _.
      Holds-bind _ _ (lcn_offset-Holds runs n r)
        λ offset _ _. Holds-weaken _ (λ bytes f. f.0) (t.fills offset size)
  read_lcn-Holds size (some (negsuc n)) r = Holds-fail_if _ _ _ λ h. absurd (cc h)

  runs_loop-Holds :
      (real_size : ℕ) (listed : List DataRun) (result : List ℕ)
      → All (λ (run : DataRun). IsReachable runs run.lcn) listed
      → AreBytes result × (length result ≤ real_size)
      → Holds
          (λ bytes. AreBytes bytes × (length bytes ≤ real_size))
          (runs_loop runs reader real_size listed result)
  unfolding runs_loop read_run
  runs_loop-Holds real_size [] result r h = Holds-ok _ h
  runs_loop-Holds real_size (run ∷ rest) result r h =
      Holds-if (leb real_size (length result)) _ _ (λ _. Holds-ok _ h)
        λ short.
          Holds-bind _ _ (Holds-ok_or _ _ _ λ size _. read_lcn-Holds size run.lcn r.0) λ bytes b _.
            let part = take (min (real_size - length result) (length bytes)) bytes in
            runs_loop-Holds real_size rest (result ++ part) r.1 (
              All-append IsByte result part h.0
                  (All-take IsByte (min (real_size - length result) (length bytes)) bytes b),
              omega (
                arith,
                h.1,
                length-append result part,
                length-take (min (real_size - length result) (length bytes)) bytes,
              ),
            )

-- From evidence that every read returns from or fails on, and runs whose first bytes have 64-bit
-- offsets, a read of the runs fails or returns exactly as many bytes as the file has.
pub read_runs-Holds :
    (runs : DataRunReader) (reader : Readable) (listed : List DataRun) (real_size : ℕ)
    → IsTotal reader
    → All (λ (run : DataRun). IsReachable runs run.lcn) listed
    → Holds (FillsBuffer real_size) (read_runs runs reader listed real_size)
unfolding read_runs
read_runs-Holds runs reader listed real_size t r =
    Holds-if (real_size == 0) _ _ (λ e. Holds-ok _ (tt, ground arith))
      λ _.
        Holds-bind _ _ (runs_loop-Holds runs reader t real_size listed [] r (tt, omega arith))
          λ bytes h _. Holds-fail_if _ _ _ λ enough. Holds-ok _ (h.0, ground (arith, h.1))

-- The first byte of the run has no 64-bit offset.
abbrev pub IsFar : DataRunReader → Option ℤ → Type 0
IsFar runs none = ¬ Unit {0}
IsFar runs (some (pos n)) = 2 ^ 64 ≤ runs.partition_offset + n * runs.bytes_per_cluster
IsFar runs (some (negsuc n)) = ¬ Unit {0}

lcn_offset-panic :
    (runs : DataRunReader) (n : ℕ)
    → 2 ^ 64 ≤ runs.partition_offset + n * runs.bytes_per_cluster
    → lcn_offset runs (pos n) ≡ panic
unfolding lcn_offset plumbing
lcn_offset-panic runs n far = ground arith

near_or_IsFar : (runs : DataRunReader) (lcn : Option ℤ) → IsReachable runs lcn ⊎ IsFar runs lcn
near_or_IsFar runs none = inl tt
near_or_IsFar runs (some (pos n)) =
    elim (Bool-cases (ltb (runs.partition_offset + n * runs.bytes_per_cluster) (2 ^ 64))) [
      | inl near ↦ inl (ground (arith, near))
      | inr far ↦ inr (ground (arith, far))
    ]
near_or_IsFar runs (some (negsuc n)) = inl tt

read_lcn-panic :
    (runs : DataRunReader) (reader : Readable) (size : ℕ) (lcn : Option ℤ)
    → IsFar runs lcn
    → read_lcn runs reader size lcn ≡ panic
unfolding read_lcn plumbing
read_lcn-panic runs reader size none far = absurd (far tt)
read_lcn-panic runs reader size (some (pos n)) far = rw (lcn_offset-panic runs n far) refl
read_lcn-panic runs reader size (some (negsuc n)) far = absurd (far tt)

-- A size out of range is an error.
panic-sized :
    (runs : DataRunReader) (reader : Readable) (run : DataRun)
    → read_run runs reader run ≡ panic
    → run.cluster_count * runs.bytes_per_cluster < 2 ^ 64
unfolding read_run plumbing
panic-sized runs reader run e =
    elim (Bool-cases (ltb (run.cluster_count * runs.bytes_per_cluster) (2 ^ 64))) [
      | inl small ↦ ground (arith, small)
      | inr large ↦ absurd (cc (rw large at e))
    ]

-- From evidence that every read returns from or fails on, reading a run panics, where overflow is
-- checked, exactly if its size in bytes is in range and its first byte has no 64-bit offset. Any other
-- run is read or refused with an error, those whose size is out of range, holes and negative clusters
-- included.
pub read_run_panics :
    (runs : DataRunReader) (reader : Readable) (run : DataRun)
    → IsTotal reader
    → (read_run runs reader run ≡ panic)
      ↔ ((run.cluster_count * runs.bytes_per_cluster < 2 ^ 64) × IsFar runs run.lcn)
unfolding read_run
read_run_panics runs reader run t = (
  λ e. elim (near_or_IsFar runs run.lcn) [
    | inl near ↦ absurd (
        (Holds-ok_or {P = AreBytes} _ _ _
            (λ size _. read_lcn-Holds runs reader t size run.lcn near)).no_panic
          e)
    | inr far ↦ (panic-sized runs reader run e, far)
  ],
  λ (small, far).
      unfold plumbing in rw (lt→ltb _ _ small) (read_lcn-panic runs reader _ run.lcn far),
)
