-- ===== src/Ntfs/InvestigationEntry/Recovery.antt =====
-- Recovery by the layout of an NTFS entry, and the reader of data runs.
use native.Mathlib.Nat.{mul_assoc, mul-pos}
use forensis.Prelude.{
  >>=-cong, >>=-eq-ok, All, Bool-cases, List, Option, String, [], add, ap, arith, checked_add,
  checked_mul, fail_if, fail_if-eq-ok, false, inl, inr, invalid_format, leb, length, length-append,
  length-take, ltb, none, ok, ok_inj, plumbing, refl, some, sym, take, take-min, u64_max, u64_mod,
  ℕ, ◌*◌, ◌++◌, ◌+◌, ◌-◌, ◌<◌, ◌==◌, ◌>>=◌, ◌>>◌, ◌^◌, ◌∙◌, ◌∷◌, ◌≡◌, ◌≢◌, ◌≤◌,
}
use forensis.Prelude.Int.{ℤ, pos, negsuc}
use forensis.Source.{Readable}
use forensis.Forensic.Model.{
  ForensicEntry, ForensicContentSegment, physical, byte_count, byte_count_of,
}
use forensis.Recovery.Engine.{
  PhysicalRecoveryEngine, segment_size, read_source, read_content_segment, layout_loop, recover,
  recovered_result,
}
use forensis.Recovery.Engine.Content.{truncate-ok, recover-layout}
use forensis.Recovery.Engine.Sectors.{sectors, read_sectors}
use forensis.Ntfs.DataRun.{DataRun}
use forensis.Ntfs.RunReader.{DataRunReader, lcn_offset, read_lcn, read_run, runs_loop, read_runs}
use forensis.Ntfs.InvestigationEntry.{
  InvestigationEntry, region_from, physical_region_for_run, run_segment, content_segments,
  cluster_count, content_layout, sized_layout, to_forensic_entry, sum_clusters,
}

-- All the clusters of a run lie in the evidence; those of a sparse run can be counted in bytes.
abbrev pub EndsInside : ℕ → ℕ → Readable → ℕ → Option ℤ → Type 0
EndsInside partition_offset bytes_per_cluster reader count none = count * bytes_per_cluster < 2 ^ 64
EndsInside partition_offset bytes_per_cluster reader count (some (pos lcn)) =
    partition_offset + lcn * bytes_per_cluster + count * bytes_per_cluster ≤ reader.size
EndsInside partition_offset bytes_per_cluster reader count (some (negsuc n)) = ⊥

abbrev pub IsInside : ℕ → ℕ → Readable → DataRun → Type 0
IsInside partition_offset bytes_per_cluster reader run =
    (0 < run.cluster_count)
    × EndsInside partition_offset bytes_per_cluster reader run.cluster_count run.lcn

module _ (partition_offset sectors_per_cluster : ℕ) (reader : Readable)
    (small : reader.size < 2 ^ 64) (clusters : 0 < sectors_per_cluster) where
  abbrev pub engine : PhysicalRecoveryEngine
  engine = record { partition_offset = partition_offset; bytes_per_sector = 512 }

  abbrev pub runs : DataRunReader
  runs = record {
    partition_offset = partition_offset;
    bytes_per_cluster = sectors_per_cluster * 512;
  }

  region_from-sectors :
      (lcn count : ℕ)
      → 0 < count
      → lcn * (sectors_per_cluster * 512) + count * (sectors_per_cluster * 512) < 2 ^ 64
      → region_from lcn count sectors_per_cluster
        ≡ some (sectors lcn count (lcn * sectors_per_cluster) (count * sectors_per_cluster))
  unfolding region_from
  region_from-sectors lcn count some_clusters inside =
      let a : lcn ≤ lcn * sectors_per_cluster = grind arith in
      let b : count ≤ count * sectors_per_cluster = grind arith in
      ground (arith, mul_assoc lcn sectors_per_cluster 512, mul_assoc count sectors_per_cluster 512)

  read_run-at :
      (lcn count : ℕ)
      → partition_offset + lcn * (sectors_per_cluster * 512) + count * (sectors_per_cluster * 512)
        ≤ reader.size
      → read_run runs reader (record { lcn = some (pos lcn); cluster_count = count })
        ≡ reader.read_at
            (partition_offset + lcn * (sectors_per_cluster * 512))
            (count * (sectors_per_cluster * 512))
  unfolding read_run read_lcn lcn_offset plumbing
  read_run-at lcn count inside = ground arith

  size_of :
      (segment : ForensicContentSegment)
      → segment.cluster_count * (sectors_per_cluster * 512) < 2 ^ 64
      → byte_count_of segment.source segment.cluster_count (sectors_per_cluster * 512)
        ≡ checked_mul u64_mod segment.cluster_count (sectors_per_cluster * 512)
      → segment_size segment (sectors_per_cluster * 512)
        ≡ ok (segment.cluster_count * (sectors_per_cluster * 512))
  unfolding segment_size byte_count plumbing
  size_of segment inside e = rw e (ground arith)

  read_physical :
      (lcn count start : ℕ)
      → 0 < count
      → partition_offset + lcn * (sectors_per_cluster * 512) + count * (sectors_per_cluster * 512)
        ≤ reader.size
      → read_content_segment engine reader (sectors_per_cluster * 512) (
          run_segment start count
            (physical_region_for_run (some (pos lcn)) count sectors_per_cluster))
        ≡ read_run runs reader (record { lcn = some (pos lcn); cluster_count = count })
  unfolding read_content_segment read_source run_segment physical_region_for_run byte_count_of
      plumbing
  read_physical lcn count start some_clusters inside =
      let wide : 0 < count * sectors_per_cluster = mul-pos some_clusters clusters in
      let at = mul_assoc lcn sectors_per_cluster 512 in
      let long = mul_assoc count sectors_per_cluster 512 in
      rw
        (
          region_from-sectors lcn count some_clusters (omega arith),
          read_run-at lcn count inside,
          size_of
              (record {
                logical_cluster_start = start;
                cluster_count = count;
                source =
                    physical
                      (sectors lcn count (lcn * sectors_per_cluster) (count * sectors_per_cluster));
              })
              (omega arith) refl,
          ← at,
          ← long,
        )
        (read_sectors engine reader refl small lcn count _ _ wide (omega (arith, at, long)))

  read_sparse :
      (count start : ℕ)
      → count * (sectors_per_cluster * 512) < 2 ^ 64
      → read_content_segment engine reader
          (sectors_per_cluster * 512)
          (run_segment start count none)
        ≡ read_run runs reader (record { lcn = none; cluster_count = count })
  unfolding read_content_segment read_source segment_size run_segment read_run read_lcn byte_count
      byte_count_of plumbing
  read_sparse count start inside = ground arith

  read_segment :
      (count : ℕ) (lcn : Option ℤ) (start : ℕ)
      → 0 < count
      → EndsInside partition_offset (sectors_per_cluster * 512) reader count lcn
      → read_content_segment engine reader
          (sectors_per_cluster * 512)
          (run_segment start count (physical_region_for_run lcn count sectors_per_cluster))
        ≡ read_run runs reader (record { lcn = lcn; cluster_count = count })
  unfolding physical_region_for_run
  read_segment count none start c h = read_sparse count start h
  read_segment count (some (pos lcn)) start c h = read_physical lcn count start c h
  read_segment count (some (negsuc n)) start c h = absurd h

  next_position :
      (start count next : ℕ)
      → add u64_mod start count ≡ ok next
      → checked_add u64_mod start count ≡ some next
  next_position start count next e = ground (arith, e)

  unlimited : (target : ℕ) → target ≢ u64_max → (target == u64_max) ≡ false
  unlimited target k = ground arith

  layout-found :
      (listed : List DataRun) (start total : ℕ)
      → All (IsInside partition_offset (sectors_per_cluster * 512) reader) listed
      → sum_clusters listed start ≡ ok total
      → (segments : List ForensicContentSegment) × (content_segments sectors_per_cluster listed
            start
          ≡ some segments)
        × (listed ≢ [] → segments ≢ [])
        × ((target : ℕ) (gathered : List ℕ)
            → target ≢ u64_max
            → length gathered ≤ target
            → layout_loop engine reader (sectors_per_cluster * 512) target segments gathered
              ≡ runs_loop runs reader target listed gathered)
  unfolding content_segments layout_loop runs_loop sum_clusters plumbing
  layout-found [] start total h e = ([], refl, (λ n. absurd (n refl)), λ target gathered _ _. refl)
  layout-found (run ∷ listed) start total h e =
      let (next, plus, e') = >>=-eq-ok (add u64_mod start run.cluster_count) _ e in
      let (segments, found, _, agree) = layout-found listed next total h.1 e' in
      let counted : (run.cluster_count == 0) ≡ false = ground (arith, h.0.0) in
      let one = read_segment run.cluster_count run.lcn start h.0.0 h.0.1 in
      (
        run_segment start run.cluster_count
              (physical_region_for_run run.lcn run.cluster_count sectors_per_cluster)
            ∷ segments,
        rw (counted, next_position start run.cluster_count next plus, found) refl,
        (λ _. λ empty. cc empty),
        λ target gathered k room. elim (Bool-cases (leb target (length gathered))) [
          | inl enough ↦ rw (unlimited target k, enough) refl
          | inr short ↦
              rw (unlimited target k, short, one)
                (>>=-cong (read_run runs reader run) _ _ λ bytes.
                  let missing = target - length gathered in
                  rw (truncate-ok target (length gathered) bytes k room, take-min missing bytes)
                    (agree target (gathered ++ take missing bytes) k (
                      omega (
                        arith,
                        length-append gathered (take missing bytes),
                        length-take missing bytes,
                      ))))
        ],
      )

-- Runs that give a file of a positive size.
read_runs-loop :
    (reading : DataRunReader) (reader : Readable) (listed : List DataRun) (real_size : ℕ)
    (bytes : List ℕ)
    → real_size ≢ 0
    → read_runs reading reader listed real_size ≡ ok bytes
    → (runs_loop reading reader real_size listed [] ≡ ok bytes)
      × (real_size ≤ length bytes)
      × (listed ≢ [])
unfolding read_runs runs_loop plumbing
read_runs-loop reading reader [] real_size bytes n e = absurd (ground (arith, n, e))
read_runs-loop reading reader (run ∷ listed) real_size bytes n e =
    let positive : (real_size == 0) ≡ false = ground (arith, n) in
    let gathered = runs_loop reading reader real_size (run ∷ listed) [] in
    let later = λ (result : List ℕ).
      (fail_if (ltb (length result) real_size)
          (invalid_format "Data runs do not contain enough data for file size")
        >> ok result) in
    let same : read_runs reading reader (run ∷ listed) real_size ≡ (gathered >>= later) =
      rw positive refl in
    let (result, loop, e') = >>=-eq-ok gathered later (sym same ∙ e) in
    let (enough, e2) = fail_if-eq-ok (ltb (length result) real_size) _ (ok result) e' in
    let found : result ≡ bytes = cc e2 in
    (loop ∙ ap ok found, rw (← found) (ground arith), λ empty. cc empty)

counted :
    (listed : List DataRun) (clusters : Option ℕ)
    → listed ≢ []
    → cluster_count listed ≡ ok clusters
    → (total : ℕ) × (sum_clusters listed 0 ≡ ok total)
unfolding cluster_count
counted [] clusters n e = absurd (n refl)
counted (run ∷ listed) clusters n e =
    let (total, sum, _) = >>=-eq-ok (sum_clusters (run ∷ listed) 0) _ e in (total, sum)

content_layout-runs :
    (entry : InvestigationEntry) (sectors_per_cluster : ℕ) (segments : List ForensicContentSegment)
    → 0 < sectors_per_cluster
    → sectors_per_cluster * 512 < 2 ^ 64
    → entry.resident_data ≡ none
    → content_segments sectors_per_cluster entry.data_runs 0 ≡ some segments
    → content_layout entry sectors_per_cluster
      ≡ record { bytes_per_cluster = sectors_per_cluster * 512; segments = segments }
unfolding content_layout sized_layout
content_layout-runs entry sectors_per_cluster segments c m r e =
    let positive : (sectors_per_cluster == 0) ≡ false = ground arith in
    let fits : checked_mul u64_mod sectors_per_cluster 512 ≡ some (sectors_per_cluster * 512) =
      ground arith in
    rw (positive, fits, r, e) refl

module _ {T : Type 0} (calculate_sha256 : List ℕ → String) where
  -- For a file whose runs lie in the evidence, on a volume with sectors of 512 bytes and clusters
  -- of a 64-bit size: where the entry is converted and the reader of data runs returns the file's
  -- bytes, recovery by the entry of the forensic model recovers the same bytes. The evidence has
  -- fewer than 2 ^ 64 bytes, the file is not empty, its content is not resident, and its size is
  -- not `u64::MAX`.
  pub recover-read_runs :
      (partition_offset sectors_per_cluster : ℕ) (reader : Readable) (entry : InvestigationEntry)
      (forensic : ForensicEntry T) (bytes : List ℕ)
      → reader.size < 2 ^ 64
      → 0 < sectors_per_cluster
      → sectors_per_cluster * 512 < 2 ^ 64
      → entry.resident_data ≡ none
      → entry.real_size ≢ 0
      → entry.real_size ≢ u64_max
      → All (IsInside partition_offset (sectors_per_cluster * 512) reader) entry.data_runs
      → to_forensic_entry entry sectors_per_cluster ≡ ok forensic
      → read_runs
          (record {
            partition_offset = partition_offset;
            bytes_per_cluster = sectors_per_cluster * 512;
          })
          reader
          entry.data_runs
          entry.real_size
        ≡ ok bytes
      → recover calculate_sha256
          (record { partition_offset = partition_offset; bytes_per_sector = 512 })
          reader
          forensic
        ≡ ok (recovered_result calculate_sha256 forensic bytes forensic.physical_location)
  unfolding to_forensic_entry
  recover-read_runs po spc reader entry forensic bytes small c m r z k inside e gathered =
      let (clusters, summed, e') = >>=-eq-ok (cluster_count entry.data_runs) _ e in
      let (loop, enough, some_runs) =
        read_runs-loop _ reader entry.data_runs entry.real_size bytes z gathered in
      let (total, sum) = counted entry.data_runs clusters some_runs summed in
      let (segments, found, some_segments, agree) =
        layout-found po spc reader small c entry.data_runs 0 total inside sum in
      let layout = content_layout-runs entry spc segments c m r found in
      let made = ok_inj e' in
      recover-layout calculate_sha256 _ reader forensic entry.real_size
        (record { bytes_per_cluster = spc * 512; segments = segments }) bytes
        (ap (λ (f : ForensicEntry T). f.metadata.real_size) (sym made))
        (ap (λ (f : ForensicEntry T). f.content_layout) (sym made) ∙ layout) z
        (some_segments some_runs) (agree entry.real_size [] k (omega arith) ∙ loop) enough
