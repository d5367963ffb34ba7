-- ===== src/ClusterRuns/Clusters.antt =====
-- A chain's logical content, cluster by cluster.
use native.Mathlib.Nat.{mul-le-mul}
use mathlib.Core.List.{append_assoc}
use forensis.Prelude.{
  All, Bool-cases, List, Option, [], ap, arith, false, inl, inr, map, none, refl, replicate, some,
  suc, zero, ℕ, ◌*◌, ◌++◌, ◌+◌, ◌-◌, ◌<◌, ◌==◌, ◌^◌, ◌∙◌, ◌∷◌, ◌≡◌, ◌≤◌,
}
use forensis.Forensic.Model.{ForensicContentSegment, physical, sparse, inline}
use forensis.ClusterRuns.{region_for_run, next_cluster, run_segment, segments_loop, content_layout}

-- Where so many clusters start, from a sector on.
abbrev spread : ℕ → ℕ → ℕ → List (Option ℕ)
spread sectors_per_cluster zero sector = []
spread sectors_per_cluster (suc n) sector =
    some sector ∷ spread sectors_per_cluster n (sector + sectors_per_cluster)

abbrev spread_from : ℕ → ℕ → Option ℕ → List (Option ℕ)
spread_from sectors_per_cluster n none = replicate n none
spread_from sectors_per_cluster n (some sector) = spread sectors_per_cluster n sector

-- The first sector of each logical cluster, `none` where no sector holds it.
abbrev pub cluster_starts : ℕ → List ForensicContentSegment → List (Option ℕ)
cluster_starts sectors_per_cluster [] = []
cluster_starts sectors_per_cluster (segment ∷ segments) = elim segment.source [
  | physical region ↦
      spread_from sectors_per_cluster segment.cluster_count region.sector_start
      ++ cluster_starts sectors_per_cluster segments
  | sparse ↦ replicate segment.cluster_count none ++ cluster_starts sectors_per_cluster segments
  | inline bytes ↦
      replicate segment.cluster_count none ++ cluster_starts sectors_per_cluster segments
]

-- A number of a cluster of data.
abbrev pub IsCluster : ℕ → Type 0
IsCluster cluster = (2 ≤ cluster) × (cluster < 2 ^ 32)

spread_snoc :
    (spc n sector : ℕ)
    → spread spc (suc n) sector ≡ spread spc n sector ++ (some (sector + n * spc) ∷ [])
spread_snoc spc zero sector = ap (λ (s : ℕ). some s ∷ []) (omega arith)
spread_snoc spc (suc n) sector =
    let moved : sector + spc + n * spc ≡ sector + suc n * spc = grind arith in
    ap (λ rest. some sector ∷ rest)
      (spread_snoc spc n (sector + spc)
        ∙ ap (λ (s : ℕ). spread spc n (sector + spc) ++ (some s ∷ [])) moved)

module _ (spc first : ℕ) (positive : 0 < spc) (narrow : spc ≤ 2 ^ 28) (front : first ≤ 2 ^ 40) where
  -- The first sector of a cluster.
  abbrev pub start_of : ℕ → ℕ
  start_of cluster = first + (cluster - 2) * spc

  far : (cluster : ℕ) → cluster < 2 ^ 32 → (cluster - 2) * spc ≤ 2 ^ 60
  far cluster h =
      let low : cluster - 2 ≤ 2 ^ 32 = omega arith in
      let product : (cluster - 2) * spc ≤ 2 ^ 32 * 2 ^ 28 = mul-le-mul low narrow in omega arith

  region_of :
      (start end : ℕ)
      → 2 ≤ start
      → start ≤ end
      → end < 2 ^ 32
      → region_for_run spc first start end
        ≡ some (record {
          cluster_start = some start;
          cluster_end = some end;
          sector_start = some (start_of start);
          sector_end = some (start_of end + (spc - 1));
          offset = none;
        })
  unfolding region_for_run
  region_of start end low order high = ground (arith, far start (omega arith), far end high)

  starts-run :
      (logical start n previous : ℕ) (segments : List ForensicContentSegment)
      → 2 ≤ start
      → start ≤ previous
      → previous < 2 ^ 32
      → cluster_starts spc
          (run_segment logical n (region_for_run spc first start previous) ∷ segments)
        ≡ spread spc n (start_of start) ++ cluster_starts spc segments
  unfolding run_segment
  starts-run logical start n previous segments low order high =
      rw (region_of start previous low order high) refl

  -- A cluster behind a run of n makes it a run of n + 1.
  run_grows :
      (start n cluster : ℕ)
      → 2 ≤ start
      → cluster ≡ start + n
      → spread spc (suc n) (start_of start)
        ≡ spread spc n (start_of start) ++ (some (start_of cluster) ∷ [])
  run_grows start n cluster low e =
      let at : start_of start + n * spc ≡ start_of cluster =
        rw e
          (let shift : start + n - 2 ≡ (start - 2) + n = omega arith in rw shift (grind arith)) in
      spread_snoc spc n (start_of start)
      ∙ ap (λ (s : ℕ). spread spc n (start_of start) ++ (some s ∷ [])) at

  starts-loop :
      (logical start n previous : ℕ) (chain : List ℕ)
      → 2 ≤ start
      → start + n ≡ previous + 1
      → 1 ≤ n
      → previous < 2 ^ 32
      → All IsCluster chain
      → cluster_starts spc (segments_loop spc first logical start n previous chain)
        ≡ spread spc n (start_of start) ++ map (λ cluster. some (start_of cluster)) chain
  unfolding segments_loop
  starts-loop logical start n previous [] low e some_clusters high c =
      starts-run logical start n previous [] low (omega arith) high
  starts-loop logical start n previous (cluster ∷ chain) low e some_clusters high c =
      elim (Bool-cases (cluster == next_cluster previous)) [
        | inl joined ↦
            let follows : cluster ≡ start + n = ground (arith, c.0) in
            let grown : n + 1 ≡ suc n = omega arith in
            rw joined (
              starts-loop logical start (n + 1) cluster chain low (omega arith) (omega arith) c.0.1
                c.1
              ∙ ap (λ l. l ++ map (λ k. some (start_of k)) chain)
                  (ap (λ k. spread spc k (start_of start)) grown
                    ∙ run_grows start n cluster low follows)
              ∙ append_assoc (spread spc n (start_of start)) (some (start_of cluster) ∷ [])
                  (map (λ k. some (start_of k)) chain))
        | inr split ↦ rw split (
            starts-run logical start n previous
              (segments_loop spc first (logical + n) cluster 1 cluster chain) low (omega arith) high
            ∙ ap (λ l. spread spc n (start_of start) ++ l)
                (starts-loop (logical + n) cluster 1 cluster chain c.0.0 (omega arith) (omega arith)
                  c.0.1 c.1))
      ]

  -- The logical content of a chain of clusters of data, on a volume with clusters of 1 to 2 ^ 28 sectors
  -- whose data begins at sector 2 ^ 40 or before, has the clusters of the chain in their order, each at
  -- its own sectors, however they were gathered into runs, and none is sparse.
  pub content_layout-cluster_starts :
      (bytes_per_cluster : ℕ) (chain : List ℕ)
      → 0 < bytes_per_cluster
      → All IsCluster chain
      → cluster_starts spc (content_layout spc first bytes_per_cluster chain).segments
        ≡ map (λ cluster. some (first + (cluster - 2) * spc)) chain
  unfolding content_layout
  content_layout-cluster_starts bytes_per_cluster [] b c = refl
  content_layout-cluster_starts bytes_per_cluster (cluster ∷ chain) b c =
      let bytes : (bytes_per_cluster == 0) ≡ false = ground arith in
      rw bytes (starts-loop 0 cluster 1 cluster chain c.0.0 (omega arith) (omega arith) c.0.1 c.1)
