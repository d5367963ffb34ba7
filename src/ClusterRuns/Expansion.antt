-- ===== src/ClusterRuns/Expansion.antt =====
-- The runs of a chain, taken apart again, are its clusters.
use forensis.Prelude.{
  Bool-cases, List, Option, [], ap, arith, false, inl, inr, none, refl, some, sym, ℕ, ◌+◌, ◌<◌,
  ◌==◌, ◌∙◌, ◌∷◌, ◌≡◌,
}
use forensis.Forensic.Model.{
  ForensicPhysicalRegion, ForensicContentSegment, physical, sparse, inline,
}
use forensis.ClusterRuns.{
  region_for_run, cons_region, next_cluster, regions_loop, physical_location, run_segment,
  segments_loop, content_layout,
}

-- The regions that segments name.
abbrev pub regions_of : List ForensicContentSegment → List ForensicPhysicalRegion
regions_of [] = []
regions_of (segment ∷ segments) = elim segment.source [
  | physical region ↦ region ∷ regions_of segments
  | sparse ↦ regions_of segments
  | inline bytes ↦ regions_of segments
]

regions_of-run :
    (logical_cluster_start run_length : ℕ) (region : Option ForensicPhysicalRegion)
    (segments : List ForensicContentSegment)
    → regions_of (run_segment logical_cluster_start run_length region ∷ segments)
      ≡ cons_region region (regions_of segments)
unfolding run_segment
regions_of-run logical_cluster_start run_length none segments = refl
regions_of-run logical_cluster_start run_length (some region) segments = refl

module _ (sectors_per_cluster first_data_sector : ℕ) where
  loops-agree :
      (logical_cluster_start start run_length previous : ℕ) (chain : List ℕ)
      → regions_loop sectors_per_cluster first_data_sector (some (start, previous)) chain
        ≡ regions_of (
            segments_loop sectors_per_cluster first_data_sector logical_cluster_start start
              run_length previous chain)
  unfolding regions_loop segments_loop
  loops-agree logical_cluster_start start run_length previous [] = sym (
      regions_of-run logical_cluster_start run_length
        (region_for_run sectors_per_cluster first_data_sector start previous) [])
  loops-agree logical_cluster_start start run_length previous (cluster ∷ chain) =
      let region = region_for_run sectors_per_cluster first_data_sector start previous in
      elim (Bool-cases (cluster == next_cluster previous)) [
        | inl joined ↦
            rw joined (loops-agree logical_cluster_start start (run_length + 1) cluster chain)
        | inr split ↦ rw split (
            ap (cons_region region)
              (loops-agree (logical_cluster_start + run_length) cluster 1 cluster chain)
            ∙ sym (
                regions_of-run logical_cluster_start run_length region (
                  segments_loop sectors_per_cluster first_data_sector
                    (logical_cluster_start + run_length) cluster 1 cluster chain)))
      ]

  -- On a volume with clusters of some sectors and some bytes, the physical location of a chain has the
  -- regions of the segments of its logical content, in their order.
  pub physical_location-content_layout :
      (bytes_per_cluster : ℕ) (chain : List ℕ)
      → 0 < sectors_per_cluster
      → 0 < bytes_per_cluster
      → (physical_location sectors_per_cluster first_data_sector chain).regions
        ≡ regions_of
            (content_layout sectors_per_cluster first_data_sector bytes_per_cluster chain).segments
  unfolding physical_location content_layout regions_loop
  physical_location-content_layout bytes_per_cluster [] s b =
      let clusters : (sectors_per_cluster == 0) ≡ false = ground arith in rw clusters refl
  physical_location-content_layout bytes_per_cluster (cluster ∷ chain) s b =
      let clusters : (sectors_per_cluster == 0) ≡ false = ground arith in
      let bytes : (bytes_per_cluster == 0) ≡ false = ground arith in
      rw (clusters, bytes) (loops-agree 0 cluster 1 cluster chain)
