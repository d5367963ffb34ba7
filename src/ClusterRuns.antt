-- ===== src/ClusterRuns.antt =====
-- Chains of clusters as runs of sectors: the methods that the investigation entries of
-- crates/forensis-core/src/filesystem/exfat/investigation_entry.rs and fat32/investigation_entry.rs
-- have in the same words. Lengths of chains are taken to stay below 2 ^ 64.
pub mod Expansion
pub mod Clusters
use forensis.Prelude.{
  List, Option, [], checked_add, checked_mul, if◌then◌else◌, ltb, none, some, u32_mod, u64_mod, ℕ,
  ◌%◌, ◌+◌, ◌-◌, ◌==◌, ◌||◌, ◌∷◌,
}
use forensis.Forensic.Model.{
  ForensicPhysicalRegion, ForensicPhysicalLocation, ForensicContentLayout, ForensicContentSegment,
  physical, sparse,
}

-- `u32::wrapping_add(1)`
abbrev pub next_cluster : ℕ → ℕ
next_cluster cluster = (cluster + 1) % u32_mod

-- `Option::and_then`, and the `?` of a function into `Option`.
abbrev and_then {ℓ κ} : {A : Type ℓ} {B : Type κ} → Option A → (A → Option B) → Option B
and_then none f = none
and_then (some a) f = f a

-- `first_data_sector.checked_add(u64::from(cluster - 2).checked_mul(sectors_per_cluster)?)?`
abbrev pub cluster_sector : ℕ → ℕ → ℕ → Option ℕ
cluster_sector sectors_per_cluster first_data_sector cluster =
    and_then (checked_mul u64_mod (cluster - 2) sectors_per_cluster)
      (checked_add u64_mod first_data_sector)

unfoldable pub region_for_run : ℕ → ℕ → ℕ → ℕ → Option ForensicPhysicalRegion
region_for_run sectors_per_cluster first_data_sector start end =
    if ltb start 2 || ltb end start || sectors_per_cluster == 0
    then none
    else and_then (cluster_sector sectors_per_cluster first_data_sector start) λ sector_start.
      and_then (cluster_sector sectors_per_cluster first_data_sector end) λ last_sector.
        and_then (checked_add u64_mod last_sector (sectors_per_cluster - 1)) λ sector_end.
          some (record {
            cluster_start = some start;
            cluster_end = some end;
            sector_start = some sector_start;
            sector_end = some sector_end;
            offset = none;
          })

-- `if let Some(region) = … { location.add_region(region); }`
abbrev pub cons_region :
    Option ForensicPhysicalRegion → List ForensicPhysicalRegion → List ForensicPhysicalRegion
cons_region none regions = regions
cons_region (some region) regions = region ∷ regions

-- `ForensicContentSegment::physical` of a run that has a region, `::sparse` of another.
unfoldable pub run_segment : ℕ → ℕ → Option ForensicPhysicalRegion → ForensicContentSegment
run_segment logical_cluster_start run_length (some region) = record {
  logical_cluster_start = logical_cluster_start;
  cluster_count = run_length;
  source = physical region;
}
run_segment logical_cluster_start run_length none = record {
  logical_cluster_start = logical_cluster_start;
  cluster_count = run_length;
  source = sparse;
}

module _ (sectors_per_cluster first_data_sector : ℕ) where
  -- The loop of `physical_location`, with the run that is being gathered, and its end.
  unfoldable pub regions_loop : Option (ℕ × ℕ) → List ℕ → List ForensicPhysicalRegion
  regions_loop none [] = []
  regions_loop (some (start, end)) [] =
      cons_region (region_for_run sectors_per_cluster first_data_sector start end) []
  regions_loop none (cluster ∷ chain) = regions_loop (some (cluster, cluster)) chain
  regions_loop (some (start, previous)) (cluster ∷ chain) =
      let joined = regions_loop (some (start, cluster)) chain in
      let split = regions_loop (some (cluster, cluster)) chain in
      if cluster == next_cluster previous
      then joined
      else cons_region (region_for_run sectors_per_cluster first_data_sector start previous) split

  unfoldable pub physical_location : List ℕ → ForensicPhysicalLocation
  physical_location chain = record {
    regions = if sectors_per_cluster == 0 then [] else regions_loop none chain;
  }

  -- The loop of `content_layout` over the clusters behind the first, and the segment after it.
  unfoldable pub segments_loop : ℕ → ℕ → ℕ → ℕ → List ℕ → List ForensicContentSegment
  segments_loop logical_cluster_start run_start run_length previous [] =
      run_segment logical_cluster_start run_length
        (region_for_run sectors_per_cluster first_data_sector run_start previous)
      ∷ []
  segments_loop logical_cluster_start run_start run_length previous (cluster ∷ chain) =
      let joined = segments_loop logical_cluster_start run_start (run_length + 1) cluster chain in
      let split = segments_loop (logical_cluster_start + run_length) cluster 1 cluster chain in
      if cluster == next_cluster previous
      then joined
      else run_segment logical_cluster_start run_length
          (region_for_run sectors_per_cluster first_data_sector run_start previous)
        ∷ split

  unfoldable pub content_layout : ℕ → List ℕ → ForensicContentLayout
  content_layout bytes_per_cluster [] = record { bytes_per_cluster = 0; segments = [] }
  content_layout bytes_per_cluster (cluster ∷ chain) =
      if bytes_per_cluster == 0 then record { bytes_per_cluster = 0; segments = [] } else record {
        bytes_per_cluster = bytes_per_cluster;
        segments = segments_loop 0 cluster 1 cluster chain;
      }
