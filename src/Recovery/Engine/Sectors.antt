-- ===== src/Recovery/Engine/Sectors.antt =====
-- Reading a region that is given by its sectors.
use forensis.Prelude.{arith, none, ok, plumbing, some, ℕ, ◌*◌, ◌+◌, ◌-◌, ◌<◌, ◌^◌, ◌≡◌, ◌≤◌}
use forensis.Source.{Readable}
use forensis.Forensic.Model.{ForensicPhysicalRegion, sector_count, range_count}
use forensis.Recovery.Engine.{
  PhysicalRecoveryEngine, region_size, region_offset, sector_offset, read_region,
}

abbrev pub sectors : ℕ → ℕ → ℕ → ℕ → ForensicPhysicalRegion
sectors lcn clusters start count = record {
  cluster_start = some lcn;
  cluster_end = some (lcn + (clusters - 1));
  sector_start = some start;
  sector_end = some (start + (count - 1));
  offset = none;
}

module _ (engine : PhysicalRecoveryEngine) (reader : Readable)
    (sized : engine.bytes_per_sector ≡ 512) (small : reader.size < 2 ^ 64) where
  sectors-size :
      (lcn clusters start count : ℕ)
      → 0 < count
      → engine.partition_offset + start * 512 + count * 512 ≤ reader.size
      → region_size engine (sectors lcn clusters start count) ≡ ok (some (count * 512))
  unfolding region_size sector_count range_count plumbing
  sectors-size lcn clusters start count some_size inside = rw sized (ground arith)

  sectors-offset :
      (lcn clusters start count : ℕ)
      → engine.partition_offset + start * 512 ≤ reader.size
      → region_offset engine (sectors lcn clusters start count)
        ≡ some (engine.partition_offset + start * 512)
  unfolding region_offset sector_offset
  sectors-offset lcn clusters start count inside = rw sized (ground arith)

  pub read_sectors :
      (lcn clusters start count : ℕ)
      → 0 < count
      → engine.partition_offset + start * 512 + count * 512 ≤ reader.size
      → read_region engine reader (sectors lcn clusters start count) (count * 512)
        ≡ reader.read_at (engine.partition_offset + start * 512) (count * 512)
  unfolding read_region plumbing
  read_sectors lcn clusters start count some_size inside =
      rw
        (
          sectors-offset lcn clusters start count (omega arith),
          sectors-size lcn clusters start count some_size inside,
        )
        (ground arith)
