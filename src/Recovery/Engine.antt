-- ===== src/Recovery/Engine.antt =====
-- crates/forensis-core/src/recovery/engine.rs and result.rs. `usize` has 64 bits, so that
-- `usize::try_from` of a `u64` succeeds; memory is taken to suffice for every buffer.
pub mod Bounds
pub mod Content
pub mod Sectors
use forensis.Prelude.{
  Bool, List, Option, Result, String, [], checked_add, checked_mul, checked_sub, fail_if, false,
  if◌then◌else◌, invalid_format, leb, length, ltb, min, none, not, ok, ok_or, replicate, some, take,
  true, u64_max, u64_mod, ℕ, ◌&&◌, ◌++◌, ◌==◌, ◌>>=◌, ◌>>◌, ◌∷◌,
}
use forensis.Source.{Readable}
use forensis.Forensic.Model.{
  ForensicEntry, ForensicPhysicalRegion, ForensicPhysicalLocation, ForensicContentSegment,
  ForensicContentSource, physical, sparse, inline, sector_count, byte_count,
}

pub record PhysicalRecoveryEngine : Type 0 where
  pub partition_offset : ℕ
  pub bytes_per_sector : ℕ

-- Why nothing was recovered: a fixed text, or one with the bytes found and the bytes required.
pub data Reason : Type 0 where
  message : String → Reason
  too_short : String → ℕ → ℕ → Reason

pub record RecoveryResult (T : Type 0) : Type 0 where
  pub entry : ForensicEntry T
  pub recovered : Bool
  pub content : Option (List ℕ)
  pub original_sha256 : Option String
  pub physical_location : ForensicPhysicalLocation
  pub reason : Option Reason

-- `Option::and_then`
abbrev and_then : Option ℕ → (ℕ → Option ℕ) → Option ℕ
and_then none f = none
and_then (some a) f = f a

unfoldable pub sector_offset : PhysicalRecoveryEngine → ℕ → Option ℕ
sector_offset engine sector =
    and_then (checked_mul u64_mod sector engine.bytes_per_sector)
      (λ relative. checked_add u64_mod engine.partition_offset relative)

unfoldable pub region_size : PhysicalRecoveryEngine → ForensicPhysicalRegion → Result (Option ℕ)
region_size engine region = do
  count ← sector_count region
  ok (and_then count (λ n. checked_mul u64_mod n engine.bytes_per_sector))

unfoldable pub region_offset : PhysicalRecoveryEngine → ForensicPhysicalRegion → Option ℕ
unfolding sector_offset
region_offset engine region = elim region.offset [
  | some offset ↦ some offset
  | none ↦ and_then region.sector_start (sector_offset engine)
]

unfoldable pub read_region :
    PhysicalRecoveryEngine → Readable → ForensicPhysicalRegion → ℕ → Result (List ℕ)
read_region engine reader region bytes_to_read = do
  offset ←
      ok_or (region_offset engine region)
        (invalid_format "Physical forensic region has no readable offset")
  found ← region_size engine region
  size ← ok_or found (invalid_format "Invalid physical forensic region size")
  fail_if (ltb size bytes_to_read)
      (invalid_format "Requested recovery size exceeds physical region")
  end ←
      ok_or (checked_add u64_mod offset bytes_to_read)
        (invalid_format "Physical recovery offset overflow")
  fail_if (ltb reader.size end) (invalid_format "Physical recovery region exceeds image size")
  if bytes_to_read == 0 then ok [] else reader.read_at offset bytes_to_read

-- The part that the physical and the sparse branch share: the size of the segment in bytes.
unfoldable pub segment_size : ForensicContentSegment → ℕ → Result ℕ
segment_size segment bytes_per_cluster = do
  fail_if (bytes_per_cluster == 0)
      (invalid_format "Logical content layout has invalid cluster size")
  ok_or (byte_count segment bytes_per_cluster)
      (invalid_format "Logical content segment size overflow")

unfoldable pub read_source :
    PhysicalRecoveryEngine
    → Readable
    → ℕ
    → ForensicContentSegment
    → ForensicContentSource
    → Result (List ℕ)
read_source engine reader bytes_per_cluster segment (inline bytes) = ok bytes
read_source engine reader bytes_per_cluster segment (physical region) = do
  size ← segment_size segment bytes_per_cluster
  read_region engine reader region size
read_source engine reader bytes_per_cluster segment sparse = do
  size ← segment_size segment bytes_per_cluster
  ok (replicate size 0)

unfoldable pub read_content_segment :
    PhysicalRecoveryEngine → Readable → ℕ → ForensicContentSegment → Result (List ℕ)
read_content_segment engine reader bytes_per_cluster segment =
    read_source engine reader bytes_per_cluster segment segment.source

-- `data.truncate(remaining)` where the target is known.
pub truncate : ℕ → ℕ → List ℕ → Result (List ℕ)
truncate target_size recovered bytes =
    if target_size == u64_max
    then ok bytes
    else ok_or (checked_sub target_size recovered)
        (invalid_format "Recovery size calculation overflow")
      >>= λ remaining. ok (if ltb remaining (length bytes) then take remaining bytes else bytes)

-- The `for` loop over the segments; `u64::MAX` is the target of an entry of unknown size.
unfoldable pub layout_loop :
    PhysicalRecoveryEngine
    → Readable
    → ℕ
    → ℕ
    → List ForensicContentSegment
    → List ℕ
    → Result (List ℕ)
layout_loop engine reader bytes_per_cluster target_size [] recovered = ok recovered
layout_loop engine reader bytes_per_cluster target_size (segment ∷ segments) recovered =
    if not (target_size == u64_max) && leb target_size (length recovered)
    then ok recovered
    else read_content_segment engine reader bytes_per_cluster segment >>= λ bytes.
        truncate target_size (length recovered) bytes >>= λ kept.
        layout_loop engine reader bytes_per_cluster target_size segments (recovered ++ kept)

abbrev pub target_of : Option ℕ → ℕ
target_of none = u64_max
target_of (some n) = n

module _ {T : Type 0} where
  unfoldable pub recover_logical_layout :
      PhysicalRecoveryEngine → Readable → ForensicEntry T → Result (List ℕ)
  recover_logical_layout engine reader entry =
      layout_loop engine reader entry.content_layout.bytes_per_cluster
        (target_of entry.metadata.real_size) entry.content_layout.segments []

-- The `for` loop over the regions of an entry without a layout.
pub regions_loop :
    PhysicalRecoveryEngine → Readable → ℕ → List ForensicPhysicalRegion → List ℕ → Result (List ℕ)
regions_loop engine reader target_size [] recovered = ok recovered
regions_loop engine reader target_size (region ∷ regions) recovered =
    if leb target_size (length recovered)
    then ok recovered
    else region_size engine region >>= λ found.
        ok_or found (invalid_format "Invalid physical forensic region size") >>= λ available.
        ok_or (checked_sub target_size (length recovered))
          (invalid_format "Recovery size calculation overflow")
        >>= λ remaining. read_region engine reader region (min available remaining) >>= λ bytes.
            regions_loop engine reader target_size regions (recovered ++ bytes)

-- `calculate_sha256` is the `sha2` crate's digest, printed in hexadecimal.
module _ {T : Type 0} (calculate_sha256 : List ℕ → String) where
  -- `RecoveryResult::recovered` and `RecoveryResult::failed`
  unfoldable pub recovered_result :
      ForensicEntry T → List ℕ → ForensicPhysicalLocation → RecoveryResult T
  recovered_result entry bytes location = record {
    entry = entry;
    recovered = true;
    content = some bytes;
    original_sha256 = some (calculate_sha256 bytes);
    physical_location = location;
    reason = none;
  }

  pub failed_result : ForensicEntry T → ForensicPhysicalLocation → Reason → RecoveryResult T
  failed_result entry location reason = record {
    entry = entry;
    recovered = false;
    content = none;
    original_sha256 = none;
    physical_location = location;
    reason = some reason;
  }

  -- The end of both paths: too few bytes are a failure where the size is known.
  unfoldable pub conclude : ForensicEntry T → ℕ → String → List ℕ → RecoveryResult T
  conclude entry target_size what bytes =
      if not (target_size == u64_max) && ltb (length bytes) target_size
      then failed_result entry entry.physical_location (too_short what (length bytes) target_size)
      else recovered_result entry bytes entry.physical_location

  -- The legacy path, by the regions of the entry.
  pub recover_regions :
      PhysicalRecoveryEngine
      → Readable
      → ForensicEntry T
      → List ForensicPhysicalRegion
      → Result (RecoveryResult T)
  recover_regions engine reader entry [] = ok (
      failed_result entry entry.physical_location
        (message "Forensic object has no physical recovery regions"))
  recover_regions engine reader entry (region ∷ regions) = do
    bytes ← regions_loop engine reader (target_of entry.metadata.real_size) (region ∷ regions) []
    ok (conclude entry (target_of entry.metadata.real_size) "Physical regions" bytes)

  -- The choice between the paths, by the segments of the layout.
  unfoldable pub recover_segments :
      PhysicalRecoveryEngine
      → Readable
      → ForensicEntry T
      → List ForensicContentSegment
      → Result (RecoveryResult T)
  recover_segments engine reader entry [] =
      recover_regions engine reader entry entry.physical_location.regions
  recover_segments engine reader entry (segment ∷ segments) = do
    bytes ← recover_logical_layout engine reader entry
    ok (conclude entry (target_of entry.metadata.real_size) "Logical content" bytes)

  unfoldable pub recover :
      PhysicalRecoveryEngine → Readable → ForensicEntry T → Result (RecoveryResult T)
  recover engine reader entry =
      if target_of entry.metadata.real_size == 0
      then ok (recovered_result entry [] entry.physical_location)
      else recover_segments engine reader entry entry.content_layout.segments
