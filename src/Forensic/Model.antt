-- ===== src/Forensic/Model.antt =====
-- crates/forensis-core/src/forensic/model.rs. `T` stands for `chrono::DateTime<Utc>`.
use forensis.Text.{Text}
use forensis.Prelude.{
  Bool, List, Option, Result, add, checked_mul, div_ceil, if◌then◌else◌, leb, length, none, ok,
  some, u64_mod, ℕ, ◌-◌, ◌==◌, ◌>>=◌, ◌||◌,
}

pub data ForensicEntryKind : Type 0 where
  file directory symlink other : ForensicEntryKind

pub data ForensicStatus : Type 0 where
  normal system deleted carved inconsistent unknown : ForensicStatus

pub data ForensicFilesystem : Type 0 where
  ntfs ext4 ext3 fat32 exfat unknown : ForensicFilesystem

pub record ForensicIdentity : Type 0 where
  pub name : Text
  pub path : Text
  pub kind : ForensicEntryKind
  pub status : ForensicStatus
  pub object_id : ℕ

pub record ForensicHierarchy : Type 0 where
  pub parent_id : Option ℕ

pub record ForensicMetadata (T : Type 0) : Type 0 where
  pub real_size : Option ℕ
  pub allocated_size : Option ℕ
  pub created_at : Option T
  pub modified_at : Option T
  pub accessed_at : Option T

pub record ForensicObject : Type 0 where
  pub filesystem : ForensicFilesystem
  pub filesystem_object_id : ℕ

pub record ForensicAllocation : Type 0 where
  pub allocated : Option Bool
  pub cluster_count : Option ℕ
  pub bitmap_allocated : Option Bool

pub record ForensicPhysicalRegion : Type 0 where
  pub cluster_start : Option ℕ
  pub cluster_end : Option ℕ
  pub sector_start : Option ℕ
  pub sector_end : Option ℕ
  pub offset : Option ℕ

-- The regions of a location, in their order.
pub record ForensicPhysicalLocation : Type 0 where
  pub regions : List ForensicPhysicalRegion

pub data ForensicContentSource : Type 0 where
  physical : ForensicPhysicalRegion → ForensicContentSource
  sparse : ForensicContentSource
  inline : List ℕ → ForensicContentSource

pub record ForensicContentSegment : Type 0 where
  pub logical_cluster_start : ℕ
  pub cluster_count : ℕ
  pub source : ForensicContentSource

pub record ForensicContentLayout : Type 0 where
  pub bytes_per_cluster : ℕ
  pub segments : List ForensicContentSegment

pub record ForensicEntry (T : Type 0) : Type 0 where
  pub identity : ForensicIdentity
  pub hierarchy : ForensicHierarchy
  pub metadata : ForensicMetadata T
  pub filesystem : ForensicObject
  pub allocation : ForensicAllocation
  pub physical_location : ForensicPhysicalLocation
  pub content_layout : ForensicContentLayout

pub record ForensicSource : Type 0 where
  pub image : Option Text
  pub filesystem : ForensicFilesystem

pub record ForensicModel (T : Type 0) : Type 0 where
  pub source : ForensicSource
  pub records_investigated : ℕ
  pub entries : List (ForensicEntry T)

-- The length of an inclusive range; `end - start + 1` panics for the full range of a `u64`.
unfoldable pub range_count : Option ℕ → Option ℕ → Result (Option ℕ)
range_count (some start) (some end) =
    if leb start end then (add u64_mod (end - start) 1 >>= λ n. ok (some n)) else ok none
range_count _ _ = ok none

-- `ForensicPhysicalRegion::sector_count`
unfoldable pub sector_count : ForensicPhysicalRegion → Result (Option ℕ)
unfolding range_count
sector_count region = range_count region.sector_start region.sector_end

unfoldable pub byte_count_of : ForensicContentSource → ℕ → ℕ → Option ℕ
byte_count_of (inline bytes) clusters bytes_per_cluster = some (length bytes)
byte_count_of (physical region) clusters bytes_per_cluster =
    checked_mul u64_mod clusters bytes_per_cluster
byte_count_of sparse clusters bytes_per_cluster = checked_mul u64_mod clusters bytes_per_cluster

-- `ForensicContentSegment::byte_count`
unfoldable pub byte_count : ForensicContentSegment → ℕ → Option ℕ
unfolding byte_count_of
byte_count segment bytes_per_cluster =
    byte_count_of segment.source segment.cluster_count bytes_per_cluster

-- `ForensicContentSegment::inline`
unfoldable pub inline_segment : ℕ → List ℕ → ℕ → ForensicContentSegment
inline_segment logical_cluster_start bytes bytes_per_cluster = record {
  logical_cluster_start = logical_cluster_start;
  cluster_count =
      if length bytes == 0 || bytes_per_cluster == 0
      then 0
      else div_ceil (length bytes) bytes_per_cluster;
  source = inline bytes;
}
