-- ===== src/Ntfs/InvestigationEntry.antt =====
-- crates/forensis-core/src/filesystem/ntfs/investigation_entry.rs: a file that the Master File Table
-- names, and its place in the filesystem-independent model.
pub mod Recovery
use Prim.Native.Nat.{bit_and}
use forensis.Prelude.{
  Bool, List, Option, Result, [], add, checked_add, checked_mul, if◌then◌else◌, none, not, ok, some,
  u64_mod, ℕ, ◌-◌, ◌==◌, ◌>>=◌, ◌>>◌, ◌∷◌,
}
use forensis.Prelude.Int.{ℤ, pos, negsuc}
use forensis.Text.{Text}
use forensis.Forensic.Model.{
  ForensicEntry, ForensicPhysicalRegion, ForensicPhysicalLocation, ForensicContentLayout,
  ForensicContentSegment, ForensicStatus, file, directory, normal, system, deleted, ntfs, physical,
  sparse, inline_segment,
}
use forensis.Ntfs.DataAttribute.{DataAttribute}
use forensis.Ntfs.DataRun.{DataRun}
use forensis.Ntfs.FileName.{FileNameAttribute, is_directory}

abbrev pub mft_record_in_use : ℕ
mft_record_in_use = 1

abbrev pub file_attribute_system : ℕ
file_attribute_system = 4

abbrev pub ntfs_bytes_per_sector : ℕ
ntfs_bytes_per_sector = 512

pub record InvestigationEntry : Type 0 where
  pub mft_record : ℕ
  pub parent_mft_record : ℕ
  pub name : Text
  pub allocated_size : ℕ
  pub real_size : ℕ
  pub flags : ℕ
  pub mft_flags : ℕ
  pub is_directory : Bool
  pub data_runs : List DataRun
  pub resident_data : Option (List ℕ)

unfoldable pub from_file_name : ℕ → FileNameAttribute → InvestigationEntry
from_file_name mft_record file_name = record {
  mft_record = mft_record;
  parent_mft_record = file_name.parent_record;
  name = file_name.name;
  allocated_size = file_name.allocated_size;
  real_size = file_name.real_size;
  flags = file_name.file_attributes;
  mft_flags = mft_record_in_use;
  is_directory = is_directory file_name;
  data_runs = [];
  resident_data = none;
}

unfoldable pub from_file_name_and_data :
    ℕ → FileNameAttribute → Option DataAttribute → ℕ → InvestigationEntry
unfolding from_file_name
from_file_name_and_data mft_record file_name none mft_flags =
    record (from_file_name mft_record file_name) { mft_flags = mft_flags }
from_file_name_and_data mft_record file_name (some attribute) mft_flags = record {
  mft_record = mft_record;
  parent_mft_record = file_name.parent_record;
  name = file_name.name;
  allocated_size = attribute.allocated_size;
  real_size = attribute.real_size;
  flags = file_name.file_attributes;
  mft_flags = mft_flags;
  is_directory = is_directory file_name;
  data_runs = attribute.data_runs;
  resident_data = attribute.resident_data;
}

-- `Option::and_then`, and the `?` of a function into `Option`.
abbrev and_then {ℓ κ} : {A : Type ℓ} {B : Type κ} → Option A → (A → Option B) → Option B
and_then none f = none
and_then (some a) f = f a

-- The region of a run from a cluster on; `saturating_sub` is the subtraction of ℕ.
unfoldable pub region_from : ℕ → ℕ → ℕ → Option ForensicPhysicalRegion
region_from lcn_start cluster_count sectors_per_cluster =
    and_then (checked_add u64_mod lcn_start (cluster_count - 1)) λ cluster_end.
      and_then (checked_mul u64_mod lcn_start sectors_per_cluster) λ sector_start.
        and_then (checked_mul u64_mod cluster_count sectors_per_cluster) λ sector_count.
          and_then (checked_add u64_mod sector_start (sector_count - 1)) λ sector_end.
            some (record {
              cluster_start = some lcn_start;
              cluster_end = some cluster_end;
              sector_start = some sector_start;
              sector_end = some sector_end;
              offset = none;
            })

-- `InvestigationEntry::physical_region_for_run`
unfoldable pub physical_region_for_run : Option ℤ → ℕ → ℕ → Option ForensicPhysicalRegion
physical_region_for_run (some (pos lcn_start)) cluster_count sectors_per_cluster =
    region_from lcn_start cluster_count sectors_per_cluster
physical_region_for_run (some (negsuc n)) cluster_count sectors_per_cluster = none
physical_region_for_run none cluster_count sectors_per_cluster = none

abbrev cons_region :
    Option ForensicPhysicalRegion → List ForensicPhysicalRegion → List ForensicPhysicalRegion
cons_region none regions = regions
cons_region (some region) regions = region ∷ regions

-- The loop of `physical_location`: its rounds compute the region as `physical_region_for_run` does,
-- and `continue` where there is none.
unfoldable pub physical_regions : ℕ → List DataRun → List ForensicPhysicalRegion
physical_regions sectors_per_cluster [] = []
physical_regions sectors_per_cluster (run ∷ runs) =
    cons_region (physical_region_for_run run.lcn run.cluster_count sectors_per_cluster)
      (physical_regions sectors_per_cluster runs)

unfoldable pub physical_location : InvestigationEntry → ℕ → ForensicPhysicalLocation
physical_location entry sectors_per_cluster =
    let regions = physical_regions sectors_per_cluster entry.data_runs in
    record { regions = if sectors_per_cluster == 0 then [] else regions }

-- The segment of a run.
unfoldable pub run_segment : ℕ → ℕ → Option ForensicPhysicalRegion → ForensicContentSegment
run_segment logical_cluster_start cluster_count (some region) = record {
  logical_cluster_start = logical_cluster_start;
  cluster_count = cluster_count;
  source = physical region;
}
run_segment logical_cluster_start cluster_count none = record {
  logical_cluster_start = logical_cluster_start;
  cluster_count = cluster_count;
  source = sparse;
}

abbrev cons_segment :
    ForensicContentSegment
    → Option (List ForensicContentSegment)
    → Option (List ForensicContentSegment)
cons_segment segment none = none
cons_segment segment (some segments) = some (segment ∷ segments)

-- The loop of `content_layout`, from a logical position; `none` where the position overflows.
unfoldable pub content_segments : ℕ → List DataRun → ℕ → Option (List ForensicContentSegment)
content_segments sectors_per_cluster [] logical_cluster_start = some []
content_segments sectors_per_cluster (run ∷ runs) logical_cluster_start =
    let rest = λ (next : ℕ). content_segments sectors_per_cluster runs next in
    if run.cluster_count == 0
    then rest logical_cluster_start
    else and_then (checked_add u64_mod logical_cluster_start run.cluster_count) λ next.
      cons_segment
        (run_segment logical_cluster_start run.cluster_count
          (physical_region_for_run run.lcn run.cluster_count sectors_per_cluster))
        (rest next)

abbrev pub empty_layout : ForensicContentLayout
empty_layout = record { bytes_per_cluster = 0; segments = [] }

abbrev layout_of : ℕ → Option (List ForensicContentSegment) → ForensicContentLayout
layout_of bytes_per_cluster none = empty_layout
layout_of bytes_per_cluster (some segments) = record {
  bytes_per_cluster = bytes_per_cluster;
  segments = segments;
}

-- The layout of a volume whose clusters have a size.
unfoldable pub sized_layout : InvestigationEntry → ℕ → ℕ → Option (List ℕ) → ForensicContentLayout
sized_layout entry sectors_per_cluster bytes_per_cluster (some bytes) = record {
  bytes_per_cluster = bytes_per_cluster;
  segments = inline_segment 0 bytes bytes_per_cluster ∷ [];
}
sized_layout entry sectors_per_cluster bytes_per_cluster none =
    layout_of bytes_per_cluster (content_segments sectors_per_cluster entry.data_runs 0)

unfoldable pub content_layout : InvestigationEntry → ℕ → ForensicContentLayout
content_layout entry sectors_per_cluster =
    if sectors_per_cluster == 0
    then empty_layout
    else elim (checked_mul u64_mod sectors_per_cluster ntfs_bytes_per_sector) [
      | none ↦ empty_layout
      | some bytes_per_cluster ↦
          sized_layout entry sectors_per_cluster bytes_per_cluster entry.resident_data
    ]

-- `.sum()` of the counts.
unfoldable pub sum_clusters : List DataRun → ℕ → Result ℕ
sum_clusters [] total = ok total
sum_clusters (run ∷ runs) total = add u64_mod total run.cluster_count >>= sum_clusters runs

unfoldable pub cluster_count : List DataRun → Result (Option ℕ)
cluster_count [] = ok none
cluster_count (run ∷ runs) = sum_clusters (run ∷ runs) 0 >>= λ total. ok (some total)

abbrev pub in_use : InvestigationEntry → Bool
in_use entry = not (bit_and entry.mft_flags mft_record_in_use == 0)

abbrev pub status : InvestigationEntry → ForensicStatus
status entry =
    if not (in_use entry)
    then deleted
    else if not (bit_and entry.flags file_attribute_system == 0)
    then system
    else normal

module _ {T : Type 0} where
  unfoldable pub to_forensic_entry : InvestigationEntry → ℕ → Result (ForensicEntry T)
  to_forensic_entry entry sectors_per_cluster = do
    clusters ← cluster_count entry.data_runs
    ok (record {
      identity = record {
        name = entry.name;
        path = [];
        kind = if entry.is_directory then directory else file;
        status = status entry;
        object_id = entry.mft_record;
      };
      hierarchy = record { parent_id = some entry.parent_mft_record };
      metadata = record {
        real_size = some entry.real_size;
        allocated_size = some entry.allocated_size;
        created_at = none;
        modified_at = none;
        accessed_at = none;
      };
      filesystem = record { filesystem = ntfs; filesystem_object_id = entry.mft_record };
      allocation = record {
        allocated = some (in_use entry);
        cluster_count = clusters;
        bitmap_allocated = none;
      };
      physical_location = physical_location entry sectors_per_cluster;
      content_layout = content_layout entry sectors_per_cluster;
    })
