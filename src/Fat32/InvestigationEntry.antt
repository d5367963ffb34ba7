-- ===== src/Fat32/InvestigationEntry.antt =====
-- crates/forensis-core/src/filesystem/fat32/investigation_entry.rs: an item that an investigation
-- found, and its place in the filesystem-independent model.
use forensis.Prelude.{
  Bool, List, Result, [], if◌then◌else◌, length, ltb, mul, none, not, ok, some, u64_mod, ℕ, ◌&&◌,
  ◌==◌, ◌>>=◌,
}
use forensis.Text.{Text}
use forensis.ClusterRuns
use forensis.Forensic.Model.{
  ForensicEntry, ForensicEntryKind, ForensicStatus, ForensicPhysicalLocation, ForensicContentLayout,
  file, directory, other, normal, system, deleted, inconsistent, fat32,
}

pub record Fat32InvestigationEntry : Type 0 where
  pub object_id : ℕ
  pub parent_id : ℕ
  pub name : Text
  pub is_directory : Bool
  pub is_volume_label : Bool
  pub is_deleted : Bool
  pub real_size : ℕ
  pub attributes : ℕ
  pub cluster : ℕ
  pub chain : List ℕ

abbrev pub is_unallocated : Fat32InvestigationEntry → Bool
is_unallocated entry = length entry.chain == 0

-- The same runs as those of an exFAT entry.
unfoldable pub physical_location : Fat32InvestigationEntry → ℕ → ℕ → ForensicPhysicalLocation
physical_location entry sectors_per_cluster first_data_sector =
    ClusterRuns.physical_location sectors_per_cluster first_data_sector entry.chain

unfoldable pub content_layout : Fat32InvestigationEntry → ℕ → ℕ → ℕ → ForensicContentLayout
content_layout entry bytes_per_cluster sectors_per_cluster first_data_sector =
    ClusterRuns.content_layout sectors_per_cluster first_data_sector bytes_per_cluster entry.chain

abbrev pub forensic_kind : Fat32InvestigationEntry → ForensicEntryKind
forensic_kind entry =
    if entry.is_volume_label then other else if entry.is_directory then directory else file

abbrev pub forensic_status : Fat32InvestigationEntry → ForensicStatus
forensic_status entry =
    if entry.is_deleted
    then deleted
    else if entry.is_volume_label
    then system
    else if ltb 0 entry.real_size && is_unallocated entry
    then inconsistent
    else normal

module _ {T : Type 0} where
  -- The product of the allocated size is a plain one of `u64`s.
  unfoldable pub to_forensic_entry : Fat32InvestigationEntry → ℕ → ℕ → ℕ → Result (ForensicEntry T)
  to_forensic_entry entry bytes_per_cluster sectors_per_cluster first_data_sector = do
    allocated_size ← mul u64_mod (length entry.chain) bytes_per_cluster
    ok (record {
      identity = record {
        name = entry.name;
        path = [];
        kind = forensic_kind entry;
        status = forensic_status entry;
        object_id = entry.object_id;
      };
      hierarchy = record { parent_id = some entry.parent_id };
      metadata = record {
        real_size = some entry.real_size;
        allocated_size = some allocated_size;
        created_at = none;
        modified_at = none;
        accessed_at = none;
      };
      filesystem = record { filesystem = fat32; filesystem_object_id = entry.cluster };
      allocation = record {
        allocated = some (not entry.is_deleted);
        cluster_count = some (length entry.chain);
        bitmap_allocated = none;
      };
      physical_location = physical_location entry sectors_per_cluster first_data_sector;
      content_layout = content_layout entry bytes_per_cluster sectors_per_cluster first_data_sector;
    })
