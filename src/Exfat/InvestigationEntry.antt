-- ===== src/Exfat/InvestigationEntry.antt =====
-- crates/forensis-core/src/filesystem/exfat/investigation_entry.rs: an item that an investigation
-- found, and its place in the filesystem-independent model.
use forensis.Prelude.{
  Bool, List, Option, Result, [], if◌then◌else◌, length, ltb, mul, none, not, ok, some, u64_mod, ℕ,
  ◌&&◌, ◌==◌, ◌>>=◌, ◌||◌,
}
use forensis.Text.{Text}
use forensis.ClusterRuns
use forensis.Forensic.Model.{
  ForensicEntry, ForensicEntryKind, ForensicStatus, normal, system, deleted, inconsistent, exfat,
}
use forensis.Exfat.Directory.{ExfatEntryKind, is_directory, is_volume_label, is_system}

pub record ExfatInvestigationEntry (T : Type 0) : Type 0 where
  pub object_id : ℕ
  pub parent_id : ℕ
  pub name : Text
  pub kind : ExfatEntryKind
  pub is_deleted : Bool
  pub real_size : ℕ
  pub attributes : ℕ
  pub cluster : ℕ
  pub chain : List ℕ
  pub created_at : Option T
  pub modified_at : Option T
  pub accessed_at : Option T

abbrev pub is_unallocated : List ℕ → Bool
is_unallocated chain = length chain == 0

abbrev pub forensic_kind : ExfatEntryKind → ForensicEntryKind
forensic_kind kind =
    if is_volume_label kind || is_system kind
    then ForensicEntryKind.other
    else if is_directory kind
    then ForensicEntryKind.directory
    else ForensicEntryKind.file

module _ {T : Type 0} where
  abbrev pub forensic_status : ExfatInvestigationEntry T → ForensicStatus
  forensic_status entry =
      if entry.is_deleted
      then deleted
      else if is_volume_label entry.kind || is_system entry.kind
      then system
      else if ltb 0 entry.real_size && is_unallocated entry.chain
      then inconsistent
      else normal

  -- The product of the allocated size is a plain one of `u64`s.
  unfoldable pub to_forensic_entry :
      ExfatInvestigationEntry T → ℕ → ℕ → ℕ → Result (ForensicEntry T)
  to_forensic_entry entry bytes_per_cluster sectors_per_cluster first_data_sector = do
    allocated_size ← mul u64_mod (length entry.chain) bytes_per_cluster
    ok (record {
      identity = record {
        name = entry.name;
        path = [];
        kind = forensic_kind entry.kind;
        status = forensic_status entry;
        object_id = entry.object_id;
      };
      hierarchy = record { parent_id = some entry.parent_id };
      metadata = record {
        real_size = some entry.real_size;
        allocated_size = some allocated_size;
        created_at = entry.created_at;
        modified_at = entry.modified_at;
        accessed_at = entry.accessed_at;
      };
      filesystem = record { filesystem = exfat; filesystem_object_id = entry.cluster };
      allocation = record {
        allocated = some (not entry.is_deleted);
        cluster_count = some (length entry.chain);
        bitmap_allocated = none;
      };
      physical_location =
          ClusterRuns.physical_location sectors_per_cluster first_data_sector entry.chain;
      content_layout =
          ClusterRuns.content_layout sectors_per_cluster first_data_sector bytes_per_cluster
            entry.chain;
    })
