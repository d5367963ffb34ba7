-- ===== src/Exfat/Investigation.antt =====
-- crates/forensis-core/src/filesystem/exfat/investigation.rs and filesystem.rs: the walk over the
-- directories of a volume. The reports of progress are left out; identifiers and counts are taken to
-- stay below 2 ^ 64.
pub mod Model
pub mod Numbering
pub mod Termination
pub mod Ending
pub mod Path
use Prim.Native.Nat.{max}
use forensis.Prelude.{
  List, Option, Result, [], div_ceil, err, false, if◌then◌else◌, leb, ltb, none, not, ok, panic,
  suc, zero, ℕ, ◌&&◌, ◌++◌, ◌+◌, ◌==◌, ◌>>=◌, ◌>>◌, ◌||◌, ◌∷◌,
}
use forensis.Text.{Text}
use forensis.Fat32.Reader.{contains}
use forensis.Exfat.Boot.{cluster_size, sectors_per_cluster_u64, first_data_sector}
use forensis.Exfat.Directory.{
  ExfatDirectoryEntry, ExfatEntryKind, volume_label, is_directory, is_volume_label, is_system,
  parse_directory_entries,
}
use forensis.Exfat.InvestigationEntry.{ExfatInvestigationEntry}
use forensis.Exfat.Reader.{ExfatReader, read_directory_cluster, walk_chain}

pub record ExfatInvestigation (T : Type 0) : Type 0 where
  pub entries : List (ExfatInvestigationEntry T)
  pub records : ℕ
  pub bytes_per_cluster : ℕ
  pub sectors_per_cluster : ℕ
  pub first_data_sector : ℕ

-- The state of the walk: what was found, the clusters of the directories that were enqueued, the
-- queue of clusters, parents and names, and the next identifier.
pub record Walk (T : Type 0) : Type 0 where
  pub investigation : ExfatInvestigation T
  pub visited_dirs : List ℕ
  pub queue : List (ℕ × ℕ × Text)
  pub next_id : ℕ

-- `unwrap_or_default` of a vector.
unfoldable pub unwrap_or_default : Result (List ℕ) → Result (List ℕ)
unwrap_or_default (ok values) = ok values
unwrap_or_default (err error) = ok []
unwrap_or_default panic = panic

module _ {T : Type 0} where
  -- `add_entry` of an entry with the next identifier, and `next_id += 1`.
  unfoldable pub add_entry : ExfatInvestigationEntry T → Walk T → Walk T
  add_entry entry walk = record walk {
    investigation = record walk.investigation {
      entries = walk.investigation.entries ++ (entry ∷ []);
    };
    next_id = walk.next_id + 1;
  }

  abbrev pub increment_records : Walk T → Walk T
  increment_records walk = record walk {
    investigation = record walk.investigation { records = walk.investigation.records + 1 };
  }

  -- The chain of a file, as far as its size goes.
  unfoldable pub resolve_file_chain :
      ExfatReader → ExfatInvestigation T → ExfatDirectoryEntry T → Result (List ℕ)
  resolve_file_chain reader investigation parsed =
      if ltb parsed.cluster 2 || parsed.size == 0
      then ok []
      else unwrap_or_default (
          walk_chain reader parsed.cluster
            (max (div_ceil parsed.size investigation.bytes_per_cluster) 1))

  -- The entry of a label or of a file of the system.
  abbrev pub special_entry :
      ℕ → ℕ → ExfatDirectoryEntry T → ExfatEntryKind → ℕ → ExfatInvestigationEntry T
  special_entry object_id parent_id parsed kind cluster = record {
    object_id = object_id;
    parent_id = parent_id;
    name = parsed.name;
    kind = kind;
    is_deleted = false;
    real_size = 0;
    attributes = parsed.attributes;
    cluster = cluster;
    chain = [];
    created_at = none;
    modified_at = none;
    accessed_at = none;
  }

  abbrev pub file_entry : ℕ → ℕ → ExfatDirectoryEntry T → List ℕ → ExfatInvestigationEntry T
  file_entry object_id parent_id parsed chain = record {
    object_id = object_id;
    parent_id = parent_id;
    name = parsed.name;
    kind = ExfatEntryKind.file;
    is_deleted = parsed.deleted;
    real_size = parsed.size;
    attributes = parsed.attributes;
    cluster = parsed.cluster;
    chain = chain;
    created_at = parsed.created_at;
    modified_at = parsed.modified_at;
    accessed_at = parsed.accessed_at;
  }

  -- A directory that is to be visited, once.
  unfoldable pub enqueue : ℕ → ExfatDirectoryEntry T → Walk T → Walk T
  enqueue parent_id parsed walk =
      if leb 2 parsed.cluster && not (contains walk.visited_dirs parsed.cluster)
      then record walk {
        visited_dirs = parsed.cluster ∷ walk.visited_dirs;
        queue = walk.queue ++ ((parsed.cluster, parent_id, parsed.name) ∷ []);
      }
      else walk

  unfoldable pub register_entry : ExfatReader → ℕ → ExfatDirectoryEntry T → Walk T → Result (Walk T)
  register_entry reader parent_id parsed walk =
      if is_volume_label parsed.kind
      then ok (add_entry (special_entry walk.next_id parent_id parsed volume_label 0) walk)
      else if is_system parsed.kind
      then ok
          (add_entry (special_entry walk.next_id parent_id parsed parsed.kind parsed.cluster) walk)
      else if is_directory parsed.kind
      then ok (enqueue parent_id parsed walk)
      else resolve_file_chain reader walk.investigation parsed >>= λ chain.
          ok (add_entry (file_entry walk.next_id parent_id parsed chain) walk)

  -- The loop over the entries of a directory's cluster.
  unfoldable pub register_entries :
      ExfatReader → ℕ → List (ExfatDirectoryEntry T) → Walk T → Result (Walk T)
  register_entries reader parent_id [] walk = ok walk
  register_entries reader parent_id (parsed ∷ entries) walk =
      register_entry reader parent_id parsed walk >>= register_entries reader parent_id entries

  abbrev pub directory_entry : ℕ → ℕ → Text → ℕ → List ℕ → ExfatInvestigationEntry T
  directory_entry object_id parent_id name cluster chain = record {
    object_id = object_id;
    parent_id = parent_id;
    name = name;
    kind = ExfatEntryKind.directory;
    is_deleted = false;
    real_size = 0;
    attributes = 0x10;
    cluster = cluster;
    chain = chain;
    created_at = none;
    modified_at = none;
    accessed_at = none;
  }

module _ {T : Type 0} (date_time : ℕ → ℕ → ℕ → ℕ → ℕ → ℕ → Option T) (reader : ExfatReader) where
  -- The loop over the clusters of a directory.
  unfoldable pub clusters_loop : ℕ → List ℕ → Walk T → Result (Walk T)
  clusters_loop object_id [] walk = ok walk
  clusters_loop object_id (cluster ∷ chain) walk = do
    buffer ← read_directory_cluster reader cluster
    entries ← parse_directory_entries date_time buffer
    registered ← register_entries reader object_id entries (increment_records walk)
    clusters_loop object_id chain registered

  -- `walk_directory` with the chain that it found; an empty one leaves everything as it is.
  unfoldable pub walk_found : ℕ → ℕ → Text → List ℕ → Walk T → Result (Walk T)
  walk_found cluster parent_id name [] walk = ok walk
  walk_found cluster parent_id name (first ∷ chain) walk =
      clusters_loop walk.next_id (first ∷ chain)
        (add_entry (directory_entry walk.next_id parent_id name cluster (first ∷ chain)) walk)

  unfoldable pub walk_directory : ℕ → ℕ → Text → Walk T → Result (Walk T)
  walk_directory cluster parent_id name walk = do
    chain ← walk_chain reader cluster reader.boot.cluster_count
    walk_found cluster parent_id name chain walk

  -- The `while` loop over the queue. There are at most 2 ^ 32 clusters to enqueue.
  unfoldable pub queue_loop : ℕ → List (ℕ × ℕ × Text) → Walk T → Result (Walk T)
  queue_loop fuel [] walk = ok walk
  queue_loop zero (item ∷ queue) walk = panic
  queue_loop (suc fuel) ((cluster, parent_id, name) ∷ queue) walk =
      walk_directory cluster parent_id name (record walk { queue = queue }) >>= λ walked.
      queue_loop fuel walked.queue walked

  abbrev pub first_walk : Walk T
  first_walk = record {
    investigation = record {
      entries = [];
      records = 0;
      bytes_per_cluster = cluster_size reader.boot;
      sectors_per_cluster = sectors_per_cluster_u64 reader.boot;
      first_data_sector = first_data_sector reader.boot;
    };
    visited_dirs = reader.boot.root_directory_cluster ∷ [];
    queue = (reader.boot.root_directory_cluster, 1, 0x2f ∷ []) ∷ [];
    next_id = 1;
  }

  -- `investigate_filesystem`, with the fuel.
  unfoldable pub investigate_filesystem : ℕ → Result (ExfatInvestigation T)
  investigate_filesystem fuel = do
    walked ← queue_loop fuel first_walk.queue first_walk
    ok walked.investigation
