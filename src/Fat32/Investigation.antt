-- ===== src/Fat32/Investigation.antt =====
-- crates/forensis-core/src/filesystem/fat32/investigation.rs and filesystem.rs: the walk over the
-- directories of a volume. The reports of progress are left out; identifiers and counts are taken to
-- stay below 2 ^ 64.
pub mod Unique
pub mod Ending
pub mod Model
pub mod Path
use Prim.Native.Nat.{bit_and, max}
use forensis.Prelude.{
  Bool, List, Result, [], div_ceil, err, false, if◌then◌else◌, leb, ltb, not, ok, panic, suc, true,
  zero, ℕ, ◌&&◌, ◌++◌, ◌+◌, ◌==◌, ◌>>=◌, ◌||◌, ◌∷◌,
}
use forensis.Bytes.{bytes_eq}
use forensis.Text.{Text}
use forensis.Fat32.Boot.{cluster_size}
use forensis.Fat32.Directory.{
  Fat32DirectoryEntry, attr_volume_label, is_directory, parse_directory_entries,
  has_directory_markers,
}
use forensis.Fat32.InvestigationEntry.{Fat32InvestigationEntry}
use forensis.Fat32.Reader.{Fat32Reader, contains, read_directory_cluster, walk_chain}

pub record Fat32Investigation : Type 0 where
  pub entries : List Fat32InvestigationEntry
  pub records : ℕ
  pub bytes_per_cluster : ℕ
  pub sectors_per_cluster : ℕ
  pub first_data_sector : ℕ
  pub seen : List (ℕ × Text)
  pub noise_discarded : ℕ

-- `self.seen.contains(&key)`; `HashSet::insert` answers its negation.
unfoldable pub has_key : ℕ → Text → List (ℕ × Text) → Bool
has_key parent name [] = false
has_key parent name (key ∷ keys) =
    key.0 == parent && bytes_eq key.1 name || has_key parent name keys

-- `Fat32Investigation::add_entry`
unfoldable pub add_entry : Fat32InvestigationEntry → Fat32Investigation → Fat32Investigation
add_entry entry investigation =
    if has_key entry.parent_id entry.name investigation.seen
    then record investigation { noise_discarded = investigation.noise_discarded + 1 }
    else record investigation {
      seen = (entry.parent_id, entry.name) ∷ investigation.seen;
      entries = investigation.entries ++ (entry ∷ []);
    }

-- The state of the walk, with the reader and its cache.
pub record Walk : Type 0 where
  pub reader : Fat32Reader
  pub investigation : Fat32Investigation
  pub visited_dirs : List ℕ
  pub queue : List (ℕ × ℕ × Text)
  pub next_id : ℕ

-- `add_entry` and `next_id += 1`.
unfoldable pub register : Fat32InvestigationEntry → Walk → Walk
register entry walk = record walk {
  investigation = add_entry entry walk.investigation;
  next_id = walk.next_id + 1;
}

abbrev pub increment_records : Walk → Walk
increment_records walk = record walk {
  investigation = record walk.investigation { records = walk.investigation.records + 1 };
}

-- `unwrap_or_default` of a chain; after an error the reader is the old one.
unfoldable pub chain_or_default :
    Fat32Reader → Result (List ℕ × Fat32Reader) → Result (List ℕ × Fat32Reader)
chain_or_default reader (ok found) = ok found
chain_or_default reader (err error) = ok ([], reader)
chain_or_default reader panic = panic

unfoldable pub resolve_file_chain :
    Fat32Reader → Fat32Investigation → Fat32DirectoryEntry → Result (List ℕ × Fat32Reader)
resolve_file_chain reader investigation parsed =
    if ltb parsed.cluster 2 || parsed.size == 0
    then ok ([], reader)
    else chain_or_default reader (
        walk_chain reader parsed.cluster
          (max (div_ceil parsed.size investigation.bytes_per_cluster) 1))

abbrev pub is_volume_label : Fat32DirectoryEntry → Bool
is_volume_label parsed = not (bit_and parsed.attributes attr_volume_label == 0)

abbrev pub label_entry : ℕ → ℕ → Fat32DirectoryEntry → Fat32InvestigationEntry
label_entry object_id parent_id parsed = record {
  object_id = object_id;
  parent_id = parent_id;
  name = parsed.name;
  is_directory = false;
  is_volume_label = true;
  is_deleted = false;
  real_size = 0;
  attributes = parsed.attributes;
  cluster = 0;
  chain = [];
}

abbrev pub file_entry : ℕ → ℕ → Fat32DirectoryEntry → List ℕ → Fat32InvestigationEntry
file_entry object_id parent_id parsed chain = record {
  object_id = object_id;
  parent_id = parent_id;
  name = parsed.name;
  is_directory = false;
  is_volume_label = false;
  is_deleted = parsed.deleted;
  real_size = parsed.size;
  attributes = parsed.attributes;
  cluster = parsed.cluster;
  chain = chain;
}

abbrev pub directory_entry : ℕ → ℕ → Text → ℕ → List ℕ → Fat32InvestigationEntry
directory_entry object_id parent_id name cluster chain = record {
  object_id = object_id;
  parent_id = parent_id;
  name = name;
  is_directory = true;
  is_volume_label = false;
  is_deleted = false;
  real_size = 0;
  attributes = 0x10;
  cluster = cluster;
  chain = chain;
}

-- A directory that is to be visited, once.
unfoldable pub enqueue : ℕ → Fat32DirectoryEntry → Walk → Walk
enqueue parent_id parsed walk =
    if leb 2 parsed.cluster && not (contains walk.visited_dirs parsed.cluster)
    then record walk {
      visited_dirs = parsed.cluster ∷ walk.visited_dirs;
      queue = walk.queue ++ ((parsed.cluster, parent_id, parsed.name) ∷ []);
    }
    else walk

unfoldable pub register_entry : ℕ → Fat32DirectoryEntry → Walk → Result Walk
register_entry parent_id parsed walk =
    if is_volume_label parsed
    then ok (register (label_entry walk.next_id parent_id parsed) walk)
    else if is_directory parsed
    then ok (enqueue parent_id parsed walk)
    else resolve_file_chain walk.reader walk.investigation parsed >>= λ found. ok (
        register (file_entry walk.next_id parent_id parsed found.0)
          (record walk { reader = found.1 }))

unfoldable pub register_entries : ℕ → List Fat32DirectoryEntry → Walk → Result Walk
register_entries parent_id [] walk = ok walk
register_entries parent_id (parsed ∷ entries) walk =
    register_entry parent_id parsed walk >>= register_entries parent_id entries

-- The loop over the clusters of a directory.
unfoldable pub clusters_loop : ℕ → List ℕ → Walk → Result Walk
clusters_loop object_id [] walk = ok walk
clusters_loop object_id (cluster ∷ chain) walk = do
  buffer ← read_directory_cluster walk.reader cluster
  entries ← parse_directory_entries buffer
  registered ← register_entries object_id entries (increment_records walk)
  clusters_loop object_id chain registered

-- The chain of a directory: none where the cluster is out of range, or where a directory other than
-- the root does not begin as one.
unfoldable pub directory_chain : Fat32Reader → ℕ → Result (List ℕ × Fat32Reader)
directory_chain reader cluster =
    let walked = walk_chain reader cluster reader.boot.total_clusters in
    if ltb cluster 2 || ltb reader.boot.total_clusters cluster
    then ok ([], reader)
    else if cluster == reader.boot.root_cluster
    then walked
    else read_directory_cluster reader cluster >>= λ first_cluster.
        if has_directory_markers first_cluster then walked else ok ([], reader)

unfoldable pub walk_found : ℕ → ℕ → Text → List ℕ → Walk → Result Walk
walk_found cluster parent_id name [] walk = ok walk
walk_found cluster parent_id name (first ∷ chain) walk =
    clusters_loop walk.next_id (first ∷ chain)
      (register (directory_entry walk.next_id parent_id name cluster (first ∷ chain)) walk)

unfoldable pub walk_directory : ℕ → ℕ → Text → Walk → Result Walk
walk_directory cluster parent_id name walk = do
  found ← directory_chain walk.reader cluster
  walk_found cluster parent_id name found.0 (record walk { reader = found.1 })

-- The `while` loop over the queue. There are at most 2 ^ 32 clusters to enqueue.
unfoldable pub queue_loop : ℕ → List (ℕ × ℕ × Text) → Walk → Result Walk
queue_loop fuel [] walk = ok walk
queue_loop zero (item ∷ queue) walk = panic
queue_loop (suc fuel) ((cluster, parent_id, name) ∷ queue) walk =
    walk_directory cluster parent_id name (record walk { queue = queue }) >>= λ walked.
    queue_loop fuel walked.queue walked

abbrev pub first_walk : Fat32Reader → Walk
first_walk reader = record {
  reader = reader;
  investigation = record {
    entries = [];
    records = 0;
    bytes_per_cluster = cluster_size reader.boot;
    sectors_per_cluster = reader.boot.sectors_per_cluster;
    first_data_sector = reader.boot.first_data_sector;
    seen = [];
    noise_discarded = 0;
  };
  visited_dirs = reader.boot.root_cluster ∷ [];
  queue = (reader.boot.root_cluster, 1, 0x2f ∷ []) ∷ [];
  next_id = 1;
}

-- `investigate_filesystem`, with the fuel.
unfoldable pub investigate_filesystem : Fat32Reader → ℕ → Result Fat32Investigation
investigate_filesystem reader fuel = do
  walked ← queue_loop fuel (first_walk reader).queue (first_walk reader)
  ok walked.investigation
