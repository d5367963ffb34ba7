-- ===== src/Fat32/Reader.antt =====
-- crates/forensis-core/src/filesystem/fat32/reader.rs: clusters, table entries and chains.
-- Methods on `&mut self` return the new reader. After an error it is the old one: an error between
-- two reads can only lose the cached table, which does not change what later reads return.
pub mod Table
pub mod Chain
pub mod Distinct
pub mod Walk
pub mod Last
pub mod Read
use forensis.Prelude.{
  Bool, List, Option, Result, [], checked_add, div_ceil, drop, fail_if, false, get_or,
  if◌then◌else◌, invalid_format, leb, length, ltb, min, mul, none, ok, ok_or, panic, some, suc,
  u64_mod, zero, ℕ, ◌*◌, ◌++◌, ◌+◌, ◌-◌, ◌==◌, ◌>>=◌, ◌>>◌, ◌^◌, ◌||◌, ◌∷◌,
}
use forensis.Bytes.{le}
use forensis.Source.{Readable}
use forensis.Fat32.Boot
use forensis.Fat32.Boot.{Fat32BootSector}

abbrev pub fat_bad_cluster : ℕ
fat_bad_cluster = 0x0fff_fff7

abbrev pub fat_end_of_chain : ℕ
fat_end_of_chain = 0x0fff_fff8

abbrev pub max_cached_fat_bytes : ℕ
max_cached_fat_bytes = 256 * 2 ^ 20

pub record Fat32Reader : Type 0 where
  pub source : Readable
  pub boot : Fat32BootSector
  pub partition_offset : ℕ
  pub fat_cache : Option (List ℕ)

-- `Fat32Reader::new`
unfoldable pub open_reader : Readable → ℕ → Result Fat32Reader
open_reader source partition_offset = do
  boot_bytes ← source.read_at partition_offset 512
  boot ← Boot.parse boot_bytes
  ok (record {
    source = source;
    boot = boot;
    partition_offset = partition_offset;
    fat_cache = none;
  })

-- A partition-relative read; `read_bytes` is this with a buffer of its own.
unfoldable pub read_at : Fat32Reader → ℕ → ℕ → Result (List ℕ)
read_at reader offset n = do
  absolute ←
      ok_or (checked_add u64_mod offset reader.partition_offset)
        (invalid_format "FAT32 offset overflow")
  reader.source.read_at absolute n

-- `sector * bytes_per_sector` of the first sector of a cluster.
unfoldable pub read_cluster : Fat32Reader → ℕ → ℕ → Result (List ℕ)
read_cluster reader cluster n = do
  fail_if (ltb (Boot.cluster_size reader.boot) n)
      (invalid_format "FAT32 cluster read exceeds cluster size")
  sector ←
      ok_or (Boot.sector_of_cluster reader.boot cluster) (invalid_format "invalid cluster number")
  offset ← mul u64_mod sector reader.boot.bytes_per_sector
  read_at reader offset n

abbrev max_directory_bytes : ℕ
max_directory_bytes = 2 ^ 20

-- A whole cluster of a directory.
unfoldable pub read_directory_cluster : Fat32Reader → ℕ → Result (List ℕ)
read_directory_cluster reader cluster = do
  fail_if (ltb max_directory_bytes (Boot.cluster_size reader.boot))
      (invalid_format "FAT32 directory cluster too large")
  read_cluster reader cluster (Boot.cluster_size reader.boot)

abbrev pub fat_bytes : Fat32BootSector → ℕ
fat_bytes boot = boot.fat_size * boot.bytes_per_sector

abbrev pub fat_offset : Fat32BootSector → ℕ
fat_offset boot = boot.reserved_sectors * boot.bytes_per_sector

-- The table of `total` entries out of the bytes of the FAT: a `u32` for each whole chunk of four
-- bytes, zero where the bytes have ended.
unfoldable pub fat_entries : ℕ → List ℕ → List ℕ
fat_entries zero bytes = []
fat_entries (suc total) bytes =
    (if leb 4 (length bytes) then le 4 bytes else 0) ∷ fat_entries total (drop 4 bytes)

-- `ensure_fat_cache`, by what the reader has cached; it also returns the table that then is.
unfoldable pub ensure_fat_cache : Fat32Reader → Option (List ℕ) → Result (List ℕ × Fat32Reader)
ensure_fat_cache reader (some entries) = ok (entries, reader)
ensure_fat_cache reader none = do
  bytes ← read_at reader (fat_offset reader.boot) (fat_bytes reader.boot)
  let entries = fat_entries (reader.boot.total_clusters + 1) bytes
  ok (entries, record reader { fat_cache = some entries })

-- `entries[cluster]`
unfoldable pub entry_at : List ℕ → ℕ → Result ℕ
entry_at entries cluster =
    if ltb cluster (length entries) then ok (get_or entries cluster 0) else panic

-- One entry straight from the volume, where the table is too large to keep.
unfoldable pub read_fat_entry_direct : Fat32Reader → ℕ → Result ℕ
read_fat_entry_direct reader cluster = do
  raw ← read_at reader (fat_offset reader.boot + cluster * 4) 4
  ok (le 4 raw)

-- The three ways to an entry of a cluster in range, by what the reader has cached.
unfoldable pub read_entry : Fat32Reader → ℕ → Option (List ℕ) → Result (ℕ × Fat32Reader)
read_entry reader cluster (some entries) = do entry ← entry_at entries cluster; ok (entry, reader)
read_entry reader cluster none =
    if leb (fat_bytes reader.boot) max_cached_fat_bytes
    then (do
      (entries, cached) ← ensure_fat_cache reader none
      entry ← entry_at entries cluster
      ok (entry, cached))
    else (do entry ← read_fat_entry_direct reader cluster; ok (entry, reader))

unfoldable pub read_fat_entry : Fat32Reader → ℕ → Result (ℕ × Fat32Reader)
read_fat_entry reader cluster = do
  fail_if (ltb cluster 2 || ltb reader.boot.total_clusters cluster)
      (invalid_format "FAT32 cluster out of range")
  read_entry reader cluster reader.fat_cache

-- `seen.contains(cluster)`; `HashSet::insert` answers its negation.
unfoldable pub contains : List ℕ → ℕ → Bool
contains [] cluster = false
contains (c ∷ seen) cluster = c == cluster || contains seen cluster

abbrev pub ends_chain : ℕ → Bool
ends_chain entry = leb fat_end_of_chain entry || entry == fat_bad_cluster || ltb entry 2

-- The `loop` of `walk_chain`, at a cluster that is to be pushed, the chain and the set `seen` being
-- what the rounds before left. A round that does not break has pushed, so that `max_clusters` is
-- reached before the fuel ends.
unfoldable pub walk_loop : ℕ → ℕ → ℕ → List ℕ → List ℕ → Fat32Reader → Result (List ℕ × Fat32Reader)
walk_loop zero max_clusters cluster chain seen reader = panic
walk_loop (suc fuel) max_clusters cluster chain seen reader =
    let pushed = chain ++ (cluster ∷ []) in
    let rest = read_fat_entry reader cluster >>= λ (entry, reader').
    let next = walk_loop fuel max_clusters entry pushed (cluster ∷ seen) reader' in
    if ends_chain entry then ok (pushed, reader') else next in
    if leb max_clusters (length pushed) || contains seen cluster then ok (pushed, reader) else rest

unfoldable pub walk_chain : Fat32Reader → ℕ → ℕ → Result (List ℕ × Fat32Reader)
walk_chain reader start_cluster max_clusters = do
  fail_if (ltb start_cluster 2) (invalid_format "FAT32 chain starts at a reserved cluster")
  walk_loop (max_clusters + 1) max_clusters start_cluster [] [] reader

-- The `for` loop of `read_chain` over the clusters of a chain, with the bytes still wanted.
unfoldable pub read_clusters : Fat32Reader → List ℕ → ℕ → List ℕ → Result (List ℕ)
read_clusters reader [] remaining out = ok out
read_clusters reader (cluster ∷ chain) remaining out =
    if remaining == 0
    then ok out
    else let chunk = min remaining (Boot.cluster_size reader.boot) in
      read_cluster reader cluster chunk >>= λ buffer.
      read_clusters reader chain (remaining - chunk) (out ++ buffer)

unfoldable pub read_chain : Fat32Reader → ℕ → ℕ → List ℕ → Result (List ℕ × Fat32Reader)
read_chain reader start_cluster max_bytes out = do
  (chain, reader') ←
      walk_chain reader start_cluster (div_ceil max_bytes (Boot.cluster_size reader.boot))
  read_clusters reader' chain max_bytes out >>= λ out'. ok (out', reader')
