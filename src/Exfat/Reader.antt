-- ===== src/Exfat/Reader.antt =====
-- crates/forensis-core/src/filesystem/exfat/reader.rs: clusters, table entries and chains. The reader
-- keeps nothing between reads, so that its methods on `&mut self` return only their result.
pub mod Chain
pub mod Walk
pub mod Read
use forensis.Prelude.{
  Bool, List, Result, [], add, checked_add, div_ceil, fail_if, if◌then◌else◌, invalid_format, leb,
  length, ltb, min, mul, ok, ok_or, panic, suc, u64_mod, zero, ℕ, ◌*◌, ◌++◌, ◌+◌, ◌-◌, ◌==◌, ◌>>=◌,
  ◌>>◌, ◌^◌, ◌||◌, ◌∷◌,
}
use forensis.Bytes.{le}
use forensis.Source.{Readable}
use forensis.Exfat.Boot
use forensis.Exfat.Boot.{ExfatBootSector}
use forensis.Fat32.Reader.{contains}

abbrev pub fat_bad_cluster : ℕ
fat_bad_cluster = 0xffff_fff7

abbrev pub fat_end_of_chain : ℕ
fat_end_of_chain = 0xffff_fff8

abbrev max_directory_bytes : ℕ
max_directory_bytes = 2 ^ 20

pub record ExfatReader : Type 0 where
  pub source : Readable
  pub boot : ExfatBootSector
  pub partition_offset : ℕ

-- `ExFatReader::new`
unfoldable pub open_reader : Readable → ℕ → Result ExfatReader
open_reader source partition_offset = do
  boot_data ← source.read_at partition_offset 512
  boot ← Boot.parse boot_data
  ok (record { source = source; boot = boot; partition_offset = partition_offset })

-- A partition-relative read of so many bytes; `read_bytes` is this with a buffer of its own.
unfoldable pub read_at : ExfatReader → ℕ → ℕ → Result (List ℕ)
read_at reader offset n = do
  absolute ←
      ok_or (checked_add u64_mod offset reader.partition_offset)
        (invalid_format "exFAT offset overflow")
  reader.source.read_at absolute n

unfoldable pub read_cluster : ExfatReader → ℕ → ℕ → Result (List ℕ)
read_cluster reader cluster n = do
  fail_if (ltb (Boot.cluster_size reader.boot) n)
      (invalid_format "exFAT cluster read exceeds cluster size")
  offset ←
      ok_or (Boot.cluster_byte_offset reader.boot cluster) (invalid_format "invalid cluster number")
  read_at reader offset n

-- A whole cluster of a directory.
unfoldable pub read_directory_cluster : ExfatReader → ℕ → Result (List ℕ)
read_directory_cluster reader cluster = do
  fail_if (ltb max_directory_bytes (Boot.cluster_size reader.boot))
      (invalid_format "exFAT directory cluster too large")
  read_cluster reader cluster (Boot.cluster_size reader.boot)

unfoldable pub read_fat_entry : ExfatReader → ℕ → Result ℕ
read_fat_entry reader cluster = do
  fail_if (ltb cluster 2 || ltb reader.boot.cluster_count cluster)
      (invalid_format "exFAT cluster out of range")
  fat_offset ← mul u64_mod reader.boot.fat_offset reader.boot.bytes_per_sector
  entry_offset ← add u64_mod fat_offset (cluster * 4)
  raw ← read_at reader entry_offset 4
  ok (le 4 raw)

abbrev pub ends_chain : ℕ → Bool
ends_chain entry = leb fat_end_of_chain entry || entry == fat_bad_cluster || ltb entry 2

-- The `loop` of `walk_chain`, at a cluster that is to be pushed. A round that does not break has
-- pushed, so that `max_clusters` is reached before the fuel ends.
unfoldable pub walk_loop : ℕ → ExfatReader → ℕ → ℕ → List ℕ → List ℕ → Result (List ℕ)
walk_loop zero reader max_clusters cluster chain seen = panic
walk_loop (suc fuel) reader max_clusters cluster chain seen =
    let pushed = chain ++ (cluster ∷ []) in
    let rest = read_fat_entry reader cluster >>= λ entry.
    let next = walk_loop fuel reader max_clusters entry pushed (cluster ∷ seen) in
    if ends_chain entry then ok pushed else next in
    if leb max_clusters (length pushed) || contains seen cluster then ok pushed else rest

unfoldable pub walk_chain : ExfatReader → ℕ → ℕ → Result (List ℕ)
walk_chain reader start_cluster max_clusters =
    if start_cluster == 0
    then ok []
    else walk_loop (max_clusters + 1) reader max_clusters start_cluster [] []

-- The `for` loop of `read_chain`, with the bytes still wanted.
unfoldable pub read_clusters : ExfatReader → List ℕ → ℕ → List ℕ → Result (List ℕ)
read_clusters reader [] remaining out = ok out
read_clusters reader (cluster ∷ chain) remaining out =
    if remaining == 0
    then ok out
    else let chunk = min remaining (Boot.cluster_size reader.boot) in
      read_cluster reader cluster chunk >>= λ buffer.
      read_clusters reader chain (remaining - chunk) (out ++ buffer)

unfoldable pub read_chain : ExfatReader → ℕ → ℕ → List ℕ → Result (List ℕ)
read_chain reader start_cluster max_bytes out = do
  chain ← walk_chain reader start_cluster (div_ceil max_bytes (Boot.cluster_size reader.boot))
  read_clusters reader chain max_bytes out
