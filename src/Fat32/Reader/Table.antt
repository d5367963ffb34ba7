-- ===== src/Fat32/Reader/Table.antt =====
-- Entries of the allocation table: what a read returns, and that caching does not change it.
use forensis.Prelude.{
  All, All-drop, Holds, Holds-bind, Holds-fail_if, Holds-if, Holds-ok, Holds-ok_or, IsByte, List,
  Option, Result, [], ap, arith, drop, get_or, leb, length, lt→ltb, none, ok, plumbing, refl, some,
  suc, zero, ℕ, ◌+◌, ◌<◌, ◌>>=◌, ◌^◌, ◌∷◌, ◌≡◌, ◌≤◌,
}
use forensis.Bytes.{AreBytes}
use forensis.Bytes.Laws.{le-lt}
use forensis.Source.{FillsBuffer, IsTotal}
use forensis.Fat32.Boot.Geometry.{IsGeometry}
use forensis.Fat32.Reader.{
  Fat32Reader, read_at, fat_bytes, fat_offset, fat_entries, ensure_fat_cache, entry_at,
  read_fat_entry_direct, read_entry, read_fat_entry, max_cached_fat_bytes,
}

-- A cached table has one 32-bit entry for each number up to the last one that is looked up.
abbrev pub CacheFits : ℕ → Option (List ℕ) → Type 0
CacheFits total none = Unit
CacheFits total (some entries) = (length entries ≡ total + 1) × All (λ e. e < 2 ^ 32) entries

pub record IsReady (reader : Fat32Reader) : Type 0 where
  pub source_total : IsTotal reader.source
  pub geometry : IsGeometry reader.boot
  pub cache : CacheFits reader.boot.total_clusters reader.fat_cache

pub read_at-Holds :
    (reader : Fat32Reader) (offset n : ℕ)
    → IsTotal reader.source
    → Holds (FillsBuffer n) (read_at reader offset n)
unfolding read_at
read_at-Holds reader offset n t = Holds-ok_or _ _ _ λ absolute _. t.fills absolute n

length-fat_entries : (total : ℕ) (bytes : List ℕ) → length (fat_entries total bytes) ≡ total
unfolding fat_entries
length-fat_entries zero bytes = refl
length-fat_entries (suc total) bytes = ap suc (length-fat_entries total (drop 4 bytes))

fat_entries-fit :
    (total : ℕ) (bytes : List ℕ) → AreBytes bytes → All (λ e. e < 2 ^ 32) (fat_entries total bytes)
unfolding fat_entries
fat_entries-fit zero bytes b = tt
fat_entries-fit (suc total) bytes b = (
  ground (arith, le-lt 4 bytes b),
  fat_entries-fit total (drop 4 bytes) (All-drop IsByte 4 bytes b),
)

get_or-fits :
    (entries : List ℕ) (i : ℕ) → All (λ e. e < 2 ^ 32) entries → get_or entries i 0 < 2 ^ 32
get_or-fits [] i h = omega arith
get_or-fits (e ∷ entries) zero h = h.0
get_or-fits (e ∷ entries) (suc i) h = get_or-fits entries i h.1

entry_at-Holds :
    (entries : List ℕ) (cluster total : ℕ)
    → cluster ≤ total
    → CacheFits total (some entries)
    → Holds (λ e. e < 2 ^ 32) (entry_at entries cluster)
unfolding entry_at
entry_at-Holds entries cluster total l c =
    rw (lt→ltb cluster (length entries) (omega (arith, c.0)))
      (Holds-ok _ (get_or-fits entries cluster c.1))

-- What a read of an entry leaves: a ready reader of the same volume.
pub record IsEntryOf (reader : Fat32Reader) (cluster : ℕ) (result : ℕ × Fat32Reader) : Type 0 where
  pub low : 2 ≤ cluster
  pub high : cluster ≤ reader.boot.total_clusters
  pub value : result.0 < 2 ^ 32
  pub ready : IsReady result.1
  pub same_boot : result.1.boot ≡ reader.boot

ensure_fat_cache-Holds :
    (reader : Fat32Reader)
    → IsReady reader
    → Holds
        (λ p.
          CacheFits reader.boot.total_clusters (some p.0) × IsReady p.1 × (p.1.boot ≡ reader.boot))
        (ensure_fat_cache reader none)
unfolding ensure_fat_cache
ensure_fat_cache-Holds reader r =
    Holds-bind _ _
      (read_at-Holds reader (fat_offset reader.boot) (fat_bytes reader.boot) r.source_total)
      λ bytes f _.
        let total = reader.boot.total_clusters + 1 in
        let fits : CacheFits reader.boot.total_clusters (some (fat_entries total bytes)) =
          (length-fat_entries total bytes, fat_entries-fit total bytes f.0) in
        Holds-ok _ (
          fits,
          record { source_total = r.source_total; geometry = r.geometry; cache = fits },
          refl,
        )

direct-Holds :
    (reader : Fat32Reader) (cluster : ℕ)
    → IsReady reader
    → Holds (λ e. e < 2 ^ 32) (read_fat_entry_direct reader cluster)
unfolding read_fat_entry_direct
direct-Holds reader cluster r =
    Holds-bind _ _ (read_at-Holds reader _ 4 r.source_total)
      λ raw f _. Holds-ok _ (omega (arith, le-lt 4 raw f.0))

read_entry-Holds :
    (reader : Fat32Reader) (cluster : ℕ) (cache : Option (List ℕ))
    → IsReady reader
    → CacheFits reader.boot.total_clusters cache
    → 2 ≤ cluster
    → cluster ≤ reader.boot.total_clusters
    → Holds (IsEntryOf reader cluster) (read_entry reader cluster cache)
unfolding read_entry
read_entry-Holds reader cluster (some entries) r c low high =
    Holds-bind _ _ (entry_at-Holds entries cluster _ high c) λ e v _.
      Holds-ok _ (record { low = low; high = high; value = v; ready = r; same_boot = refl })
read_entry-Holds reader cluster none r c low high =
    Holds-if (leb (fat_bytes reader.boot) max_cached_fat_bytes) _ _
      (λ small. Holds-bind _ _ (ensure_fat_cache-Holds reader r) λ p q _.
        Holds-bind _ _ (entry_at-Holds p.0 cluster _ high q.0) λ e v _.
          Holds-ok _ (record { low = low; high = high; value = v; ready = q.1; same_boot = q.2 }))
      (λ large. Holds-bind _ _ (direct-Holds reader cluster r) λ e v _.
        Holds-ok _ (record { low = low; high = high; value = v; ready = r; same_boot = refl }))

-- From a ready reader a table entry is read without a panic: for a cluster in the range that the
-- code accepts it is a 32-bit number, and the reader that is left is ready again.
pub read_fat_entry-Holds :
    (reader : Fat32Reader) (cluster : ℕ)
    → IsReady reader
    → Holds (IsEntryOf reader cluster) (read_fat_entry reader cluster)
unfolding read_fat_entry
read_fat_entry-Holds reader cluster r = Holds-fail_if _ _ _ λ inside.
    read_entry-Holds reader cluster reader.fat_cache r r.cache (ground arith) (ground arith)

-- The value of an entry, the reader forgotten.
unfoldable pub entry_value : Fat32Reader → ℕ → Result ℕ
entry_value reader cluster = do (entry, _) ← read_fat_entry reader cluster; ok entry

-- Reading one entry, which may cache the whole table, changes no later answer for any cluster.
pub entry_value-read_fat_entry :
    (reader reader' : Fat32Reader) (cluster entry other : ℕ)
    → read_fat_entry reader cluster ≡ ok (entry, reader')
    → entry_value reader' other ≡ entry_value reader other
unfolding entry_value read_fat_entry read_entry ensure_fat_cache plumbing
entry_value-read_fat_entry reader reader' cluster entry other e = ground arith
