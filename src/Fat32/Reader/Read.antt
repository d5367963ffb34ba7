-- ===== src/Fat32/Reader/Read.antt =====
-- Reading the bytes of a chain, from the opening of a volume on.
use native.Mathlib.Nat.{mul-le-mul, le_refl}
use forensis.Prelude.{
  All, All-append, Holds, Holds-bind, Holds-fail_if, Holds-if, Holds-mul, Holds-ok, Holds-ok_or,
  Holds-weaken, IsByte, List, [], arith, div_ceil, ge→ltb, length, length-append, min, plumbing,
  refl, some, u64_mod, ℕ, ◌*◌, ◌++◌, ◌+◌, ◌-◌, ◌<◌, ◌==◌, ◌^◌, ◌∷◌, ◌≡◌, ◌≤◌,
}
use forensis.Bytes.{AreBytes}
use forensis.Source.{Readable, FillsBuffer, IsTotal}
use forensis.Fat32.Boot.{Fat32BootSector, cluster_size, sector_of_cluster}
use forensis.Fat32.Boot.Geometry.{IsGeometry, parse_boot-Holds}
use forensis.Fat32.Reader.{
  read_directory_cluster, Fat32Reader, open_reader, read_cluster, read_clusters, read_chain,
}
use forensis.Fat32.Reader.Table.{IsReady, read_at-Holds}
use forensis.Fat32.Reader.Chain.{walk_chain-Holds}

-- Opening a volume on total evidence returns a ready reader at the same place, or an error.
pub open_reader-IsReady :
    (source : Readable) (partition_offset : ℕ)
    → IsTotal source
    → Holds
        (λ reader. IsReady reader × (reader.partition_offset ≡ partition_offset))
        (open_reader source partition_offset)
unfolding open_reader
open_reader-IsReady source partition_offset t =
    Holds-bind _ _ (t.fills partition_offset 512) λ boot_bytes b _.
      Holds-bind _ _ (parse_boot-Holds boot_bytes b.0)
        λ boot g _. Holds-ok _ (record { source_total = t; geometry = g; cache = tt }, refl)

sector_bound :
    (boot : Fat32BootSector) (cluster sector : ℕ)
    → IsGeometry boot
    → cluster < 2 ^ 32
    → sector_of_cluster boot cluster ≡ some sector
    → sector ≤ 2 ^ 40
unfolding sector_of_cluster
sector_bound boot cluster sector g small e =
    let far : (cluster - 2) * boot.sectors_per_cluster ≤ (cluster - 2) * 128 =
      mul-le-mul (le_refl (cluster - 2)) g.cluster_high in
    ground (arith, far, g.clusters_fit, g.total)

byte_bound : (sector bytes : ℕ) → sector ≤ 2 ^ 40 → bytes ≤ 4096 → sector * bytes < 2 ^ 64
byte_bound sector bytes h k =
    let product : sector * bytes ≤ 2 ^ 40 * 4096 = mul-le-mul h k in omega arith

-- The bytes of a cluster have a 64-bit offset within the partition.
read_cluster-Holds :
    (reader : Fat32Reader) (cluster n : ℕ)
    → IsReady reader
    → cluster < 2 ^ 32
    → Holds (FillsBuffer n) (read_cluster reader cluster n)
unfolding read_cluster
read_cluster-Holds reader cluster n r small = Holds-fail_if _ _ _ λ _. Holds-ok_or _ _ _ λ sector e.
    let bound = sector_bound reader.boot cluster sector r.geometry small e in
    Holds-bind _ _
      (Holds-mul u64_mod sector reader.boot.bytes_per_sector
        (byte_bound sector reader.boot.bytes_per_sector bound r.geometry.sector_high))
      λ offset _ _. read_at-Holds reader offset n r.source_total

cluster_size_bound : (boot : Fat32BootSector) → IsGeometry boot → cluster_size boot ≤ 2 ^ 20
unfolding cluster_size
cluster_size_bound boot g =
    let product : boot.bytes_per_sector * boot.sectors_per_cluster ≤ 4096 * 128 =
      mul-le-mul g.sector_high g.cluster_high in
    omega arith

-- From a ready reader, reading a directory's cluster is reading a whole cluster, the size of which
-- is never refused; for a 32-bit number it fails or returns as many bytes as a cluster has.
pub read_directory_cluster-Holds :
    (reader : Fat32Reader) (cluster : ℕ)
    → IsReady reader
    → cluster < 2 ^ 32
    → (read_directory_cluster reader cluster
        ≡ read_cluster reader cluster (cluster_size reader.boot))
      × Holds (FillsBuffer (cluster_size reader.boot)) (read_directory_cluster reader cluster)
unfolding read_directory_cluster
read_directory_cluster-Holds reader cluster r small =
    let accepted : read_directory_cluster reader cluster
        ≡ read_cluster reader cluster (cluster_size reader.boot) =
      unfold plumbing in rw (ge→ltb _ _ (cluster_size_bound reader.boot r.geometry)) refl in
    (accepted, rw accepted (read_cluster-Holds reader cluster (cluster_size reader.boot) r small))

-- What reading adds: at most as many bytes as were wanted.
abbrev pub Extends : List ℕ → ℕ → List ℕ → Type 0
Extends out wanted result =
    AreBytes result × (length out ≤ length result) × (length result ≤ length out + wanted)

read_clusters-Holds :
    (reader : Fat32Reader) (chain : List ℕ) (remaining : ℕ) (out : List ℕ)
    → IsReady reader
    → All (λ c. c < 2 ^ 32) chain
    → AreBytes out
    → Holds (Extends out remaining) (read_clusters reader chain remaining out)
unfolding read_clusters
read_clusters-Holds reader [] remaining out r small b = Holds-ok _ (b, omega arith, omega arith)
read_clusters-Holds reader (cluster ∷ chain) remaining out r small b =
    let chunk = min remaining (cluster_size reader.boot) in
    Holds-if (remaining == 0) _ _ (λ _. Holds-ok _ (b, omega arith, omega arith))
      λ more. Holds-bind _ _ (read_cluster-Holds reader cluster chunk r small.0) λ buffer f _.
        let grown = length-append out buffer in
        Holds-weaken _
          (λ result x. (x.0, omega (arith, x.1, grown), omega (arith, x.2, grown, f.1)))
          (read_clusters-Holds reader chain (remaining - chunk) (out ++ buffer) r small.1
            (All-append IsByte out buffer b f.0))

-- From a ready reader and a 32-bit start cluster, whatever the table holds, reading a chain fails
-- with an error or appends bytes to those in hand, at most as many as were asked for, and leaves a
-- ready reader.
pub read_chain-Holds :
    (reader : Fat32Reader) (start_cluster max_bytes : ℕ) (out : List ℕ)
    → IsReady reader
    → start_cluster < 2 ^ 32
    → AreBytes out
    → Holds
        (λ result. Extends out max_bytes result.0 × IsReady result.1)
        (read_chain reader start_cluster max_bytes out)
unfolding read_chain
read_chain-Holds reader start_cluster max_bytes out r small b =
    let limit = div_ceil max_bytes (cluster_size reader.boot) in
    Holds-bind _ _ (walk_chain-Holds reader start_cluster limit r small) λ p w _.
      Holds-bind _ _ (read_clusters-Holds p.1 p.0 max_bytes out w.4 w.3 b)
        λ result x _. Holds-ok _ (x, w.4)
