-- ===== src/Exfat/Reader/Read.antt =====
-- Reading the bytes of an exFAT chain, from the opening of a volume on.
use mathlib.Core.List.{append_assoc, append-nil}
use forensis.Prelude.{
  All-append, Holds, Holds-bind, Holds-fail_if, Holds-if, Holds-ok, Holds-ok_or, Holds-weaken,
  IsByte, List, [], arith, div_ceil, length, length-append, min, ok, refl, suc, sym, ℕ, ◌*◌, ◌++◌,
  ◌+◌, ◌-◌, ◌<◌, ◌==◌, ◌^◌, ◌∙◌, ◌∷◌, ◌≡◌,
}
use forensis.Bytes.{AreBytes}
use forensis.Source.{Readable, FillsBuffer, IsTotal}
use forensis.Exfat.Boot.{ExfatBootSector, parse_fields, cluster_size}
use forensis.Exfat.Boot.Layout.{FitsWords, parse_exfat-Holds}
use forensis.Exfat.Reader.{
  ExfatReader, open_reader, read_cluster, read_clusters, read_chain, walk_chain,
}
use forensis.Exfat.Reader.Chain.{IsReady, read_at-Holds, walk_exfat_chain-Holds}

-- Opening a volume on total evidence returns a ready reader or an error, where the sums of the boot
-- sector's fields fit into 32 bits.
pub open_exfat_reader-IsReady :
    (source : Readable) (partition_offset : ℕ)
    → IsTotal source
    → ((bytes : List ℕ) (boot : ExfatBootSector)
        → source.read_at partition_offset 512 ≡ ok bytes
        → parse_fields bytes ≡ ok boot
        → FitsWords boot)
    → Holds
        (λ reader. IsReady reader × (reader.partition_offset ≡ partition_offset))
        (open_reader source partition_offset)
unfolding open_reader
open_exfat_reader-IsReady source partition_offset t fits =
    Holds-bind _ _ (t.fills partition_offset 512) λ bytes b e.
      Holds-bind _ _ (parse_exfat-Holds bytes b.0 (λ boot f. fits bytes boot e f))
        λ boot l _. Holds-ok _ (record { source_total = t; layout = l }, refl)

pub read_cluster-Holds :
    (reader : ExfatReader) (cluster n : ℕ)
    → IsReady reader
    → Holds (FillsBuffer n) (read_cluster reader cluster n)
unfolding read_cluster
read_cluster-Holds reader cluster n r =
    Holds-fail_if _ _ _ λ _. Holds-ok_or _ _ _ λ offset _. read_at-Holds reader offset n r

-- What reading the clusters of a chain adds to the bytes in hand.
abbrev pub Appends : List ℕ → ℕ → List ℕ → Type 0
Appends out n result =
    (added : List ℕ) × (result ≡ out ++ added) × AreBytes added × (length added ≡ n)

min_split :
    (wanted size more first others : ℕ)
    → first ≡ min wanted size
    → others ≡ min (wanted - min wanted size) (more * size)
    → first + others ≡ min wanted (suc more * size)
min_split wanted size more first others h k =
    let product : suc more * size ≡ size + more * size = grind arith in omega (arith, product)

read_clusters-Holds :
    (reader : ExfatReader) (chain : List ℕ) (remaining : ℕ) (out : List ℕ)
    → IsReady reader
    → Holds
        (Appends out (min remaining (length chain * cluster_size reader.boot)))
        (read_clusters reader chain remaining out)
unfolding read_clusters
read_clusters-Holds reader [] remaining out r =
    Holds-ok _ ([], sym (append-nil out), tt, ground arith)
read_clusters-Holds reader (cluster ∷ chain) remaining out r =
    let size = cluster_size reader.boot in
    let chunk = min remaining size in
    Holds-if (remaining == 0) _ _
      (λ none_left. Holds-ok _ ([], sym (append-nil out), tt, ground arith))
      λ more. Holds-bind _ _ (read_cluster-Holds reader cluster chunk r) λ buffer f _.
        Holds-weaken _
          (λ result (added, eq, b, n). (
            buffer ++ added,
            eq ∙ append_assoc out buffer added,
            All-append IsByte buffer added f.0 b,
            length-append buffer added
                ∙ min_split remaining size (length chain) (length buffer) (length added) f.1 n,
          ))
          (read_clusters-Holds reader chain (remaining - chunk) (out ++ buffer) r)

-- From a ready exFAT reader and a 32-bit start cluster, reading a chain fails with an error or appends
-- bytes to those in hand: as many as were asked for, or as many as the clusters of the chain that is
-- walked have, if these are fewer.
pub read_exfat_chain-Holds :
    (reader : ExfatReader) (start_cluster max_bytes : ℕ) (out : List ℕ)
    → IsReady reader
    → start_cluster < 2 ^ 32
    → Holds
        (λ result.
          (chain : List ℕ) × (walk_chain reader start_cluster
              (div_ceil max_bytes (cluster_size reader.boot))
            ≡ ok chain)
          × Appends out (min max_bytes (length chain * cluster_size reader.boot)) result)
        (read_chain reader start_cluster max_bytes out)
unfolding read_chain
read_exfat_chain-Holds reader start_cluster max_bytes out r small =
    let limit = div_ceil max_bytes (cluster_size reader.boot) in
    Holds-bind _ _ (walk_exfat_chain-Holds reader start_cluster limit r small) λ chain w e.
      Holds-weaken _ (λ result a. (chain, e, a)) (read_clusters-Holds reader chain max_bytes out r)
