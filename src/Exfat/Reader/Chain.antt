-- ===== src/Exfat/Reader/Chain.antt =====
-- Following a chain through the table: the walk ends and is bounded.
use native.Mathlib.Nat.{mul-le-mul}
use forensis.Prelude.{
  All, All-append, Holds, Holds-add, Holds-bind, Holds-fail_if, Holds-if, Holds-mul, Holds-ok,
  Holds-ok_or, Holds-weaken, List, [], arith, false, leb, length, length-append, refl, suc, u64_mod,
  zero, ℕ, ◌*◌, ◌++◌, ◌+◌, ◌<◌, ◌==◌, ◌^◌, ◌||◌, ◌↔◌, ◌∷◌, ◌≡◌, ◌≤◌,
}
use forensis.Bytes.Laws.{le-lt}
use forensis.Source.{IsTotal, FillsBuffer}
use forensis.Exfat.Boot.Layout.{IsLayout}
use forensis.Exfat.Reader.{ExfatReader, read_at, read_fat_entry, ends_chain, walk_loop, walk_chain}
use forensis.Fat32.Reader.{contains}
use forensis.Fat32.Reader.Distinct.{IsDistinct, length-le_of_distinct}

-- An open reader on total evidence.
pub record IsReady (reader : ExfatReader) : Type 0 where
  pub source_total : IsTotal reader.source
  pub layout : IsLayout reader.boot

pub read_at-Holds :
    (reader : ExfatReader) (offset n : ℕ)
    → IsReady reader
    → Holds (FillsBuffer n) (read_at reader offset n)
unfolding read_at
read_at-Holds reader offset n r = Holds-ok_or _ _ _ λ absolute _. r.source_total.fills absolute n

table_bound : (offset bytes : ℕ) → offset < 2 ^ 32 → bytes ≤ 4096 → offset * bytes ≤ 2 ^ 44
table_bound offset bytes h k =
    let low : offset ≤ 2 ^ 32 = omega arith in
    let product : offset * bytes ≤ 2 ^ 32 * 4096 = mul-le-mul low k in omega arith

-- An entry is read, or an error is returned; only the clusters from 2 to the count have one.
pub read_fat_entry-Holds_exfat :
    (reader : ExfatReader) (cluster : ℕ)
    → IsReady reader
    → Holds
        (λ entry. (entry < 2 ^ 32) × (2 ≤ cluster) × (cluster ≤ reader.boot.cluster_count))
        (read_fat_entry reader cluster)
unfolding read_fat_entry
read_fat_entry-Holds_exfat reader cluster r = Holds-fail_if _ _ _ λ inside.
    let f = r.layout.fields in
    let far =
      table_bound reader.boot.fat_offset reader.boot.bytes_per_sector f.fat_offset f.sector_high in
    let high : cluster ≤ reader.boot.cluster_count = ground arith in
    Holds-bind _ _ (Holds-mul u64_mod _ _ (omega arith)) λ fat_offset e _.
      Holds-bind _ _ (Holds-add u64_mod fat_offset (cluster * 4) (omega (arith, f.clusters, e)))
        λ offset _ _.
          Holds-bind _ _ (read_at-Holds reader offset 4 r)
            λ raw b _. Holds-ok _ (omega (arith, le-lt 4 raw b.0), ground arith, high)

-- The chain found, in terms of what the loop started from.
record IsFound (total max_clusters : ℕ) (chain : List ℕ) (result : List ℕ) : Type 0 where
  bounded : length result ≤ total + 1
  limited : length chain < max_clusters → length result ≤ max_clusters
  nonempty : length chain < length result
  words : All (λ c. c < 2 ^ 32) result

-- Where the loop stands: the set holds the clusters of the chain, each once and in range.
record IsLoop (total max_clusters : ℕ) (chain seen : List ℕ) : Type 0 where
  same_length : length chain ≡ length seen
  room : length chain ≤ max_clusters
  words : All (λ c. c < 2 ^ 32) chain
  distinct : IsDistinct seen
  no_zero : contains seen 0 ≡ false
  in_range : All (λ c. c < total + 1) seen

module _ (reader : ExfatReader) (r : IsReady reader) (max_clusters : ℕ) where
  found :
      (cluster : ℕ) (chain seen : List ℕ)
      → IsLoop reader.boot.cluster_count max_clusters chain seen
      → cluster < 2 ^ 32
      → IsFound reader.boot.cluster_count max_clusters chain (chain ++ (cluster ∷ []))
  found cluster chain seen l w =
      let grown = length-append chain (cluster ∷ []) in
      let few : length (0 ∷ seen) ≤ reader.boot.cluster_count + 1 =
        length-le_of_distinct (reader.boot.cluster_count + 1) (0 ∷ seen) (l.no_zero, l.distinct)
          (omega arith, l.in_range) in
      record {
        bounded = omega (arith, l.same_length);
        limited = λ h. omega arith;
        nonempty = omega arith;
        words = All-append (λ c. c < 2 ^ 32) chain (cluster ∷ []) l.words (w, tt);
      }

  walk_loop-Holds :
      (fuel cluster : ℕ) (chain seen : List ℕ)
      → IsLoop reader.boot.cluster_count max_clusters chain seen
      → max_clusters < fuel + length chain
      → cluster < 2 ^ 32
      → Holds
          (IsFound reader.boot.cluster_count max_clusters chain)
          (walk_loop fuel reader max_clusters cluster chain seen)
  unfolding walk_loop
  walk_loop-Holds zero cluster chain seen l f w = absurd (omega (arith, l.room))
  walk_loop-Holds (suc fuel) cluster chain seen l f w =
      let pushed = chain ++ (cluster ∷ []) in
      let grown : length pushed ≡ length chain + 1 = length-append chain (cluster ∷ []) in
      Holds-if (leb max_clusters (length pushed) || contains seen cluster) _ _
        (λ stop. Holds-ok _ (found cluster chain seen l w))
        (λ go. Holds-bind _ _ (read_fat_entry-Holds_exfat reader cluster r) λ entry e _.
          Holds-if (ends_chain entry) _ _ (λ stop. Holds-ok _ (found cluster chain seen l w))
            (λ more.
              let fresh : contains seen cluster ≡ false = ground arith in
              let short : length pushed < max_clusters = ground arith in
              let l' : IsLoop reader.boot.cluster_count max_clusters pushed (cluster ∷ seen) =
                record {
                  same_length = omega (arith, l.same_length);
                  room = omega arith;
                  words = All-append (λ c. c < 2 ^ 32) chain (cluster ∷ []) l.words (w, tt);
                  distinct = (fresh, l.distinct);
                  no_zero = unfold contains in ground (arith, l.no_zero, e.1);
                  in_range = (omega (arith, e.2), l.in_range);
                } in
              Holds-weaken _
                (λ q h. record {
                  bounded = h.bounded;
                  limited = λ _. h.limited short;
                  nonempty = omega (arith, h.nonempty);
                  words = h.words;
                })
                (walk_loop-Holds fuel entry pushed (cluster ∷ seen) l' (omega arith) e.0)))

-- From a ready reader and a 32-bit start cluster, whatever the table holds, loops included, walking an
-- exFAT chain neither panics nor runs on: it fails with an error, or returns 32-bit cluster numbers, at
-- most `max_clusters` where that is positive and at most one more than the count of the clusters, and
-- none where, and only where, the start cluster is zero.
pub walk_exfat_chain-Holds :
    (reader : ExfatReader) (start_cluster max_clusters : ℕ)
    → IsReady reader
    → start_cluster < 2 ^ 32
    → Holds
        (λ result.
          ((length result ≡ 0) ↔ (start_cluster ≡ 0))
          × (0 < max_clusters → length result ≤ max_clusters)
          × (length result ≤ reader.boot.cluster_count + 1)
          × All (λ c. c < 2 ^ 32) result)
        (walk_chain reader start_cluster max_clusters)
unfolding walk_chain
walk_exfat_chain-Holds reader start_cluster max_clusters r small =
    Holds-if (start_cluster == 0) _ _
      (λ none_there. Holds-ok _ ((λ _. ground arith, λ _. refl), λ _. omega arith, omega arith, tt))
      (λ there.
        Holds-weaken _
          (λ q w. (
            (λ h. absurd (omega (arith, w.nonempty)), λ h. absurd (ground arith)),
            w.limited,
            w.bounded,
            w.words,
          ))
          (walk_loop-Holds reader r max_clusters (max_clusters + 1) start_cluster [] []
            (record {
              same_length = refl;
              room = omega arith;
              words = tt;
              distinct = tt;
              no_zero = unfold contains in refl;
              in_range = tt;
            })
            (omega arith) small))
