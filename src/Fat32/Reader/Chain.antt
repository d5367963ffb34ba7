-- ===== src/Fat32/Reader/Chain.antt =====
-- Following a chain through the table: the walk ends, is bounded, and follows the entries.
use forensis.Prelude.{
  All, All-append, Holds, Holds-bind, Holds-fail_if, Holds-if, Holds-ok, Holds-weaken, List, [], ap,
  arith, false, leb, length, length-append, refl, suc, zero, ℕ, ◌++◌, ◌+◌, ◌<◌, ◌^◌, ◌||◌, ◌∙◌, ◌∷◌,
  ◌≡◌, ◌≤◌,
}
use forensis.Fat32.Boot.{Fat32BootSector}
use forensis.Fat32.Reader.{Fat32Reader, contains, ends_chain, walk_loop, walk_chain}
use forensis.Fat32.Reader.Distinct.{IsDistinct, length-le_of_distinct}
use forensis.Fat32.Reader.Table.{IsReady, read_fat_entry-Holds}

-- The chain found, in terms of what the loop started from.
record IsFound (total max_clusters : ℕ) (seen chain : List ℕ) (result : List ℕ × Fat32Reader)
    : Type 0 where
  bounded : length result.0 ≤ total + 1
  limited : length chain < max_clusters → length result.0 ≤ max_clusters
  nonempty : length chain < length result.0
  words : All (λ c. c < 2 ^ 32) result.0
  ready : IsReady result.1

-- Where the loop stands: the set holds the clusters of the chain, each once and in range.
record IsLoop (total max_clusters : ℕ) (chain seen : List ℕ) (reader : Fat32Reader) : Type 0 where
  ready : IsReady reader
  same_total : reader.boot.total_clusters ≡ total
  same_length : length chain ≡ length seen
  room : length chain ≤ max_clusters
  words : All (λ c. c < 2 ^ 32) chain
  distinct : IsDistinct seen
  no_zero : contains seen 0 ≡ false
  in_range : All (λ c. c < total + 1) seen

module _ (total max_clusters : ℕ) where
  -- A round that pushes and ends the loop.
  found :
      (cluster : ℕ) (chain seen : List ℕ) (reader reader' : Fat32Reader)
      → IsLoop total max_clusters chain seen reader
      → IsReady reader'
      → cluster < 2 ^ 32
      → IsFound total max_clusters seen chain (chain ++ (cluster ∷ []), reader')
  found cluster chain seen reader reader' l r w =
      let grown = length-append chain (cluster ∷ []) in
      let few : length (0 ∷ seen) ≤ total + 1 =
        length-le_of_distinct (total + 1) (0 ∷ seen) (l.no_zero, l.distinct)
          (omega arith, l.in_range) in
      record {
        bounded = omega (arith, l.same_length);
        limited = λ h. omega arith;
        nonempty = omega arith;
        words = All-append (λ c. c < 2 ^ 32) chain (cluster ∷ []) l.words (w, tt);
        ready = r;
      }

  walk_loop-Holds :
      (fuel cluster : ℕ) (chain seen : List ℕ) (reader : Fat32Reader)
      → IsLoop total max_clusters chain seen reader
      → max_clusters < fuel + length chain
      → cluster < 2 ^ 32
      → Holds
          (IsFound total max_clusters seen chain)
          (walk_loop fuel max_clusters cluster chain seen reader)
  unfolding walk_loop
  walk_loop-Holds zero cluster chain seen reader l f w = absurd (omega (arith, l.room))
  walk_loop-Holds (suc fuel) cluster chain seen reader l f w =
      let pushed = chain ++ (cluster ∷ []) in
      let grown : length pushed ≡ length chain + 1 = length-append chain (cluster ∷ []) in
      Holds-if (leb max_clusters (length pushed) || contains seen cluster) _ _
        (λ stop. Holds-ok _ (found cluster chain seen reader reader l l.ready w))
        (λ go. Holds-bind _ _ (read_fat_entry-Holds reader cluster l.ready) λ p e _.
          Holds-if (ends_chain p.0) _ _
            (λ stop. Holds-ok _ (found cluster chain seen reader p.1 l e.ready w))
            (λ more.
              let fresh : contains seen cluster ≡ false = ground arith in
              let short : length pushed < max_clusters = ground arith in
              let l' : IsLoop total max_clusters pushed (cluster ∷ seen) p.1 = record {
                ready = e.ready;
                same_total =
                    ap (λ (b : Fat32BootSector). b.total_clusters) e.same_boot ∙ l.same_total;
                same_length = omega (arith, l.same_length);
                room = omega arith;
                words = All-append (λ c. c < 2 ^ 32) chain (cluster ∷ []) l.words (w, tt);
                distinct = (fresh, l.distinct);
                no_zero = unfold contains in ground (arith, l.no_zero, e.low);
                in_range = (omega (arith, e.high, l.same_total), l.in_range);
              } in
              Holds-weaken _
                (λ q r. record {
                  bounded = r.bounded;
                  limited = λ h. r.limited short;
                  nonempty = omega (arith, r.nonempty);
                  words = r.words;
                  ready = r.ready;
                })
                (walk_loop-Holds fuel p.0 pushed (cluster ∷ seen) p.1 l' (omega arith) e.value)))

-- From a ready reader, a 32-bit start cluster and whatever the table holds, loops included, walking
-- a chain neither panics nor runs on: it fails with an error, or returns 32-bit cluster numbers, at
-- least one, at most `max_clusters` where that is positive, and at most one more than the volume has
-- clusters; and the reader that is left is ready.
pub walk_chain-Holds :
    (reader : Fat32Reader) (start_cluster max_clusters : ℕ)
    → IsReady reader
    → start_cluster < 2 ^ 32
    → Holds
        (λ result.
          (1 ≤ length result.0)
          × (0 < max_clusters → length result.0 ≤ max_clusters)
          × (length result.0 ≤ reader.boot.total_clusters + 1)
          × All (λ c. c < 2 ^ 32) result.0
          × IsReady result.1)
        (walk_chain reader start_cluster max_clusters)
unfolding walk_chain
walk_chain-Holds reader start_cluster max_clusters r small = Holds-fail_if _ _ _ λ _.
    Holds-weaken _ (λ q w. (w.nonempty, w.limited, w.bounded, w.words, w.ready))
      (walk_loop-Holds reader.boot.total_clusters max_clusters (max_clusters + 1) start_cluster []
        [] reader
        (record {
          ready = r;
          same_total = refl;
          same_length = refl;
          room = omega arith;
          words = tt;
          distinct = tt;
          no_zero = unfold contains in refl;
          in_range = tt;
        })
        (omega arith) small)
