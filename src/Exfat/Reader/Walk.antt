-- ===== src/Exfat/Reader/Walk.antt =====
-- An exFAT chain that was walked follows the entries of the table.
use mathlib.Core.List.{append_assoc}
use forensis.Prelude.{
  >>=-eq-ok, Bool-cases, List, [], arith, false, inl, inr, leb, length, ok, ok_inj, suc, sym, zero,
  ℕ, ◌++◌, ◌+◌, ◌==◌, ◌||◌, ◌∙◌, ◌∷◌, ◌≡◌, ◌≢◌,
}
use forensis.Exfat.Reader.{ExfatReader, read_fat_entry, ends_chain, walk_loop, walk_chain}
use forensis.Fat32.Reader.{contains}

-- From a cluster to the one that its entry names, which is no mark of an end.
abbrev pub IsLinked : ExfatReader → ℕ → List ℕ → Type 0
IsLinked reader c [] = Unit {0}
IsLinked reader c (d ∷ rest) =
    (read_fat_entry reader c ≡ ok d) × (ends_chain d ≡ false) × IsLinked reader d rest

-- What the rounds from a cluster on add to the chain.
Added : ExfatReader → ℕ → List ℕ → List ℕ → Type 0
Added reader cluster chain result =
    (rest : List ℕ) × (result ≡ chain ++ (cluster ∷ rest)) × IsLinked reader cluster rest

Added-one :
    (reader : ExfatReader) (cluster : ℕ) (chain result : List ℕ)
    → ok (chain ++ (cluster ∷ [])) ≡ ok result
    → Added reader cluster chain result
unfolding Added
Added-one reader cluster chain result h = ([], sym (ok_inj h), tt)

Added-more :
    (reader : ExfatReader) (cluster entry : ℕ) (chain result : List ℕ)
    → read_fat_entry reader cluster ≡ ok entry
    → ends_chain entry ≡ false
    → Added reader entry (chain ++ (cluster ∷ [])) result
    → Added reader cluster chain result
unfolding Added
Added-more reader cluster entry chain result read more (rest, eq, linked) =
    (entry ∷ rest, eq ∙ append_assoc chain (cluster ∷ []) (entry ∷ rest), (read, more, linked))

walk_loop-Added :
    (fuel : ℕ) (reader : ExfatReader) (max_clusters cluster : ℕ) (chain seen result : List ℕ)
    → walk_loop fuel reader max_clusters cluster chain seen ≡ ok result
    → Added reader cluster chain result
unfolding walk_loop
walk_loop-Added zero reader max_clusters cluster chain seen result e = absurd (cc e)
walk_loop-Added (suc fuel) reader max_clusters cluster chain seen result e =
    let pushed = chain ++ (cluster ∷ []) in
    elim (Bool-cases (leb max_clusters (length pushed) || contains seen cluster)) [
      | inl stop ↦ Added-one reader cluster chain result (rw stop at e)
      | inr go ↦
          let (entry, read, e') = >>=-eq-ok (read_fat_entry reader cluster) _ (rw go at e) in
          elim (Bool-cases (ends_chain entry)) [
            | inl stop ↦ Added-one reader cluster chain result (rw stop at e')
            | inr more ↦ Added-more reader cluster entry chain result read more (
                walk_loop-Added fuel reader max_clusters entry pushed (cluster ∷ seen) result
                  (rw more at e'))
          ]
    ]

-- A chain that an exFAT walk from a cluster other than zero returns begins with that cluster, and each
-- further cluster is what the table entry of the one before it holds, an entry that is no mark of an
-- end.
pub walk_exfat_chain-IsLinked :
    (reader : ExfatReader) (start_cluster max_clusters : ℕ) (result : List ℕ)
    → start_cluster ≢ 0
    → walk_chain reader start_cluster max_clusters ≡ ok result
    → (rest : List ℕ) × (result ≡ start_cluster ∷ rest) × IsLinked reader start_cluster rest
unfolding walk_chain Added
walk_exfat_chain-IsLinked reader start_cluster max_clusters result h e =
    let nonzero : (start_cluster == 0) ≡ false = ground arith in
    walk_loop-Added (max_clusters + 1) reader max_clusters start_cluster [] [] result
      (rw nonzero at e)
