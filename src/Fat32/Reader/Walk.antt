-- ===== src/Fat32/Reader/Walk.antt =====
-- A chain that was walked follows the entries of the table.
use mathlib.Core.List.{append_assoc}
use forensis.Prelude.{
  >>-eq-ok, >>=-eq-ok, Bool-cases, List, [], ap, false, inl, inr, leb, length, ok, plumbing, refl,
  suc, sym, zero, ℕ, ◌++◌, ◌+◌, ◌||◌, ◌∙◌, ◌∷◌, ◌≡◌,
}
use forensis.Fat32.Reader.{Fat32Reader, read_fat_entry, contains, ends_chain, walk_loop, walk_chain}
use forensis.Fat32.Reader.Table.{entry_value, entry_value-read_fat_entry}

-- A walk that starts at a cluster and goes from each cluster to the one its entry names, which is
-- no mark of an end.
abbrev pub IsWalk : Fat32Reader → ℕ → List ℕ → Type 0
IsWalk reader start [] = ⊥
IsWalk reader start (c ∷ []) = c ≡ start
IsWalk reader start (c ∷ d ∷ rest) =
    (c ≡ start)
    × (entry_value reader c ≡ ok d)
    × (ends_chain d ≡ false)
    × IsWalk reader d (d ∷ rest)

IsWalk-same :
    (reader reader' : Fat32Reader) (start : ℕ) (chain : List ℕ)
    → ((c : ℕ) → entry_value reader' c ≡ entry_value reader c)
    → IsWalk reader' start chain
    → IsWalk reader start chain
IsWalk-same reader reader' start [] h w = w
IsWalk-same reader reader' start (c ∷ []) h w = w
IsWalk-same reader reader' start (c ∷ d ∷ rest) h w =
    (w.0, sym (h c) ∙ w.1, w.2, IsWalk-same reader reader' d (d ∷ rest) h w.3)

IsWalk-head :
    (reader : Fat32Reader) (d start : ℕ) (rest : List ℕ)
    → IsWalk reader start (d ∷ rest)
    → d ≡ start
IsWalk-head reader d start [] w = w
IsWalk-head reader d start (x ∷ rest) w = w.0

IsWalk-start :
    (reader : Fat32Reader) (d start : ℕ) (rest : List ℕ)
    → IsWalk reader start (d ∷ rest)
    → IsWalk reader d (d ∷ rest)
IsWalk-start reader d start [] w = refl
IsWalk-start reader d start (x ∷ rest) w = (refl, w.1, w.2, w.3)

IsWalk-cons :
    (reader : Fat32Reader) (c next : ℕ) (chain : List ℕ)
    → entry_value reader c ≡ ok next
    → ends_chain next ≡ false
    → IsWalk reader next chain
    → IsWalk reader c (c ∷ chain)
IsWalk-cons reader c next [] e n w = absurd w
IsWalk-cons reader c next (d ∷ rest) e n w =
    let same : d ≡ next = IsWalk-head reader d next rest w in
    (refl, rw same e, rw same n, IsWalk-start reader d next rest w)

value_of_read :
    (reader reader' : Fat32Reader) (c entry : ℕ)
    → read_fat_entry reader c ≡ ok (entry, reader')
    → entry_value reader c ≡ ok entry
unfolding entry_value plumbing
value_of_read reader reader' c entry e = rw e

-- What the rounds from a cluster on add to the chain.
Added : Fat32Reader → ℕ → List ℕ → List ℕ → Type 0
Added reader cluster chain result =
    (suffix : List ℕ) × (result ≡ chain ++ suffix) × IsWalk reader cluster suffix

Added-one :
    (reader r : Fat32Reader) (cluster : ℕ) (chain : List ℕ) (result : List ℕ × Fat32Reader)
    → ok (chain ++ (cluster ∷ []), r) ≡ ok result
    → Added reader cluster chain result.0
unfolding Added
Added-one reader r cluster chain result h =
    let same : (chain ++ (cluster ∷ []), r) ≡ result = cc h in
    (cluster ∷ [], sym (ap (λ (q : List ℕ × Fat32Reader). q.0) same), refl)

Added-more :
    (reader : Fat32Reader) (cluster : ℕ) (chain : List ℕ) (p : ℕ × Fat32Reader) (result : List ℕ)
    → read_fat_entry reader cluster ≡ ok p
    → ends_chain p.0 ≡ false
    → Added p.1 p.0 (chain ++ (cluster ∷ [])) result
    → Added reader cluster chain result
unfolding Added
Added-more reader cluster chain p result read more (suffix, eq, walk) = (
  cluster ∷ suffix,
  eq ∙ append_assoc chain (cluster ∷ []) suffix,
  IsWalk-cons reader cluster p.0 suffix (value_of_read reader p.1 cluster p.0 read) more (
      IsWalk-same reader p.1 p.0 suffix
        (λ c. entry_value-read_fat_entry reader p.1 cluster p.0 c read) walk),
)

walk_loop-Added :
    (fuel max_clusters cluster : ℕ) (chain seen : List ℕ) (reader : Fat32Reader)
    (result : List ℕ × Fat32Reader)
    → walk_loop fuel max_clusters cluster chain seen reader ≡ ok result
    → Added reader cluster chain result.0
unfolding walk_loop
walk_loop-Added zero max_clusters cluster chain seen reader result e = absurd (cc e)
walk_loop-Added (suc fuel) max_clusters cluster chain seen reader result e =
    let pushed = chain ++ (cluster ∷ []) in
    elim (Bool-cases (leb max_clusters (length pushed) || contains seen cluster)) [
      | inl stop ↦ Added-one reader _ cluster chain result (rw stop at e)
      | inr go ↦
          let (p, read, e') = >>=-eq-ok (read_fat_entry reader cluster) _ (rw go at e) in
          elim (Bool-cases (ends_chain p.0)) [
            | inl stop ↦ Added-one reader _ cluster chain result (rw stop at e')
            | inr more ↦ Added-more reader cluster chain p result.0 read more (
                walk_loop-Added fuel max_clusters p.0 pushed (cluster ∷ seen) p.1 result
                  (rw more at e'))
          ]
    ]

-- A chain that `walk_chain` returns begins with the start cluster, and each further cluster is the
-- one that the table entry of the cluster before it names, an entry that is no mark of an end.
pub walk_chain-IsWalk :
    (reader : Fat32Reader) (start_cluster max_clusters : ℕ) (result : List ℕ × Fat32Reader)
    → walk_chain reader start_cluster max_clusters ≡ ok result
    → IsWalk reader start_cluster result.0
unfolding walk_chain Added
walk_chain-IsWalk reader start_cluster max_clusters result e =
    let e' = >>-eq-ok _ _ e in
    let (suffix, eq, walk) =
      walk_loop-Added (max_clusters + 1) max_clusters start_cluster [] [] reader result e' in
    rw eq walk
