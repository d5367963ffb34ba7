-- ===== src/Forensic/Tree/Building.antt =====
-- Where the parent of an object is unique, the tree is built.
use forensis.Prelude.{
  All, Bool-cases, List, Option, [], ap, arith, false, inl, inr, length, none, refl, some, suc, sym,
  true, zero, ℕ, ◌<◌, ◌==◌, ◌∙◌, ◌∷◌, ◌≡◌,
}
use forensis.Visited.{contains, unvisited, unvisited-nil, unvisited-lt}
use forensis.Forensic.Model.{ForensicEntry}
use forensis.Forensic.Tree.{
  ForensicTree, ForensicTreeNode, ForensicTreeNodes, node, no_nodes, nodes, object_ids,
  children_loop, build_node, cons_node, is_root, is_parent, is_directory, roots_loop, from_entries,
}

is_parent-eq :
    (parent_id : Option ℕ) (object_id : ℕ)
    → is_parent parent_id object_id ≡ true
    → parent_id ≡ some object_id
is_parent-eq none object_id e = absurd (cc e)
is_parent-eq (some parent) object_id e = ap some (ground (arith, e))

cons_node-ends :
    (first : Option ForensicTreeNode) (others : Option ForensicTreeNodes)
    → ((t : ForensicTreeNode) × (first ≡ some t))
    → ((ts : ForensicTreeNodes) × (others ≡ some ts))
    → (found : ForensicTreeNodes) × (cons_node first others ≡ some found)
cons_node-ends first others (t, e) (ts, e') = (nodes t ts, rw (e, e') refl)

module _ (ids : List ℕ) (parent_of : ℕ → Option ℕ) where
  -- The number of steps from an object up to a root.
  data IsDepth : ℕ → ℕ → Type 0 where
    at_top :
        (object_id : ℕ) → is_root ids object_id (parent_of object_id) ≡ true → IsDepth object_id 0
    deeper :
        (object_id parent n : ℕ)
        → parent_of object_id ≡ some parent
        → is_root ids object_id (some parent) ≡ false
        → IsDepth parent n
        → IsDepth object_id (suc n)

  same_depth : (object_id n m : ℕ) → IsDepth object_id n → IsDepth object_id m → n ≡ m
  same_depth object_id n m (at_top _ r) (at_top _ r') = refl
  same_depth object_id n m (at_top _ r) (deeper _ parent n' p r' d) = absurd (cc (r, p, r'))
  same_depth object_id n m (deeper _ parent n' p r d) (at_top _ r') = absurd (cc (r, p, r'))
  same_depth object_id n m (deeper _ parent n' p r d) (deeper _ parent' m' p' r' d') =
      let same : parent' ≡ parent = cc (p, p') in
      ap suc (same_depth parent n' m' d (rw (← same) d'))

  -- An object of a smaller depth.
  abbrev IsHigher : ℕ → ℕ → Type 0
  IsHigher n object_id = (m : ℕ) × IsDepth object_id m × (m < n)

  not_visited :
      (object_id n : ℕ) (visited : List ℕ)
      → IsDepth object_id n
      → All (IsHigher n) visited
      → contains object_id visited ≡ false
  not_visited object_id n [] d h = refl
  not_visited object_id n (v ∷ visited) d h = elim (Bool-cases (v == object_id)) [
    | inl same ↦
        let at : v ≡ object_id = ground (arith, same) in
        let (m, d', less) = h.0 in
        let depths = same_depth object_id n m d (rw (← at) d') in
        absurd (omega (arith, depths, less))
    | inr distinct ↦ rw distinct (not_visited object_id n visited d h.1)
  ]

  weaken_all :
      (n : ℕ) (visited : List ℕ) → All (IsHigher n) visited → All (IsHigher (suc n)) visited
  weaken_all n [] h = tt
  weaken_all n (v ∷ visited) h = ((h.0.0, h.0.1, omega (arith, h.0.2)), weaken_all n visited h.1)

  module _ {T : Type 0} where
    -- The entry's parent is its object's, and its object is one of the identifiers.
    abbrev IsKnown : ForensicEntry T → Type 0
    IsKnown entry =
        (entry.hierarchy.parent_id ≡ parent_of entry.identity.object_id)
        × (contains entry.identity.object_id ids ≡ true)

    children_loop-ends :
        (build : ForensicEntry T → Option ForensicTreeNode) (entry : ForensicEntry T)
        (children : List (ForensicEntry T))
        → All IsKnown children
        → ((child : ForensicEntry T)
            → IsKnown child
            → (child.identity.object_id == entry.identity.object_id) ≡ false
            → is_parent child.hierarchy.parent_id entry.identity.object_id ≡ true
            → (t : ForensicTreeNode) × (build child ≡ some t))
        → (found : ForensicTreeNodes) × (children_loop build entry children ≡ some found)
    unfolding children_loop
    children_loop-ends build entry [] k h = (no_nodes, refl)
    children_loop-ends build entry (child ∷ children) k h =
        let (others, e) = children_loop-ends build entry children k.1 h in
        elim (Bool-cases (child.identity.object_id == entry.identity.object_id)) [
          | inl same ↦ (others, rw same e)
          | inr distinct ↦
              elim (Bool-cases (is_parent child.hierarchy.parent_id entry.identity.object_id)) [
                | inl below ↦
                    let (found, f) =
                      cons_node-ends (build child) _ (h child k.0 distinct below) (others, e) in
                    (found, rw (distinct, below) f)
                | inr apart ↦ (others, rw (distinct, apart) e)
              ]
        ]

    module _ (entries : List (ForensicEntry T)) (known : All IsKnown entries) where
      -- A child lies one step deeper.
      child-IsDepth :
          (entry child : ForensicEntry T) (n : ℕ)
          → IsKnown entry
          → IsKnown child
          → IsDepth entry.identity.object_id n
          → (child.identity.object_id == entry.identity.object_id) ≡ false
          → is_parent child.hierarchy.parent_id entry.identity.object_id ≡ true
          → IsDepth child.identity.object_id (suc n)
      child-IsDepth entry child n k k' d distinct below =
          deeper child.identity.object_id entry.identity.object_id n
            (sym k'.0 ∙ is_parent-eq child.hierarchy.parent_id entry.identity.object_id below)
            (ground (arith, distinct, k.1)) d

      build_node-ends :
          (fuel : ℕ) (entry : ForensicEntry T) (visited : List ℕ) (n : ℕ)
          → IsKnown entry
          → IsDepth entry.identity.object_id n
          → All (IsHigher n) visited
          → unvisited visited ids < fuel
          → (tree : ForensicTreeNode) × (build_node fuel entries entry ≡ some tree)
      unfolding build_node
      build_node-ends zero entry visited n k d h f = absurd (omega arith)
      build_node-ends (suc fuel) entry visited n k d h f =
          let fresh = not_visited entry.identity.object_id n visited d h in
          let fewer = unvisited-lt entry.identity.object_id visited ids fresh k.1 in
          let (children, e) =
            children_loop-ends (λ child. build_node fuel entries child) entry entries known
              (λ child k' distinct below.
                build_node-ends fuel child (entry.identity.object_id ∷ visited) (suc n) k'
                  (child-IsDepth entry child n k k' d distinct below)
                  ((n, d, omega arith), weaken_all n visited h) (omega (arith, fewer))) in
          elim (Bool-cases (is_directory entry.identity.kind)) [
            | inl directory ↦ (node entry.identity children, rw (directory, e) refl)
            | inr leaf ↦ (node entry.identity no_nodes, rw leaf refl)
          ]

      roots_loop-ends :
          (fuel : ℕ) (rest : List (ForensicEntry T))
          → ids ≡ object_ids entries
          → length ids < fuel
          → All IsKnown rest
          → (found : ForensicTreeNodes) × (roots_loop fuel entries rest ≡ some found)
      unfolding roots_loop
      roots_loop-ends fuel [] i f k = (no_nodes, refl)
      roots_loop-ends fuel (entry ∷ rest) i f k =
          let (others, e) = roots_loop-ends fuel rest i f k.1 in
          elim (Bool-cases
            (is_root (object_ids entries) entry.identity.object_id entry.hierarchy.parent_id)) [
              | inl root ↦
                  let top : is_root ids entry.identity.object_id
                        (parent_of entry.identity.object_id)
                      ≡ true =
                    rw (i, ← k.0.0) root in
                  let built =
                    build_node-ends fuel entry [] 0 k.0 (at_top entry.identity.object_id top) tt
                      (omega (arith, unvisited-nil ids, f)) in
                  let (found, g) =
                    cons_node-ends (build_node fuel entries entry) _ built (others, e) in
                  (found, rw root g)
              | inr below ↦ (others, rw below e)
            ]

module _ {T : Type 0} where
  length-object_ids :
      (entries : List (ForensicEntry T)) → length (object_ids entries) ≡ length entries
  length-object_ids [] = refl
  length-object_ids (entry ∷ entries) = ap suc (length-object_ids entries)

  weaken-IsKnown :
      (parent_of : ℕ → Option ℕ) (id : ℕ) (ids : List ℕ) (entries : List (ForensicEntry T))
      → All (IsKnown ids parent_of) entries
      → All (IsKnown (id ∷ ids) parent_of) entries
  weaken-IsKnown parent_of id ids [] k = tt
  weaken-IsKnown parent_of id ids (entry ∷ entries) k =
      ((k.0.0, ground (arith, k.0.1)), weaken-IsKnown parent_of id ids entries k.1)

  all-IsKnown :
      (parent_of : ℕ → Option ℕ) (entries : List (ForensicEntry T))
      → All
          (λ (entry : ForensicEntry T).
            entry.hierarchy.parent_id ≡ parent_of entry.identity.object_id)
          entries
      → All (IsKnown (object_ids entries) parent_of) entries
  all-IsKnown parent_of [] h = tt
  all-IsKnown parent_of (entry ∷ entries) h = (
    (h.0, ground arith),
    weaken-IsKnown parent_of entry.identity.object_id (object_ids entries) entries
        (all-IsKnown parent_of entries h.1),
  )

  -- Where all the entries of an object have the same parent, the tree is built, and no branch of it
  -- is deeper than there are entries; the entries may be cyclic.
  pub from_entries-ends :
      (entries : List (ForensicEntry T)) (parent_of : ℕ → Option ℕ)
      → All
          (λ (entry : ForensicEntry T).
            entry.hierarchy.parent_id ≡ parent_of entry.identity.object_id)
          entries
      → (tree : ForensicTree) × (from_entries (suc (length entries)) entries ≡ some tree)
  unfolding from_entries
  from_entries-ends entries parent_of h =
      let (roots, e) =
        roots_loop-ends (object_ids entries) parent_of entries (all-IsKnown parent_of entries h)
          (suc (length entries)) entries refl (omega (arith, length-object_ids entries))
          (all-IsKnown parent_of entries h) in
      (record { roots = roots }, rw e refl)
