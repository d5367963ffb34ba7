-- ===== src/Forensic/Tree/Cycle.antt =====
-- Entries of the same object with different parents, as hard links make them, can have no tree.
use forensis.Prelude.{
  List, Option, [], arith, false, get_elem?, none, refl, some, suc, true, zero, ℕ, ◌==◌, ◌∷◌, ◌≡◌,
}
use forensis.Forensic.Model.{ForensicEntry}
use forensis.Forensic.Tree.{
  ForensicTreeNode, object_ids, children_loop, build_node, is_root, is_parent, is_directory,
  cons_node, roots_loop, from_entries,
}

cons_node-none : (first : Option ForensicTreeNode) → cons_node first none ≡ none
cons_node-none none = refl
cons_node-none (some t) = refl

module _ {T : Type 0} where
  -- A directory, and one of the entries below it.
  pub record IsBelow (entries : List (ForensicEntry T)) (entry child : ForensicEntry T)
      : Type 0 where
    pub place : ℕ
    pub listed : get_elem? entries place ≡ some child
    pub directory : is_directory entry.identity.kind ≡ true
    pub distinct : (child.identity.object_id == entry.identity.object_id) ≡ false
    pub parent : is_parent child.hierarchy.parent_id entry.identity.object_id ≡ true

  -- A child that is not built leaves its parent unbuilt.
  children_loop-none :
      (build : ForensicEntry T → Option ForensicTreeNode) (entry child : ForensicEntry T)
      (children : List (ForensicEntry T)) (place : ℕ)
      → get_elem? children place ≡ some child
      → (child.identity.object_id == entry.identity.object_id) ≡ false
      → is_parent child.hierarchy.parent_id entry.identity.object_id ≡ true
      → build child ≡ none
      → children_loop build entry children ≡ none
  unfolding children_loop
  children_loop-none build entry child [] place l d p n = absurd (cc l)
  children_loop-none build entry child (first ∷ children) zero l d p n =
      let same : first ≡ child = cc l in rw (same, d, p, n) refl
  children_loop-none build entry child (first ∷ children) (suc place) l d p n =
      let rest = children_loop-none build entry child children place l d p n in
      rw (rest, cons_node-none (build first)) (ground arith)

  -- A directory above an entry that is not built is not built.
  build_node-none :
      (fuel : ℕ) (entries : List (ForensicEntry T)) (entry child : ForensicEntry T)
      → IsBelow entries entry child
      → build_node fuel entries child ≡ none
      → build_node (suc fuel) entries entry ≡ none
  unfolding build_node
  build_node-none fuel entries entry child b n =
      let children =
        children_loop-none (λ c. build_node fuel entries c) entry child entries b.place b.listed
          b.distinct b.parent n in
      rw (b.directory, children) refl

  -- Two directories below each other have no nodes, however deep the recursion may go.
  build_node-cycle :
      (fuel : ℕ) (entries : List (ForensicEntry T)) (first second : ForensicEntry T)
      → IsBelow entries first second
      → IsBelow entries second first
      → (build_node fuel entries first ≡ none) × (build_node fuel entries second ≡ none)
  unfolding build_node
  build_node-cycle zero entries first second b b' = (refl, refl)
  build_node-cycle (suc fuel) entries first second b b' =
      let (n, n') = build_node-cycle fuel entries first second b b' in
      (
        build_node-none fuel entries first second b n',
        build_node-none fuel entries second first b' n,
      )

  roots_loop-none :
      (fuel : ℕ) (entries rest : List (ForensicEntry T)) (root : ForensicEntry T) (place : ℕ)
      → get_elem? rest place ≡ some root
      → is_root (object_ids entries) root.identity.object_id root.hierarchy.parent_id ≡ true
      → build_node fuel entries root ≡ none
      → roots_loop fuel entries rest ≡ none
  unfolding roots_loop
  roots_loop-none fuel entries [] root place l r n = absurd (cc l)
  roots_loop-none fuel entries (first ∷ rest) root zero l r n =
      let same : first ≡ root = cc l in rw (same, r, n) refl
  roots_loop-none fuel entries (first ∷ rest) root (suc place) l r n =
      let others = roots_loop-none fuel entries rest root place l r n in
      rw (others, cons_node-none (build_node fuel entries first)) (ground arith)

  root_unbuilt :
      (fuel : ℕ) (entries : List (ForensicEntry T)) (root branch first second : ForensicEntry T)
      → IsBelow entries root branch
      → IsBelow entries branch second
      → IsBelow entries second first
      → IsBelow entries first second
      → build_node fuel entries root ≡ none
  unfolding build_node
  root_unbuilt zero entries root branch first second b c d e = refl
  root_unbuilt (suc zero) entries root branch first second b c d e =
      build_node-none zero entries root branch b refl
  root_unbuilt (suc (suc n)) entries root branch first second b c d e =
      build_node-none (suc n) entries root branch b
        (build_node-none n entries branch second c (build_node-cycle n entries first second e d).1)

  -- Where an entry of the same directory appears below a root and below a directory that it contains
  -- itself, as after a hard link or in a damaged filesystem, building the tree does not end: no depth
  -- is enough.
  pub from_entries-cycle :
      (fuel : ℕ) (entries : List (ForensicEntry T)) (root branch first second : ForensicEntry T)
      (place : ℕ)
      → get_elem? entries place ≡ some root
      → is_root (object_ids entries) root.identity.object_id root.hierarchy.parent_id ≡ true
      → IsBelow entries root branch
      → IsBelow entries branch second
      → IsBelow entries second first
      → IsBelow entries first second
      → from_entries fuel entries ≡ none
  unfolding from_entries
  from_entries-cycle fuel entries root branch first second place l r b c d e =
      rw
        (roots_loop-none fuel entries entries root place l r
          (root_unbuilt fuel entries root branch first second b c d e))
        refl
