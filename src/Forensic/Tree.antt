-- ===== src/Forensic/Tree.antt =====
-- crates/forensis-core/src/forensic/tree.rs: the hierarchy of the entries of a model.
pub mod Building
pub mod Cycle
use forensis.Prelude.{
  Bool, List, Option, [], false, if◌then◌else◌, none, not, some, suc, true, zero, ℕ, ◌==◌, ◌||◌,
  ◌∷◌,
}
use forensis.Bytes.{bytes_eq}
use forensis.Text.{Text}
use forensis.Visited.{contains}
use forensis.Forensic.Model.{
  ForensicEntry, ForensicEntryKind, ForensicIdentity, file, directory, symlink, other,
}

-- A node has the fields of an identity, and its children.
mutual
  pub data ForensicTreeNode : Type 0 where
    node : ForensicIdentity → ForensicTreeNodes → ForensicTreeNode

  pub data ForensicTreeNodes : Type 0 where
    no_nodes : ForensicTreeNodes
    nodes : ForensicTreeNode → ForensicTreeNodes → ForensicTreeNodes

pub record ForensicTree : Type 0 where
  pub roots : ForensicTreeNodes

abbrev pub is_directory : ForensicEntryKind → Bool
is_directory directory = true
is_directory file = false
is_directory symlink = false
is_directory other = false

-- `parent_id == Some(object_id)`
abbrev pub is_parent : Option ℕ → ℕ → Bool
is_parent none object_id = false
is_parent (some parent) object_id = parent == object_id

abbrev pub cons_node : Option ForensicTreeNode → Option ForensicTreeNodes → Option ForensicTreeNodes
cons_node none others = none
cons_node (some first) none = none
cons_node (some first) (some others) = some (nodes first others)

abbrev pub with_children : ForensicIdentity → Option ForensicTreeNodes → Option ForensicTreeNode
with_children identity none = none
with_children identity (some children) = some (node identity children)

-- An entry without a parent, or that is its own, or whose parent was not found.
abbrev pub is_root : List ℕ → ℕ → Option ℕ → Bool
is_root ids object_id none = true
is_root ids object_id (some parent) = parent == object_id || not (contains parent ids)

abbrev make_tree : Option ForensicTreeNodes → Option ForensicTree
make_tree none = none
make_tree (some roots) = some (record { roots = roots })

module _ {T : Type 0} where
  -- The identifiers of some entries.
  abbrev pub object_ids : List (ForensicEntry T) → List ℕ
  object_ids [] = []
  object_ids (entry ∷ entries) = entry.identity.object_id ∷ object_ids entries

  -- The loop over the possible children; `build` is `build_node`.
  unfoldable pub children_loop :
      (ForensicEntry T → Option ForensicTreeNode)
      → ForensicEntry T
      → List (ForensicEntry T)
      → Option ForensicTreeNodes
  children_loop build entry [] = some no_nodes
  children_loop build entry (child ∷ children) =
      let rest = children_loop build entry children in
      if child.identity.object_id == entry.identity.object_id
      then rest
      else if is_parent child.hierarchy.parent_id entry.identity.object_id
      then cons_node (build child) rest
      else rest

  -- `build_node`; `none` where the fuel is used up.
  unfoldable pub build_node : ℕ → List (ForensicEntry T) → ForensicEntry T → Option ForensicTreeNode
  build_node zero entries entry = none
  build_node (suc fuel) entries entry =
      let children = children_loop (λ child. build_node fuel entries child) entry entries in
      if is_directory entry.identity.kind
      then with_children entry.identity children
      else some (node entry.identity no_nodes)

  unfoldable pub roots_loop :
      ℕ → List (ForensicEntry T) → List (ForensicEntry T) → Option ForensicTreeNodes
  roots_loop fuel entries [] = some no_nodes
  roots_loop fuel entries (entry ∷ rest) =
      let others = roots_loop fuel entries rest in
      if is_root (object_ids entries) entry.identity.object_id entry.hierarchy.parent_id
      then cons_node (build_node fuel entries entry) others
      else others

  -- `ForensicTree::from_entries`, with a bound on the depth.
  unfoldable pub from_entries : ℕ → List (ForensicEntry T) → Option ForensicTree
  from_entries fuel entries = make_tree (roots_loop fuel entries entries)

-- The first of two results.
abbrev or_else : Option ForensicTreeNode → Option ForensicTreeNode → Option ForensicTreeNode
or_else none second = second
or_else (some found) second = some found

-- `find_node` and `ForensicTreeNode::find_path`, by a test on the identity.
unfoldable mutual
  pub find_node : (ForensicIdentity → Bool) → ForensicTreeNode → Option ForensicTreeNode
  find_node test (node identity children) =
      if test identity then some (node identity children) else find_nodes test children

  pub find_nodes : (ForensicIdentity → Bool) → ForensicTreeNodes → Option ForensicTreeNode
  find_nodes test no_nodes = none
  find_nodes test (nodes first others) = or_else (find_node test first) (find_nodes test others)

-- `ForensicTree::find`
abbrev pub find : ForensicTree → ℕ → Option ForensicTreeNode
find tree object_id =
    find_nodes (λ (identity : ForensicIdentity). identity.object_id == object_id) tree.roots

abbrev normalized : Text → Text
normalized [] = 0x2f ∷ []
normalized (c ∷ path) = c ∷ path

-- `ForensicTree::find_path`
abbrev pub find_path : ForensicTree → Text → Option ForensicTreeNode
find_path tree path =
    find_nodes (λ (identity : ForensicIdentity). bytes_eq identity.path (normalized path))
      tree.roots
