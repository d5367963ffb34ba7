-- ===== src/Forensic/Tests.antt =====
-- The theorems on the forensic tree at concrete inputs.
use forensis.Prelude.{List, Option, [], if◌then◌else◌, none, refl, some, ℕ, ◌==◌, ◌∷◌, ◌≡◌}
use forensis.Forensic.Model.{ForensicEntry, directory, normal, ntfs}
use forensis.Forensic.Tree.{
  ForensicTree, node, nodes, no_nodes, children_loop, build_node, roots_loop, from_entries,
}
use forensis.Forensic.Tree.Building.{from_entries-ends}
use forensis.Forensic.Tree.Cycle.{from_entries-cycle}

-- A directory of some identifier and parent.
abbrev directory_of : ℕ → ℕ → ForensicEntry (Unit {0})
directory_of object_id parent = record {
  identity = record {
    name = [];
    path = [];
    kind = directory;
    status = normal;
    object_id = object_id;
  };
  hierarchy = record { parent_id = some parent };
  metadata = record {
    real_size = none;
    allocated_size = none;
    created_at = none;
    modified_at = none;
    accessed_at = none;
  };
  filesystem = record { filesystem = ntfs; filesystem_object_id = object_id };
  allocation = record { allocated = none; cluster_count = none; bitmap_allocated = none };
  physical_location = record { regions = [] };
  content_layout = record { bytes_per_cluster = 0; segments = [] };
}

-- A chain of three directories, and two that are each other's parents.
abbrev chained : List (ForensicEntry (Unit {0}))
chained =
    directory_of 7 6
    ∷ directory_of 5 5
    ∷ directory_of 6 5
    ∷ directory_of 8 9
    ∷ directory_of 9 8
    ∷ []

abbrev parent_of : ℕ → Option ℕ
parent_of object_id =
    if object_id == 7
    then some 6
    else if object_id == 8
    then some 9
    else if object_id == 9
    then some 8
    else some 5

from_entries-ends_example : (tree : ForensicTree) × (from_entries 6 chained ≡ some tree)
from_entries-ends_example =
    from_entries-ends chained parent_of (refl, (refl, (refl, (refl, (refl, tt)))))

builds_chain :
    from_entries 6 chained
    ≡ some (record {
      roots =
          nodes
            (node (directory_of 5 5).identity (
              nodes
                (node
                  (directory_of 6 5).identity
                  (nodes (node (directory_of 7 6).identity no_nodes) no_nodes))
                no_nodes))
            no_nodes;
    })
unfolding from_entries roots_loop build_node children_loop
builds_chain = refl

-- The directory 6 below the root and below its own subdirectory 7.
abbrev linked : List (ForensicEntry (Unit {0}))
linked = directory_of 5 5 ∷ directory_of 6 5 ∷ directory_of 7 6 ∷ directory_of 6 7 ∷ []

from_entries-cycle_example : from_entries 1000 linked ≡ none
from_entries-cycle_example =
    from_entries-cycle 1000 linked (directory_of 5 5) (directory_of 6 5) (directory_of 6 7)
      (directory_of 7 6) 0 refl refl
      (record { place = 1; listed = refl; directory = refl; distinct = refl; parent = refl })
      (record { place = 2; listed = refl; directory = refl; distinct = refl; parent = refl })
      (record { place = 3; listed = refl; directory = refl; distinct = refl; parent = refl })
      (record { place = 2; listed = refl; directory = refl; distinct = refl; parent = refl })
