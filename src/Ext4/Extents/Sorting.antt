-- ===== src/Ext4/Extents/Sorting.antt =====
-- The sort of extents.
use mathlib.Core.List.{Perm}
use mathlib.Core.List.Perm
use forensis.Prelude.{All, Bool-cases, List, [], arith, inl, inr, leb, ◌∷◌, ◌≤◌}
use forensis.Ext4.Extents.{Ext4Extent, insert_extent, sort_extents}

abbrev pub IsBefore : Ext4Extent → Ext4Extent → Type 0
IsBefore first second = first.logical_block ≤ second.logical_block

-- Each extent starts at or before all that follow.
abbrev pub AreSorted : List Ext4Extent → Type 0
AreSorted [] = Unit
AreSorted (extent ∷ extents) = All (IsBefore extent) extents × AreSorted extents

-- A property of one extent and all of some others is one of all after the insertion.
insert-All :
    (P : Ext4Extent → Type 0) (extent : Ext4Extent) (extents : List Ext4Extent)
    → P extent
    → All P extents
    → All P (insert_extent extent extents)
unfolding insert_extent
insert-All P extent [] p h = (p, tt)
insert-All P extent (first ∷ extents) p h =
    elim (Bool-cases (leb extent.logical_block first.logical_block)) [
      | inl before ↦ rw before (p, h)
      | inr behind ↦ rw behind (h.0, insert-All P extent extents p h.1)
    ]

weaken_first :
    (extent first : Ext4Extent) (extents : List Ext4Extent)
    → extent.logical_block ≤ first.logical_block
    → All (IsBefore first) extents
    → All (IsBefore extent) extents
weaken_first extent first [] le h = tt
weaken_first extent first (second ∷ extents) le h =
    (omega (arith, h.0), weaken_first extent first extents le h.1)

insert-AreSorted :
    (extent : Ext4Extent) (extents : List Ext4Extent)
    → AreSorted extents
    → AreSorted (insert_extent extent extents)
unfolding insert_extent
insert-AreSorted extent [] h = (tt, tt)
insert-AreSorted extent (first ∷ extents) h =
    elim (Bool-cases (leb extent.logical_block first.logical_block)) [
      | inl before ↦
          let le : extent.logical_block ≤ first.logical_block = ground (arith, before) in
          rw before ((le, weaken_first extent first extents le h.0), h)
      | inr behind ↦
          let le : first.logical_block ≤ extent.logical_block = ground (arith, behind) in
          rw behind
            (insert-All (IsBefore first) extent extents le h.0, insert-AreSorted extent extents h.1)
    ]

pub sort-AreSorted : (extents : List Ext4Extent) → AreSorted (sort_extents extents)
unfolding sort_extents
sort-AreSorted [] = tt
sort-AreSorted (extent ∷ extents) =
    insert-AreSorted extent (sort_extents extents) (sort-AreSorted extents)

pub sort-All :
    (P : Ext4Extent → Type 0) (extents : List Ext4Extent)
    → All P extents
    → All P (sort_extents extents)
unfolding sort_extents
sort-All P [] h = tt
sort-All P (extent ∷ extents) h =
    insert-All P extent (sort_extents extents) h.0 (sort-All P extents h.1)

insert-perm :
    (extent : Ext4Extent) (extents : List Ext4Extent)
    → Perm (insert_extent extent extents) (extent ∷ extents)
unfolding insert_extent
insert-perm extent [] = Perm.rfl
insert-perm extent (first ∷ extents) =
    elim (Bool-cases (leb extent.logical_block first.logical_block)) [
      | inl before ↦ rw before Perm.rfl
      | inr behind ↦ rw behind (
          Perm.trans (Perm.cons first (insert-perm extent extents))
            (Perm.swap extent first extents))
    ]

pub sort-perm : (extents : List Ext4Extent) → Perm (sort_extents extents) extents
unfolding sort_extents
sort-perm [] = Perm.rfl
sort-perm (extent ∷ extents) =
    Perm.trans (insert-perm extent (sort_extents extents)) (Perm.cons extent (sort-perm extents))
