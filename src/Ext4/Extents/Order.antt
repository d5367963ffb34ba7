-- ===== src/Ext4/Extents/Order.antt =====
-- The blocks of a file come in order, from any bytes.
use mathlib.Core.List.{Perm}
use mathlib.Core.List.Perm
use forensis.Ext4.Extents.Sorting.{AreSorted, sort-AreSorted, sort-All, sort-perm}
use forensis.Prelude.{
  All, All-append, Holds, Holds-bind, Holds-fail_if, Holds-if, Holds-ok, Holds-ok_or, Holds-some,
  Holds-weaken, List, Result, [], arith, err, length, ltb, min, ok, panic, refl, suc, zero, ℕ, ◌++◌,
  ◌+◌, ◌<◌, ◌==◌, ◌>>=◌, ◌^◌, ◌∷◌, ◌≡◌, ◌≤◌,
}
use forensis.Bytes.{AreBytes}
use forensis.Bytes.Laws.{read_le-Holds, slice-Holds}
use forensis.Source.{IsTotal}
use forensis.Ext4.{Ext4Reader, Ext4Superblock, block_size, block_offset, read_block}
use forensis.Ext4.Extents.{
  Ext4Extent, Ext4ExtentHeader, parse_extent, parse_header, parse_index, leaf_loop, index_loop,
  with_header, resolve_node, sort_extents, resolve_extents, max_extent_tree_depth,
}

-- The fields of an extent are as wide as on the disk.
abbrev pub IsExtent : Ext4Extent → Type 0
IsExtent extent =
    (extent.logical_block < 2 ^ 32) × (extent.physical_block < 2 ^ 48) × (extent.size < 2 ^ 15)

parse_extent-Holds : (content : List ℕ) → AreBytes content → Holds IsExtent (parse_extent content)
unfolding parse_extent
parse_extent-Holds content b = Holds-fail_if _ _ _ λ enough.
    let room : 12 ≤ length content = ground arith in
    Holds-bind _ _ (read_le-Holds 4 content 0 b (omega arith)) λ logical l _.
      Holds-bind _ _ (read_le-Holds 2 content 4 b (omega arith)) λ raw r _.
        Holds-bind _ _ (read_le-Holds 4 content 8 b (omega arith)) λ low p _.
          Holds-bind _ _ (read_le-Holds 2 content 6 b (omega arith))
            λ high q _. Holds-ok _ (omega (arith, l), omega (arith, p, q), omega arith)

parse_header-Holds :
    (content : List ℕ) → AreBytes content → Holds (λ _. Unit {0}) (parse_header content)
unfolding parse_header
parse_header-Holds content b = Holds-fail_if _ _ _ λ enough.
    let room : 12 ≤ length content = ground arith in
    Holds-bind _ _ (read_le-Holds 2 content 0 b (omega arith)) λ _ _ _. Holds-fail_if _ _ _ λ _.
      Holds-bind _ _ (read_le-Holds 2 content 2 b (omega arith)) λ _ _ _.
        Holds-bind _ _ (read_le-Holds 2 content 4 b (omega arith)) λ _ _ _.
          Holds-bind _ _ (read_le-Holds 2 content 6 b (omega arith)) λ _ _ _.
            Holds-bind _ _ (read_le-Holds 4 content 8 b (omega arith))
              λ _ _ _. Holds-fail_if _ _ _ λ _. Holds-ok _ tt

parse_index-Holds :
    (content : List ℕ) → AreBytes content → Holds (λ _. Unit {0}) (parse_index content)
unfolding parse_index
parse_index-Holds content b = Holds-fail_if _ _ _ λ enough.
    let room : 12 ≤ length content = ground arith in
    Holds-bind _ _ (read_le-Holds 4 content 0 b (omega arith)) λ _ _ _.
      Holds-bind _ _ (read_le-Holds 4 content 4 b (omega arith))
        λ _ _ _. Holds-bind _ _ (read_le-Holds 2 content 8 b (omega arith)) λ _ _ _. Holds-ok _ tt

leaf_loop-Holds :
    (left : ℕ) (content : List ℕ) (offset : ℕ) (extents : List Ext4Extent)
    → AreBytes content
    → All IsExtent extents
    → Holds (All IsExtent) (leaf_loop left content offset extents)
unfolding leaf_loop
leaf_loop-Holds zero content offset extents b w = Holds-ok _ w
leaf_loop-Holds (suc left) content offset extents b w = Holds-fail_if _ _ _ λ inside.
    let room : offset + 12 ≤ length content = ground arith in
    Holds-bind _ _ (slice-Holds content offset (offset + 12) b (omega arith) room) λ part p _.
      Holds-bind _ _ (parse_extent-Holds part p.0) λ extent e _.
        leaf_loop-Holds left content (offset + 12) (extents ++ (extent ∷ [])) b
          (All-append IsExtent extents (extent ∷ []) w (e, tt))

with_header-Holds :
    (found : Result Ext4ExtentHeader) (resolve : Ext4ExtentHeader → Result (List Ext4Extent))
    (extents : List Ext4Extent) {P : List Ext4Extent → Type 0}
    → Holds (λ _. Unit {0}) found
    → ((header : Ext4ExtentHeader) → Holds P (resolve header))
    → P extents
    → Holds P (with_header found resolve extents)
unfolding with_header
with_header-Holds (ok header) resolve extents f h w = h header
with_header-Holds (err error) resolve extents f h w = Holds-ok _ w
with_header-Holds panic resolve extents f h w = absurd (f.no_panic refl)

module _ (read : ℕ → Result (List ℕ)) (reads : (block : ℕ) → Holds AreBytes (read block)) where
  index_loop-Holds :
      (descend : List ℕ → List Ext4Extent → Result (List Ext4Extent))
      → ((child : List ℕ) (found : List Ext4Extent)
          → AreBytes child
          → All IsExtent found
          → Holds (All IsExtent) (descend child found))
      → (left : ℕ) (content : List ℕ) (offset : ℕ) (extents : List Ext4Extent) → AreBytes content
      → All IsExtent extents
      → Holds (All IsExtent) (index_loop read descend left content offset extents)
  unfolding index_loop
  index_loop-Holds descend d zero content offset extents b w = Holds-ok _ w
  index_loop-Holds descend d (suc left) content offset extents b w = Holds-fail_if _ _ _ λ inside.
      let room : offset + 12 ≤ length content = ground arith in
      Holds-bind _ _ (slice-Holds content offset (offset + 12) b (omega arith) room) λ part p _.
        Holds-bind _ _ (parse_index-Holds part p.0) λ index _ _.
          Holds-bind _ _ (reads index.leaf_block) λ child c _.
            Holds-bind _ _ (d child extents c w)
              λ found f _. index_loop-Holds descend d left content (offset + 12) found b f

  resolve_node-Holds :
      (depth : ℕ) (content : List ℕ) (extents : List Ext4Extent)
      → AreBytes content
      → All IsExtent extents
      → Holds (All IsExtent) (resolve_node read depth content extents)
  unfolding resolve_node
  resolve_node-Holds zero content extents b w =
      with_header-Holds _ _ extents (parse_header-Holds content b)
        (λ header.
          Holds-if (header.depth == 0) _ _
            (λ _. leaf_loop-Holds header.entries content 12 extents b w) (λ _. Holds-ok _ w))
        w
  resolve_node-Holds (suc depth) content extents b w =
      with_header-Holds _ _ extents (parse_header-Holds content b)
        (λ header.
          Holds-if (header.depth == 0) _ _
            (λ _. leaf_loop-Holds header.entries content 12 extents b w)
            (λ _.
              index_loop-Holds _ (λ child found c f. resolve_node-Holds depth child found c f)
                header.entries content 12 extents b w))
        w

block_size-Holds :
    (superblock : Ext4Superblock)
    → superblock.log_block_size < 32
    → Holds (λ _. Unit {0}) (block_size superblock)
unfolding block_size
block_size-Holds superblock h =
    Holds-if (ltb superblock.log_block_size 32) _ _ (λ _. Holds-ok _ tt)
      (λ e. absurd (ground (arith, e)))

block_offset-Holds :
    (ext4 : Ext4Reader) (superblock : Ext4Superblock) (block : ℕ)
    → superblock.log_block_size < 32
    → Holds (λ _. Unit {0}) (block_offset ext4 superblock block)
unfolding block_offset
block_offset-Holds ext4 superblock block h =
    Holds-bind _ _ (block_size-Holds superblock h)
      λ size _ _. Holds-fail_if _ _ _ λ _. Holds-ok_or _ _ _ λ relative _. Holds-some _ _ λ _ _. tt

read_block-Holds :
    (ext4 : Ext4Reader) (superblock : Ext4Superblock) (block : ℕ)
    → IsTotal ext4.reader
    → superblock.log_block_size < 32
    → Holds AreBytes (read_block ext4 superblock block)
unfolding read_block
read_block-Holds ext4 superblock block t h =
    Holds-bind _ _ (block_size-Holds superblock h) λ size _ _. Holds-fail_if _ _ _ λ _.
      Holds-bind _ _ (block_offset-Holds ext4 superblock block h)
        λ offset _ _. Holds-weaken _ (λ _ f. f.0) (t.fills offset size)

-- The extents of a file as they stand in the tree.
abbrev pub found_extents : Ext4Reader → Ext4Superblock → List ℕ → Result (List Ext4Extent)
found_extents ext4 superblock root =
    with_header (parse_header root)
      (λ header.
        resolve_node (read_block ext4 superblock) (min header.depth max_extent_tree_depth) root [])
      []

-- Extents in order, those that a search has found.
pub record IsOrdered (found : Result (List Ext4Extent)) (extents : List Ext4Extent) : Type 0 where
  pub sorted : AreSorted extents
  pub valid : All IsExtent extents
  pub original : List Ext4Extent
  pub search : found ≡ ok original
  pub same : Perm extents original

with_header-IsOrdered :
    (found : Result Ext4ExtentHeader) (resolve : Ext4ExtentHeader → Result (List Ext4Extent))
    → Holds (All IsExtent) (with_header found resolve [])
    → Holds
        (IsOrdered (with_header found resolve []))
        (with_header found (λ header. resolve header >>= λ extents. ok (sort_extents extents)) [])
unfolding with_header
with_header-IsOrdered (ok header) resolve h = Holds-bind _ _ h λ extents w e. Holds-ok _ (record {
  sorted = sort-AreSorted extents;
  valid = sort-All IsExtent extents w;
  original = extents;
  search = e;
  same = sort-perm extents;
})
with_header-IsOrdered (err error) resolve h =
    Holds-ok _ (record { sorted = tt; valid = tt; original = []; search = refl; same = Perm.rfl })
with_header-IsOrdered panic resolve h = absurd (h.no_panic refl)

-- From evidence that every read returns from or fails on, and a superblock whose block size can be
-- computed, the extents of any inode are resolved or refused without a panic; they are those of the
-- tree, in the order of their logical blocks, with blocks of 48 bits and lengths below 2 ^ 15.
pub resolve_extents-Holds :
    (ext4 : Ext4Reader) (superblock : Ext4Superblock) (root : List ℕ)
    → IsTotal ext4.reader
    → superblock.log_block_size < 32
    → AreBytes root
    → Holds (IsOrdered (found_extents ext4 superblock root)) (resolve_extents ext4 superblock root)
unfolding resolve_extents
resolve_extents-Holds ext4 superblock root t h b = with_header-IsOrdered (parse_header root) _ (
    with_header-Holds (parse_header root) _ [] (parse_header-Holds root b)
      (λ header.
        resolve_node-Holds (read_block ext4 superblock)
          (λ block. read_block-Holds ext4 superblock block t h)
          (min header.depth max_extent_tree_depth) root [] b tt)
      tt)
