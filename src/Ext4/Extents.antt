-- ===== src/Ext4/Extents.antt =====
-- crates/forensis-core/src/filesystem/ext4/extent.rs, extent_header.rs, extent_index.rs and
-- extent_tree.rs: the blocks of a file. The `i_block` area of an inode is its bytes.
pub mod Sorting
pub mod Order
use forensis.Prelude.{
  Bool, List, Result, [], err, fail_if, if◌then◌else◌, invalid_format, leb, length, ltb, min, not,
  ok, panic, suc, zero, ℕ, ◌%◌, ◌*◌, ◌++◌, ◌+◌, ◌==◌, ◌>>=◌, ◌>>◌, ◌^◌, ◌∷◌,
}
use forensis.Bytes.{read_le, slice}
use forensis.Ext4.{Ext4Reader, Ext4Superblock, read_block}

pub record Ext4Extent : Type 0 where
  pub logical_block : ℕ
  pub physical_block : ℕ
  pub size : ℕ
  pub initialized : Bool

abbrev pub extent_size : ℕ
extent_size = 12

-- `Ext4Extent::parse`; the masks 0x8000 and 0x7FFF split the length at its highest bit.
unfoldable pub parse_extent : List ℕ → Result Ext4Extent
parse_extent content = do
  fail_if (ltb (length content) extent_size) (invalid_format "Invalid EXT4 extent")
  logical_block ← read_le 4 content 0
  raw_length ← read_le 2 content 4
  physical_low ← read_le 4 content 8
  physical_high ← read_le 2 content 6
  ok (record {
    logical_block = logical_block;
    physical_block = physical_high * 2 ^ 32 + physical_low;
    size = raw_length % 2 ^ 15;
    initialized = ltb raw_length (2 ^ 15);
  })

pub record Ext4ExtentHeader : Type 0 where
  pub magic : ℕ
  pub entries : ℕ
  pub max : ℕ
  pub depth : ℕ
  pub generation : ℕ

abbrev pub header_size : ℕ
header_size = 12

abbrev pub header_magic : ℕ
header_magic = 0xf30a

-- `Ext4ExtentHeader::parse`
unfoldable pub parse_header : List ℕ → Result Ext4ExtentHeader
parse_header content = do
  fail_if (ltb (length content) header_size)
      (invalid_format "Invalid EXT4 extent header: insufficient data")
  magic ← read_le 2 content 0
  fail_if (not (magic == header_magic)) (invalid_format "Invalid EXT4 extent header magic")
  entries ← read_le 2 content 2
  max ← read_le 2 content 4
  depth ← read_le 2 content 6
  generation ← read_le 4 content 8
  fail_if (ltb max entries) (invalid_format "Invalid EXT4 extent header: entries exceed maximum")
  ok (record {
    magic = magic;
    entries = entries;
    max = max;
    depth = depth;
    generation = generation;
  })

pub record Ext4ExtentIndex : Type 0 where
  pub logical_block : ℕ
  pub leaf_block : ℕ

abbrev pub index_size : ℕ
index_size = 12

-- `Ext4ExtentIndex::parse`
unfoldable pub parse_index : List ℕ → Result Ext4ExtentIndex
parse_index content = do
  fail_if (ltb (length content) index_size)
      (invalid_format "Invalid EXT4 extent index: insufficient data")
  logical_block ← read_le 4 content 0
  leaf_low ← read_le 4 content 4
  leaf_high ← read_le 2 content 8
  ok (record { logical_block = logical_block; leaf_block = leaf_high * 2 ^ 32 + leaf_low })

abbrev pub max_extent_tree_depth : ℕ
max_extent_tree_depth = 5

-- The loop of `read_leaf_entries`, with the rounds that are left.
unfoldable pub leaf_loop : ℕ → List ℕ → ℕ → List Ext4Extent → Result (List Ext4Extent)
leaf_loop zero content offset extents = ok extents
leaf_loop (suc left) content offset extents = do
  fail_if (ltb (length content) (offset + extent_size)) (invalid_format "Input read buffer size")
  part ← slice content offset (offset + extent_size)
  extent ← parse_extent part
  leaf_loop left content (offset + extent_size) (extents ++ (extent ∷ []))

-- The loop of `resolve_node` over the indexes, with the rounds that are left; `descend` resolves a
-- child.
unfoldable pub index_loop :
    (ℕ → Result (List ℕ))
    → (List ℕ → List Ext4Extent → Result (List Ext4Extent))
    → ℕ
    → List ℕ
    → ℕ
    → List Ext4Extent
    → Result (List Ext4Extent)
index_loop read descend zero content offset extents = ok extents
index_loop read descend (suc left) content offset extents = do
  fail_if (ltb (length content) (offset + index_size)) (invalid_format "Input read buffer size")
  part ← slice content offset (offset + index_size)
  index ← parse_index part
  child ← read index.leaf_block
  found ← descend child extents
  index_loop read descend left content (offset + index_size) found

-- The `match` on a header: a node without one adds nothing.
unfoldable pub with_header :
    Result Ext4ExtentHeader
    → (Ext4ExtentHeader → Result (List Ext4Extent))
    → List Ext4Extent
    → Result (List Ext4Extent)
with_header (ok header) resolve extents = resolve header
with_header (err error) resolve extents = ok extents
with_header panic resolve extents = panic

-- `resolve_node`, by the depth that is left; `read` is `read_block` on the volume.
unfoldable pub resolve_node :
    (ℕ → Result (List ℕ)) → ℕ → List ℕ → List Ext4Extent → Result (List Ext4Extent)
resolve_node read zero content extents =
    with_header (parse_header content)
      (λ header.
        if header.depth == 0
        then leaf_loop header.entries content header_size extents
        else ok extents)
      extents
resolve_node read (suc depth) content extents =
    let descend =
      λ (child : List ℕ) (found : List Ext4Extent). resolve_node read depth child found in
    with_header (parse_header content)
      (λ header.
        let below = index_loop read descend header.entries content header_size extents in
        if header.depth == 0 then leaf_loop header.entries content header_size extents else below)
      extents

-- `sort_by_key(|extent| extent.logical_block())`, which keeps the order of equal keys.
unfoldable pub insert_extent : Ext4Extent → List Ext4Extent → List Ext4Extent
insert_extent extent [] = extent ∷ []
insert_extent extent (first ∷ extents) =
    let later = insert_extent extent extents in
    if leb extent.logical_block first.logical_block then extent ∷ first ∷ extents else first ∷ later

unfoldable pub sort_extents : List Ext4Extent → List Ext4Extent
unfolding insert_extent
sort_extents [] = []
sort_extents (extent ∷ extents) = insert_extent extent (sort_extents extents)

-- `resolve_extents`, of the `i_block` area of an inode.
unfoldable pub resolve_extents : Ext4Reader → Ext4Superblock → List ℕ → Result (List Ext4Extent)
resolve_extents ext4 superblock root =
    with_header (parse_header root)
      (λ header.
        resolve_node (read_block ext4 superblock) (min header.depth max_extent_tree_depth) root []
        >>= λ extents. ok (sort_extents extents))
      []
