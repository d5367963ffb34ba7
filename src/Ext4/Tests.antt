-- ===== src/Ext4/Tests.antt =====
-- The theorem on extents at a concrete inode.
mod Groups
use forensis.Prelude.{Holds, List, [], arith, ok, plumbing, refl, replicate, true, ℕ, ◌∷◌, ◌≡◌}
use forensis.Bytes.{read_le, slice}
use forensis.Source.{ImageReader, readable_image, image-IsTotal}
use forensis.Ext4.{Ext4Reader, Ext4Superblock}
use forensis.Ext4.Extents.{
  parse_extent, parse_header, leaf_loop, with_header, resolve_node, insert_extent, sort_extents,
  resolve_extents,
}
use forensis.Ext4.Extents.Order.{IsOrdered, found_extents, resolve_extents-Holds}

-- Two extents that stand in the wrong order.
abbrev root : List ℕ
root =
    0x0a
    ∷ 0xf3
    ∷ 2
    ∷ 0
    ∷ 4
    ∷ 0
    ∷ 0
    ∷ 0
    ∷ 0
    ∷ 0
    ∷ 0
    ∷ 0
    ∷ 4
    ∷ 0
    ∷ 0
    ∷ 0
    ∷ 2
    ∷ 0
    ∷ 0
    ∷ 0
    ∷ 200
    ∷ 0
    ∷ 0
    ∷ 0
    ∷ 0
    ∷ 0
    ∷ 0
    ∷ 0
    ∷ 4
    ∷ 0
    ∷ 0
    ∷ 0
    ∷ 100
    ∷ 0
    ∷ 0
    ∷ 0
    ∷ replicate 24 0

abbrev image : ImageReader
image = record { file = replicate 16 0; image_size = 16 }

abbrev ext4 : Ext4Reader
ext4 = record { reader = readable_image image; partition_offset = 0 }

abbrev superblock : Ext4Superblock
superblock = record {
  inodes_count = 16;
  blocks_count = 8;
  free_blocks_count = 0;
  free_inodes_count = 0;
  first_data_block = 0;
  log_block_size = 2;
  blocks_per_group = 32;
  inodes_per_group = 16;
  inode_size = 256;
  magic = 0xef53;
}

resolves_root :
    resolve_extents ext4 superblock root
    ≡ ok (
        record { logical_block = 0; physical_block = 100; size = 4; initialized = true }
        ∷ record { logical_block = 4; physical_block = 200; size = 2; initialized = true }
        ∷ [])
unfolding resolve_extents with_header parse_header resolve_node leaf_loop parse_extent sort_extents
    insert_extent read_le slice plumbing
resolves_root = refl

resolve_extents-Holds_example :
    Holds (IsOrdered (found_extents ext4 superblock root)) (resolve_extents ext4 superblock root)
resolve_extents-Holds_example =
    resolve_extents-Holds ext4 superblock root (image-IsTotal image (omega arith)) (omega arith)
      (omega arith)
