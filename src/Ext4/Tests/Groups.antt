-- ===== src/Ext4/Tests/Groups.antt =====
-- The theorems on directories, inodes and block groups at a small volume.
use forensis.Prelude.{
  All-replicate, Holds, IsByte, List, [], arith, div_ceil, get_elem?, length, ok, plumbing, refl,
  replicate, some, ℕ, ◌*◌, ◌+◌, ◌-◌, ◌<◌, ◌∷◌, ◌≡◌,
}
use forensis.Bytes.{AreBytes, read_le, byte_at, slice}
use forensis.Source.{ImageReader, readable_image, image-IsTotal}
use forensis.Ext4.{Ext4Reader, Ext4Superblock, block_size}
use forensis.Ext4.Directory.{parse_entry, block_loop, parse_block}
use forensis.Ext4.Inode.{
  Ext4InodeLocator, new_locator, locate, group_for_inode, index_in_group, inode_offset,
}
use forensis.Ext4.Groups.{Ext4BlockGroupDescriptor, read_block_groups, read_inode_table}
use forensis.Ext4.Groups.Tables.{CoversGroup, read_block_groups-Holds, read_inode_table-Holds}
use forensis.Ext4.Filesystem.{Ext4Filesystem, locate_inode}
use forensis.Ext4.Filesystem.Inodes.{locate_inode-place}
use forensis.Text.Utf8.{from_utf8_lossy}

-- A directory's block with the entries "." and "ab", both of twelve bytes.
abbrev block : List ℕ
block =
    2 ∷ 0 ∷ 0 ∷ 0 ∷ 12 ∷ 0 ∷ 1 ∷ 2 ∷ 0x2e ∷ 0 ∷ 0 ∷ 0 ∷ 11 ∷ 0 ∷ 0 ∷ 0 ∷ 12 ∷ 0 ∷ 2 ∷ 1 ∷ 0x61
    ∷ 0x62 ∷ 0 ∷ 0 ∷ []

two_entries :
    parse_block block
    ≡ ok (
        record { inode = 2; record_length = 12; name_length = 1; file_type = 2; name = 0x2e ∷ [] }
        ∷ record {
          inode = 11;
          record_length = 12;
          name_length = 2;
          file_type = 1;
          name = 0x61 ∷ 0x62 ∷ [];
        }
        ∷ [])
unfolding parse_block block_loop parse_entry read_le byte_at slice from_utf8_lossy plumbing
two_entries = refl

-- Blocks of 1024 bytes, and groups of four blocks and of eight inodes.
abbrev superblock : Ext4Superblock
superblock = record {
  inodes_count = 16;
  blocks_count = 9;
  free_blocks_count = 0;
  free_inodes_count = 0;
  first_data_block = 1;
  log_block_size = 0;
  blocks_per_group = 4;
  inodes_per_group = 8;
  inode_size = 128;
  magic = 0xef53;
}

abbrev locator : Ext4InodeLocator
locator = record { superblock = superblock; inode_size = 128 }

blocks_of_1024 : block_size superblock ≡ ok 1024
unfolding block_size
blocks_of_1024 = refl

abbrev image : ImageReader
image = record { file = replicate 6144 0; image_size = 6144 }

abbrev ext4 : Ext4Reader
ext4 = record { reader = readable_image image; partition_offset = 0 }

image-AreBytes : AreBytes (replicate 6144 0)
image-AreBytes = All-replicate IsByte 6144 0 (omega arith)

abbrev descriptor : Ext4BlockGroupDescriptor
descriptor = record {
  block_bitmap = 3;
  inode_bitmap = 4;
  inode_table = 5;
  free_blocks_count = 0;
  free_inodes_count = 0;
  used_dirs_count = 1;
}

read_block_groups-Holds_example :
    Holds
      (λ descriptors. length descriptors ≡ div_ceil (9 - 1) 4)
      (read_block_groups ext4 superblock)
read_block_groups-Holds_example =
    read_block_groups-Holds ext4 superblock (image-IsTotal image image-AreBytes) (omega arith)

read_inode_table-Holds_example :
    Holds (CoversGroup 8 128) (read_inode_table ext4 superblock descriptor)
read_inode_table-Holds_example =
    read_inode_table-Holds ext4 superblock descriptor (image-IsTotal image image-AreBytes)
      (omega arith)

abbrev filesystem : Ext4Filesystem
filesystem = record { superblock = superblock; block_groups = descriptor ∷ descriptor ∷ [] }

eleventh_inode : locate_inode filesystem 11 ≡ ok (1, 2, 5376)
unfolding locate_inode new_locator locate group_for_inode index_in_group inode_offset block_size
    plumbing
eleventh_inode = refl

locate_inode-place_example :
    (found : Ext4BlockGroupDescriptor) × (get_elem? filesystem.block_groups 1 ≡ some found)
    × ((◌≡◌ {A = ℕ} 11 (1 * 8 + 2 + 1)) × (2 < 8) × (5376 ≡ found.inode_table * 1024 + 2 * 128))
locate_inode-place_example =
    locate_inode-place filesystem 11 1024 (1, 2, 5376) blocks_of_1024 eleventh_inode
