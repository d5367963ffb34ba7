-- ===== src/Ext4/Filesystem.antt =====
-- crates/forensis-core/src/filesystem/ext4/filesystem.rs: a volume and its metadata.
pub mod Inodes
use forensis.Prelude.{
  List, Result, checked_add, fail_if, get_elem?, invalid_format, length, ltb, ok, ok_or, u64_mod, ℕ,
  ◌==◌, ◌>>=◌, ◌>>◌,
}
use forensis.Ext4.{Ext4Reader, Ext4Superblock}
use forensis.Ext4.Groups.{
  Ext4BlockGroupDescriptor, Ext4InodeTable, read_block_bitmap, read_block_group, read_inode_bitmap,
  read_inode_table, read_metadata,
}
use forensis.Ext4.Inode.{Ext4Inode, group_for_inode, locate, new_locator, parse_inode}

pub record Ext4Filesystem : Type 0 where
  pub superblock : Ext4Superblock
  pub block_groups : List Ext4BlockGroupDescriptor

-- `Ext4Filesystem::new`
unfoldable pub new_filesystem :
    Ext4Superblock → List Ext4BlockGroupDescriptor → Result Ext4Filesystem
new_filesystem superblock block_groups = do
  fail_if (length block_groups == 0) (invalid_format "EXT4 filesystem has no block groups")
  ok (record { superblock = superblock; block_groups = block_groups })

-- `Ext4Filesystem::open`
unfoldable pub open_filesystem : Ext4Reader → Result Ext4Filesystem
open_filesystem reader = do metadata ← read_metadata reader; new_filesystem metadata.0 metadata.1

-- `Ext4Filesystem::locate_inode`
unfoldable pub locate_inode : Ext4Filesystem → ℕ → Result (ℕ × ℕ × ℕ)
locate_inode filesystem inode_number = do
  fail_if (inode_number == 0) (invalid_format "EXT4 inode number cannot be zero")
  fail_if (ltb filesystem.superblock.inodes_count inode_number)
      (invalid_format "EXT4 inode number is outside the filesystem")
  locator ← new_locator filesystem.superblock filesystem.superblock.inode_size
  group ← group_for_inode locator inode_number
  descriptor ←
      ok_or (get_elem? filesystem.block_groups group)
        (invalid_format "EXT4 inode block group is outside the filesystem")
  locate locator inode_number descriptor.inode_table

-- `Ext4Reader::read_at`
unfoldable pub read_at : Ext4Reader → ℕ → ℕ → Result (List ℕ)
read_at ext4 offset n = do
  absolute ←
      ok_or (checked_add u64_mod ext4.partition_offset offset)
        (invalid_format "EXT4 read offset overflow")
  ext4.reader.read_at absolute n

-- `Ext4Filesystem::read_inode`
unfoldable pub read_inode : Ext4Filesystem → Ext4Reader → ℕ → Result Ext4Inode
read_inode filesystem reader inode_number = do
  place ← locate_inode filesystem inode_number
  fail_if (filesystem.superblock.inode_size == 0) (invalid_format "Invalid EXT4 inode size")
  content ← read_at reader place.2 filesystem.superblock.inode_size
  parse_inode content

-- The descriptor that the reads of a group's metadata begin with.
unfoldable pub group_descriptor : Ext4Filesystem → ℕ → Result Ext4BlockGroupDescriptor
group_descriptor filesystem group =
    ok_or (get_elem? filesystem.block_groups group)
      (invalid_format "EXT4 block group index out of bounds")

unfoldable pub group_block_bitmap : Ext4Filesystem → Ext4Reader → ℕ → Result (List ℕ)
group_block_bitmap filesystem reader group = do
  descriptor ← group_descriptor filesystem group
  read_block_bitmap reader filesystem.superblock descriptor

unfoldable pub group_inode_bitmap : Ext4Filesystem → Ext4Reader → ℕ → Result (List ℕ)
group_inode_bitmap filesystem reader group = do
  descriptor ← group_descriptor filesystem group
  read_inode_bitmap reader filesystem.superblock descriptor

unfoldable pub group_inode_table : Ext4Filesystem → Ext4Reader → ℕ → Result Ext4InodeTable
group_inode_table filesystem reader group = do
  descriptor ← group_descriptor filesystem group
  read_inode_table reader filesystem.superblock descriptor

unfoldable pub group_metadata :
    Ext4Filesystem → Ext4Reader → ℕ → Result (List ℕ × List ℕ × Ext4InodeTable)
group_metadata filesystem reader group = do
  descriptor ← group_descriptor filesystem group
  read_block_group reader filesystem.superblock descriptor
