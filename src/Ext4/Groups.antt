-- ===== src/Ext4/Groups.antt =====
-- crates/forensis-core/src/filesystem/ext4/block_group_descriptor.rs, block_group_table.rs,
-- block_bitmap.rs, inode_bitmap.rs and inode_table.rs, and the operations of reader.rs on them.
pub mod Tables
use Prim.Native.Nat.{bit_and}
use forensis.Prelude.{
  Bool, List, Result, [], checked_add, checked_mul, div_ceil, drop, fail_if, false, get_or,
  if◌then◌else◌, invalid_format, leb, length, ltb, mul, not, ok, ok_or, sub, suc, take, u64_mod,
  zero, ℕ, ◌%◌, ◌*◌, ◌+◌, ◌-◌, ◌/◌, ◌==◌, ◌>>=◌, ◌>>◌, ◌^◌, ◌∷◌,
}
use forensis.Bytes.{read_le, slice}
use forensis.Ext4.{
  Ext4Superblock, Ext4Reader, block_size, block_offset, read_block, read_superblock,
}

pub record Ext4BlockGroupDescriptor : Type 0 where
  pub block_bitmap : ℕ
  pub inode_bitmap : ℕ
  pub inode_table : ℕ
  pub free_blocks_count : ℕ
  pub free_inodes_count : ℕ
  pub used_dirs_count : ℕ

abbrev pub descriptor_size : ℕ
descriptor_size = 32

unfoldable pub parse_descriptor : List ℕ → Result Ext4BlockGroupDescriptor
parse_descriptor content = do
  fail_if (ltb (length content) descriptor_size)
      (invalid_format "Invalid EXT4 block group descriptor")
  block_bitmap ← read_le 4 content 0x00
  inode_bitmap ← read_le 4 content 0x04
  inode_table ← read_le 4 content 0x08
  free_blocks_count ← read_le 2 content 0x0c
  free_inodes_count ← read_le 2 content 0x0e
  used_dirs_count ← read_le 2 content 0x10
  ok (record {
    block_bitmap = block_bitmap;
    inode_bitmap = inode_bitmap;
    inode_table = inode_table;
    free_blocks_count = free_blocks_count;
    free_inodes_count = free_inodes_count;
    used_dirs_count = used_dirs_count;
  })

-- `data.chunks(32)` of so many whole chunks, and the loop over them.
unfoldable pub descriptors_loop : ℕ → List ℕ → Result (List Ext4BlockGroupDescriptor)
descriptors_loop zero content = ok []
descriptors_loop (suc chunks) content = do
  descriptor ← parse_descriptor (take 32 content)
  descriptors ← descriptors_loop chunks (drop 32 content)
  ok (descriptor ∷ descriptors)

-- `Ext4BlockGroupTable::parse`
unfoldable pub parse_table : List ℕ → Result (List Ext4BlockGroupDescriptor)
parse_table content = do
  fail_if (length content == 0) (invalid_format "Empty EXT4 block group descriptor table")
  fail_if (not (length content % 32 == 0))
      (invalid_format "Invalid EXT4 block group descriptor table size")
  descriptors_loop (length content / 32) content

-- `Ext4BlockBitmap::parse` and `Ext4InodeBitmap::parse`: the bytes of a bitmap.
unfoldable pub parse_block_bitmap : List ℕ → Result (List ℕ)
parse_block_bitmap content = do
  fail_if (length content == 0) (invalid_format "Empty EXT4 block bitmap")
  ok content

unfoldable pub parse_inode_bitmap : List ℕ → Result (List ℕ)
parse_inode_bitmap content = do
  fail_if (length content == 0) (invalid_format "Empty EXT4 inode bitmap")
  ok content

-- `Ext4BlockBitmap::is_allocated`
unfoldable pub is_block_allocated : List ℕ → ℕ → Bool
is_block_allocated bitmap block =
    if leb (length bitmap) (block / 8)
    then false
    else not (bit_and (get_or bitmap (block / 8) 0) (2 ^ (block % 8)) == 0)

-- `Ext4InodeBitmap::is_allocated`; inodes count from 1.
unfoldable pub is_inode_allocated : List ℕ → ℕ → Bool
is_inode_allocated bitmap inode =
    if inode == 0
    then false
    else if leb (length bitmap) ((inode - 1) / 8)
    then false
    else not (bit_and (get_or bitmap ((inode - 1) / 8) 0) (2 ^ ((inode - 1) % 8)) == 0)

-- `inode_count` of a bitmap.
abbrev pub bit_count : List ℕ → ℕ
bit_count bitmap = length bitmap * 8

pub record Ext4InodeTable : Type 0 where
  pub content : List ℕ
  pub inode_size : ℕ

-- `Ext4InodeTable::parse`
unfoldable pub parse_inode_table : List ℕ → ℕ → Result Ext4InodeTable
parse_inode_table content inode_size = do
  fail_if (length content == 0) (invalid_format "Empty EXT4 inode table")
  fail_if (inode_size == 0) (invalid_format "Invalid EXT4 inode size")
  fail_if (ltb (length content) inode_size) (invalid_format "EXT4 inode size exceeds table size")
  fail_if (not (length content % inode_size == 0))
      (invalid_format "EXT4 inode table contains incomplete inode data")
  ok (record { content = content; inode_size = inode_size })

abbrev pub inode_count : Ext4InodeTable → ℕ
inode_count table = length table.content / table.inode_size

-- `Ext4InodeTable::inode`; the end of an inode below the count is that of a slice in memory.
unfoldable pub table_inode : Ext4InodeTable → ℕ → Result (List ℕ)
table_inode table index = do
  fail_if (leb (inode_count table) index) (invalid_format "EXT4 inode index out of bounds")
  slice table.content (index * table.inode_size) (index * table.inode_size + table.inode_size)

-- `Ext4InodeTable::inode_offset`
unfoldable pub table_offset : Ext4InodeTable → ℕ → Result ℕ
table_offset table index = do
  fail_if (leb (inode_count table) index) (invalid_format "EXT4 inode index out of bounds")
  mul u64_mod index table.inode_size

-- `Ext4Reader::read_block_groups`
unfoldable pub read_block_groups :
    Ext4Reader → Ext4Superblock → Result (List Ext4BlockGroupDescriptor)
read_block_groups ext4 superblock = do
  size ← block_size superblock
  fail_if (size == 0) (invalid_format "Invalid EXT4 block size")
  fail_if (superblock.blocks_per_group == 0) (invalid_format "Invalid EXT4 blocks per group")
  fail_if (leb superblock.blocks_count superblock.first_data_block)
      (invalid_format "Invalid EXT4 block count")
  usable_blocks ← sub superblock.blocks_count superblock.first_data_block
  let group_count = div_ceil usable_blocks superblock.blocks_per_group
  fail_if (group_count == 0) (invalid_format "EXT4 filesystem has no block groups")
  table_size ←
      ok_or (checked_mul u64_mod group_count descriptor_size)
        (invalid_format "EXT4 block group table size overflow")
  table_relative_offset ←
      ok_or (checked_mul u64_mod (if size == 1024 then 2 else 1) size)
        (invalid_format "EXT4 block group table offset overflow")
  table_offset ←
      ok_or (checked_add u64_mod ext4.partition_offset table_relative_offset)
        (invalid_format "EXT4 block group table offset overflow")
  content ← ext4.reader.read_at table_offset table_size
  parse_table content

unfoldable pub read_block_bitmap :
    Ext4Reader → Ext4Superblock → Ext4BlockGroupDescriptor → Result (List ℕ)
read_block_bitmap ext4 superblock descriptor =
    read_block ext4 superblock descriptor.block_bitmap >>= λ content. parse_block_bitmap content

unfoldable pub read_inode_bitmap :
    Ext4Reader → Ext4Superblock → Ext4BlockGroupDescriptor → Result (List ℕ)
read_inode_bitmap ext4 superblock descriptor =
    read_block ext4 superblock descriptor.inode_bitmap >>= λ content. parse_inode_bitmap content

unfoldable pub read_inode_table :
    Ext4Reader → Ext4Superblock → Ext4BlockGroupDescriptor → Result Ext4InodeTable
read_inode_table ext4 superblock descriptor = do
  size ← block_size superblock
  fail_if (size == 0) (invalid_format "Invalid EXT4 block size")
  fail_if (superblock.inode_size == 0) (invalid_format "Invalid EXT4 inode size")
  fail_if (superblock.inodes_per_group == 0) (invalid_format "Invalid EXT4 inodes per group")
  inode_table_bytes ←
      ok_or (checked_mul u64_mod superblock.inodes_per_group superblock.inode_size)
        (invalid_format "EXT4 inode table size overflow")
  total_bytes ←
      ok_or (checked_mul u64_mod (div_ceil inode_table_bytes size) size)
        (invalid_format "EXT4 inode table size overflow")
  offset ← block_offset ext4 superblock descriptor.inode_table
  content ← ext4.reader.read_at offset total_bytes
  parse_inode_table content superblock.inode_size

unfoldable pub read_block_group :
    Ext4Reader
    → Ext4Superblock
    → Ext4BlockGroupDescriptor
    → Result (List ℕ × List ℕ × Ext4InodeTable)
read_block_group ext4 superblock descriptor = do
  block_bitmap ← read_block_bitmap ext4 superblock descriptor
  inode_bitmap ← read_inode_bitmap ext4 superblock descriptor
  inode_table ← read_inode_table ext4 superblock descriptor
  ok (block_bitmap, inode_bitmap, inode_table)

unfoldable pub read_metadata : Ext4Reader → Result (Ext4Superblock × List Ext4BlockGroupDescriptor)
read_metadata ext4 = do
  superblock ← read_superblock ext4
  block_groups ← read_block_groups ext4 superblock
  ok (superblock, block_groups)
