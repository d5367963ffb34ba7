-- ===== src/Ext4.antt =====
-- crates/forensis-core/src/filesystem/ext4: superblock.rs, and the reads of blocks of reader.rs.
pub mod Extents
pub mod Directory
pub mod Inode
pub mod Groups
pub mod Filesystem
mod Tests
use forensis.Prelude.{
  List, Result, checked_add, checked_mul, fail_if, if◌then◌else◌, invalid_format, length, ltb, not,
  ok, ok_or, panic, u32_mod, u64_mod, ℕ, ◌%◌, ◌*◌, ◌==◌, ◌>>=◌, ◌>>◌, ◌^◌,
}
use forensis.Bytes.{read_le}
use forensis.Source.{Readable}

abbrev pub superblock_size : ℕ
superblock_size = 1024

abbrev pub ext4_magic : ℕ
ext4_magic = 0xef53

pub record Ext4Superblock : Type 0 where
  pub inodes_count : ℕ
  pub blocks_count : ℕ
  pub free_blocks_count : ℕ
  pub free_inodes_count : ℕ
  pub first_data_block : ℕ
  pub log_block_size : ℕ
  pub blocks_per_group : ℕ
  pub inodes_per_group : ℕ
  pub inode_size : ℕ
  pub magic : ℕ

-- `Ext4Superblock::parse`
unfoldable pub parse : List ℕ → Result Ext4Superblock
parse content = do
  fail_if (ltb (length content) superblock_size)
      (invalid_format "Invalid EXT4 superblock: insufficient data")
  magic ← read_le 2 content 0x38
  fail_if (not (magic == ext4_magic)) (invalid_format "Invalid EXT4 superblock magic")
  inodes_count ← read_le 4 content 0
  blocks_count ← read_le 4 content 0x04
  free_blocks_count ← read_le 4 content 0x0c
  free_inodes_count ← read_le 4 content 0x10
  first_data_block ← read_le 4 content 0x14
  log_block_size ← read_le 4 content 0x18
  blocks_per_group ← read_le 4 content 0x20
  inodes_per_group ← read_le 4 content 0x28
  inode_size ← read_le 2 content 0x58
  fail_if (inode_size == 0) (invalid_format "Invalid EXT4 inode size")
  ok (record {
    inodes_count = inodes_count;
    blocks_count = blocks_count;
    free_blocks_count = free_blocks_count;
    free_inodes_count = free_inodes_count;
    first_data_block = first_data_block;
    log_block_size = log_block_size;
    blocks_per_group = blocks_per_group;
    inodes_per_group = inodes_per_group;
    inode_size = inode_size;
    magic = magic;
  })

-- `1024u32 << self.log_block_size`: a shift by 32 or more overflows, a smaller one drops bits.
unfoldable pub block_size : Ext4Superblock → Result ℕ
block_size superblock =
    if ltb superblock.log_block_size 32
    then ok (1024 * 2 ^ superblock.log_block_size % u32_mod)
    else panic

pub record Ext4Reader : Type 0 where
  pub reader : Readable
  pub partition_offset : ℕ

-- `Ext4Reader::read_superblock`
unfoldable pub read_superblock : Ext4Reader → Result Ext4Superblock
read_superblock ext4 = do
  offset ←
      ok_or (checked_add u64_mod ext4.partition_offset 1024)
        (invalid_format "EXT4 superblock offset overflow")
  content ← ext4.reader.read_at offset superblock_size
  parse content

-- `Ext4Reader::block_offset`
unfoldable pub block_offset : Ext4Reader → Ext4Superblock → ℕ → Result ℕ
block_offset ext4 superblock block = do
  size ← block_size superblock
  fail_if (size == 0) (invalid_format "Invalid EXT4 block size")
  relative_offset ←
      ok_or (checked_mul u64_mod block size) (invalid_format "EXT4 block offset overflow")
  ok_or (checked_add u64_mod ext4.partition_offset relative_offset)
      (invalid_format "EXT4 block offset overflow")

-- `Ext4Reader::read_block`
unfoldable pub read_block : Ext4Reader → Ext4Superblock → ℕ → Result (List ℕ)
read_block ext4 superblock block = do
  size ← block_size superblock
  fail_if (size == 0) (invalid_format "Invalid EXT4 block size")
  offset ← block_offset ext4 superblock block
  ext4.reader.read_at offset size
