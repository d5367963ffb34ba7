-- ===== src/Ext4/Inode.antt =====
-- crates/forensis-core/src/filesystem/ext4/inode.rs and inode_locator.rs: inodes, and where they are.
pub mod Place
use Prim.Native.Nat.{bit_and}
use forensis.Prelude.{
  Bool, List, Option, Result, checked_add, checked_mul, fail_if, if◌then◌else◌, invalid_format,
  length, ltb, none, not, ok, ok_or, some, suc, take, u64_mod, zero, ℕ, ◌%◌, ◌*◌, ◌+◌, ◌-◌, ◌/◌,
  ◌==◌, ◌>>=◌, ◌>>◌, ◌^◌, ◌||◌,
}
use forensis.Bytes.{read_le, slice}
use forensis.Ext4.{Ext4Superblock, block_size}

pub record Ext4Inode : Type 0 where
  pub mode : ℕ
  pub uid : ℕ
  pub size_lo : ℕ
  pub atime : ℕ
  pub ctime : ℕ
  pub mtime : ℕ
  pub dtime : ℕ
  pub gid : ℕ
  pub links_count : ℕ
  pub blocks_lo : ℕ
  pub flags : ℕ
  pub size_high : ℕ
  pub blocks_high : ℕ
  pub i_block : List ℕ

unfoldable pub parse_inode : List ℕ → Result Ext4Inode
parse_inode content = do
  fail_if (ltb (length content) 128) (invalid_format "Invalid EXT4 inode: insufficient data")
  mode ← read_le 2 content 0x00
  uid ← read_le 2 content 0x02
  size_lo ← read_le 4 content 0x04
  atime ← read_le 4 content 0x08
  ctime ← read_le 4 content 0x0c
  mtime ← read_le 4 content 0x10
  dtime ← read_le 4 content 0x14
  gid ← read_le 2 content 0x18
  links_count ← read_le 2 content 0x1a
  blocks_lo ← read_le 4 content 0x1c
  flags ← read_le 4 content 0x20
  size_high ← read_le 4 content 0x6c
  blocks_high ← read_le 2 content 0x74
  i_block ← slice content 0x28 0x64
  ok (record {
    mode = mode;
    uid = uid;
    size_lo = size_lo;
    atime = atime;
    ctime = ctime;
    mtime = mtime;
    dtime = dtime;
    gid = gid;
    links_count = links_count;
    blocks_lo = blocks_lo;
    flags = flags;
    size_high = size_high;
    blocks_high = blocks_high;
    i_block = i_block;
  })

-- `((high as u64) << 32) | low as u64` of 32-bit halves.
abbrev pub size : Ext4Inode → ℕ
size inode = inode.size_high * 2 ^ 32 + inode.size_lo

abbrev pub blocks : Ext4Inode → ℕ
blocks inode = inode.blocks_high * 2 ^ 32 + inode.blocks_lo

abbrev pub is_directory : Ext4Inode → Bool
is_directory inode = bit_and inode.mode 0xf000 == 0x4000

abbrev pub is_regular_file : Ext4Inode → Bool
is_regular_file inode = bit_and inode.mode 0xf000 == 0x8000

abbrev pub is_symlink : Ext4Inode → Bool
is_symlink inode = bit_and inode.mode 0xf000 == 0xa000

unfoldable pub fast_symlink_target : Ext4Inode → Option (List ℕ)
fast_symlink_target inode =
    if not (is_symlink inode)
    then none
    else if ltb (length inode.i_block) (size inode)
    then none
    else some (take (size inode) inode.i_block)

pub record Ext4InodeLocator : Type 0 where
  pub superblock : Ext4Superblock
  pub inode_size : ℕ

-- `u32::is_power_of_two`: of some bits up to the highest.
abbrev power_up_to : ℕ → ℕ → Bool
power_up_to zero n = n == 1
power_up_to (suc k) n = n == 2 ^ suc k || power_up_to k n

-- `Ext4InodeLocator::new`
unfoldable pub new_locator : Ext4Superblock → ℕ → Result Ext4InodeLocator
new_locator superblock inode_size = do
  fail_if (inode_size == 0) (invalid_format "Invalid EXT4 inode size")
  fail_if (not (power_up_to 31 inode_size))
      (invalid_format "EXT4 inode size must be a power of two")
  fail_if (ltb inode_size 128) (invalid_format "EXT4 inode size is smaller than the minimum")
  ok (record { superblock = superblock; inode_size = inode_size })

-- The checks that `group_for_inode` and `index_in_group` make alike.
unfoldable pub group_for_inode : Ext4InodeLocator → ℕ → Result ℕ
group_for_inode locator inode_number = do
  fail_if (inode_number == 0) (invalid_format "EXT4 inode number cannot be zero")
  fail_if (locator.superblock.inodes_per_group == 0)
      (invalid_format "Invalid EXT4 inodes per group")
  ok ((inode_number - 1) / locator.superblock.inodes_per_group)

unfoldable pub index_in_group : Ext4InodeLocator → ℕ → Result ℕ
index_in_group locator inode_number = do
  fail_if (inode_number == 0) (invalid_format "EXT4 inode number cannot be zero")
  fail_if (locator.superblock.inodes_per_group == 0)
      (invalid_format "Invalid EXT4 inodes per group")
  ok ((inode_number - 1) % locator.superblock.inodes_per_group)

unfoldable pub inode_offset : Ext4InodeLocator → ℕ → ℕ → Result ℕ
inode_offset locator inode_number inode_table_block = do
  index ← index_in_group locator inode_number
  size ← block_size locator.superblock
  fail_if (size == 0) (invalid_format "Invalid EXT4 block size")
  inode_byte_offset ←
      ok_or (checked_mul u64_mod index locator.inode_size)
        (invalid_format "EXT4 inode offset overflow")
  table_offset ←
      ok_or (checked_mul u64_mod inode_table_block size)
        (invalid_format "EXT4 inode table offset overflow")
  ok_or (checked_add u64_mod table_offset inode_byte_offset)
      (invalid_format "EXT4 inode offset overflow")

unfoldable pub inode_block : Ext4InodeLocator → ℕ → ℕ → Result ℕ
inode_block locator inode_number inode_table_block = do
  offset ← inode_offset locator inode_number inode_table_block
  size ← block_size locator.superblock
  fail_if (size == 0) (invalid_format "Invalid EXT4 block size")
  ok (offset / size)

unfoldable pub offset_inside_block : Ext4InodeLocator → ℕ → Result ℕ
offset_inside_block locator inode_number = do
  index ← index_in_group locator inode_number
  size ← block_size locator.superblock
  fail_if (size == 0) (invalid_format "Invalid EXT4 block size")
  offset ←
      ok_or (checked_mul u64_mod index locator.inode_size)
        (invalid_format "EXT4 inode offset overflow")
  ok (offset % size)

-- `locate`, with the block of the inode table out of the descriptor.
unfoldable pub locate : Ext4InodeLocator → ℕ → ℕ → Result (ℕ × ℕ × ℕ)
locate locator inode_number inode_table = do
  group ← group_for_inode locator inode_number
  index ← index_in_group locator inode_number
  offset ← inode_offset locator inode_number inode_table
  ok (group, index, offset)
