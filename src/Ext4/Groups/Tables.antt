-- ===== src/Ext4/Groups/Tables.antt =====
-- The tables of a block group: what is read of any evidence.
use native.Mathlib.Nat.{div-add-mod, le-div_iff_mul-le}
use forensis.Prelude.{
  All-drop, All-take, Holds, Holds-bind, Holds-fail_if, Holds-ok, Holds-ok_or, Holds-some,
  Holds-sub, Holds-weaken, IsByte, List, arith, checked_mul-eq, div_ceil, drop, false, leb, length,
  length-drop, length-take, ltb, ok, plumbing, refl, suc, take, true, zero, ℕ, ◌%◌, ◌*◌, ◌+◌, ◌-◌,
  ◌/◌, ◌<◌, ◌^◌, ◌≡◌, ◌≤◌,
}
use forensis.Bytes.{AreBytes}
use forensis.Bytes.Laws.{read_le-Holds, slice-ok}
use forensis.Source.{IsTotal, FillsBuffer}
use forensis.Ext4.{Ext4Superblock, Ext4Reader, block_size, block_offset}
use forensis.Ext4.Groups.{
  Ext4BlockGroupDescriptor, parse_descriptor, descriptors_loop, parse_table, Ext4InodeTable,
  parse_inode_table, table_inode, read_block_groups, read_inode_table,
}

descriptors_loop-Holds :
    (chunks : ℕ) (content : List ℕ)
    → AreBytes content
    → chunks * 32 ≤ length content
    → Holds (λ descriptors. length descriptors ≡ chunks) (descriptors_loop chunks content)
unfolding descriptors_loop parse_descriptor
descriptors_loop-Holds zero content b h = Holds-ok _ refl
descriptors_loop-Holds (suc chunks) content b h =
    let first = take 32 content in
    let f = All-take IsByte 32 content b in
    let size : length first ≡ 32 = omega (arith, length-take 32 content) in
    Holds-bind {Q = λ _. Unit {0}} _ _
      (Holds-fail_if _ _ _ λ _. Holds-bind _ _ (read_le-Holds 4 first 0x00 f (omega arith)) λ _ _ _.
        Holds-bind _ _ (read_le-Holds 4 first 0x04 f (omega arith)) λ _ _ _.
          Holds-bind _ _ (read_le-Holds 4 first 0x08 f (omega arith)) λ _ _ _.
            Holds-bind _ _ (read_le-Holds 2 first 0x0c f (omega arith)) λ _ _ _.
              Holds-bind _ _ (read_le-Holds 2 first 0x0e f (omega arith)) λ _ _ _.
                Holds-bind _ _ (read_le-Holds 2 first 0x10 f (omega arith)) λ _ _ _. Holds-ok _ tt)
      λ descriptor _ _.
        Holds-bind _ _
          (descriptors_loop-Holds chunks (drop 32 content) (All-drop IsByte 32 content b)
            (omega (arith, length-drop 32 content)))
          λ descriptors n _. Holds-ok _ (omega (arith, n))

parse_table-Holds :
    (content : List ℕ)
    → AreBytes content
    → Holds (λ descriptors. length descriptors ≡ length content / 32) (parse_table content)
unfolding parse_table
parse_table-Holds content b = Holds-fail_if _ _ _ λ _.
    Holds-fail_if _ _ _ λ _. descriptors_loop-Holds (length content / 32) content b (omega arith)

block_size-Holds :
    (superblock : Ext4Superblock)
    → superblock.log_block_size < 32
    → Holds (λ size. size < 2 ^ 32) (block_size superblock)
unfolding block_size
block_size-Holds superblock h =
    let small : ltb superblock.log_block_size 32 ≡ true = ground (arith, h) in
    rw small (Holds-ok _ (omega arith))

-- On total evidence, where the logarithm of the block size is below 32, reading the table of the block
-- groups fails with an error or returns a descriptor for each group: as many as it takes to hold the
-- blocks behind the first one.
pub read_block_groups-Holds :
    (ext4 : Ext4Reader) (superblock : Ext4Superblock)
    → IsTotal ext4.reader
    → superblock.log_block_size < 32
    → Holds
        (λ descriptors.
          length descriptors
          ≡ div_ceil
              (superblock.blocks_count - superblock.first_data_block)
              superblock.blocks_per_group)
        (read_block_groups ext4 superblock)
unfolding read_block_groups
read_block_groups-Holds ext4 superblock t small =
    Holds-bind _ _ (block_size-Holds superblock small) λ size _ _. Holds-fail_if _ _ _ λ _.
      Holds-fail_if _ _ _ λ _. Holds-fail_if _ _ _ λ some_blocks.
        Holds-bind _ _
          (Holds-sub superblock.blocks_count superblock.first_data_block (ground arith))
          λ usable u _. Holds-fail_if _ _ _ λ _. Holds-ok_or _ _ _ λ table_size s.
            Holds-ok_or _ _ _ λ relative _. Holds-ok_or _ _ _ λ offset _.
              Holds-bind _ _ (t.fills offset table_size) λ content f _.
                Holds-weaken _
                  (λ descriptors n. rw (← u) (omega (arith, n, f.1, checked_mul-eq _ _ _ _ s)))
                  (parse_table-Holds content f.0)

-- Each of so many inodes can be taken from the table: as many bytes as an inode has.
abbrev pub CoversGroup : ℕ → ℕ → Ext4InodeTable → Type 0
CoversGroup inodes size table =
    (index : ℕ)
    → index < inodes
    → (bytes : List ℕ) × (table_inode table index ≡ ok bytes) × FillsBuffer size bytes

inode_inside :
    (index inodes size total : ℕ)
    → index < inodes
    → inodes * size ≤ total
    → index * size + size ≤ total
inode_inside index inodes size total h k = grind arith

table_inode-covers :
    (content : List ℕ) (size inodes : ℕ)
    → AreBytes content
    → 0 < size
    → inodes * size ≤ length content
    → CoversGroup inodes size (record { content = content; inode_size = size })
unfolding table_inode plumbing
table_inode-covers content size inodes b s room index h =
    let inside = inode_inside index inodes size (length content) h room in
    let count : inodes ≤ length content / size = (le-div_iff_mul-le s).1 room in
    let accepted : leb (length content / size) index ≡ false = ground (arith, count) in
    let start = index * size in
    (
      take (start + size - start) (drop start content),
      rw accepted (slice-ok content start (start + size) (omega arith) inside),
      (
        All-take IsByte (start + size - start) _ (All-drop IsByte start content b),
        omega (
          arith,
          length-take (start + size - start) (drop start content),
          length-drop start content,
        ),
      ),
    )

round_up : (n size : ℕ) → 0 < size → n ≤ div_ceil n size * size
round_up n size h =
    let parts = div-add-mod (n + size - 1) size in
    let rest : (n + size - 1) % size < size = omega arith in omega (arith, parts, rest)

block_offset-Holds :
    (ext4 : Ext4Reader) (superblock : Ext4Superblock) (block : ℕ)
    → superblock.log_block_size < 32
    → Holds (λ _. Unit {0}) (block_offset ext4 superblock block)
unfolding block_offset
block_offset-Holds ext4 superblock block small =
    Holds-bind _ _ (block_size-Holds superblock small)
      λ _ _ _. Holds-fail_if _ _ _ λ _. Holds-ok_or _ _ _ λ _ _. Holds-some _ _ λ _ _. tt

-- On total evidence, where the logarithm of the block size is below 32, reading the table of inodes of
-- a group fails with an error or returns a table from which every inode of the group can be taken: none
-- is out of bounds, and each is as many bytes as an inode has.
pub read_inode_table-Holds :
    (ext4 : Ext4Reader) (superblock : Ext4Superblock) (descriptor : Ext4BlockGroupDescriptor)
    → IsTotal ext4.reader
    → superblock.log_block_size < 32
    → Holds
        (CoversGroup superblock.inodes_per_group superblock.inode_size)
        (read_inode_table ext4 superblock descriptor)
unfolding read_inode_table parse_inode_table
read_inode_table-Holds ext4 superblock descriptor t small =
    Holds-bind _ _ (block_size-Holds superblock small) λ size _ read. Holds-fail_if _ _ _ λ nonzero.
      Holds-fail_if _ _ _ λ sized. Holds-fail_if _ _ _ λ _. Holds-ok_or _ _ _ λ table_bytes x.
        Holds-ok_or _ _ _ λ total_bytes y.
          Holds-bind {Q = λ _. Unit {0}} _ _
            (block_offset-Holds ext4 superblock descriptor.inode_table small)
            λ offset _ _. Holds-bind _ _ (t.fills offset total_bytes) λ content f _.
              Holds-fail_if _ _ _ λ _. Holds-fail_if _ _ _ λ _. Holds-fail_if _ _ _ λ _.
                Holds-fail_if _ _ _ λ _.
                  let room = round_up table_bytes size (ground arith) in
                  Holds-ok _ (
                    table_inode-covers content superblock.inode_size superblock.inodes_per_group f.0
                      (ground arith)
                      (omega
                        (arith, f.1, room, checked_mul-eq _ _ _ _ x, checked_mul-eq _ _ _ _ y)))
