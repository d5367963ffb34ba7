-- ===== src/Ext4/Inode/Place.antt =====
-- Inodes of any bytes, and the places that inodes have in a volume.
use native.Mathlib.Nat.{div-add-mod}
use forensis.Prelude.{
  >>=-eq-ok, Holds, Holds-bind, Holds-fail_if, Holds-ok, List, arith, length, ok, ok_inj, plumbing,
  ℕ, ◌%◌, ◌*◌, ◌+◌, ◌-◌, ◌/◌, ◌<◌, ◌^◌, ◌≡◌, ◌≤◌,
}
use forensis.Bytes.{AreBytes}
use forensis.Bytes.Laws.{read_le-Holds, slice-Holds}
use forensis.Ext4.{block_size}
use forensis.Ext4.Inode.{
  Ext4Inode, parse_inode, size, Ext4InodeLocator, group_for_inode, index_in_group, inode_offset,
  locate,
}

-- An inode that was parsed: its words, and an area of sixty bytes for blocks or a link.
pub record IsInode (inode : Ext4Inode) : Type 0 where
  pub wide : size inode < 2 ^ 64
  pub area : length inode.i_block ≡ 60
  pub area_bytes : AreBytes inode.i_block
  pub mode : inode.mode < 2 ^ 16

pub parse_inode-Holds : (content : List ℕ) → AreBytes content → Holds IsInode (parse_inode content)
unfolding parse_inode
parse_inode-Holds content b = Holds-fail_if _ _ _ λ long.
    let room : 128 ≤ length content = ground arith in
    let word =
      λ (n offset : ℕ) (h : offset + n ≤ 128). read_le-Holds n content offset b (omega arith) in
    Holds-bind _ _ (word 2 0x00 (omega arith)) λ mode m _.
      Holds-bind _ _ (word 2 0x02 (omega arith)) λ uid _ _.
        Holds-bind _ _ (word 4 0x04 (omega arith)) λ size_lo l _.
          Holds-bind _ _ (word 4 0x08 (omega arith)) λ atime _ _.
            Holds-bind _ _ (word 4 0x0c (omega arith)) λ ctime _ _.
              Holds-bind _ _ (word 4 0x10 (omega arith)) λ mtime _ _.
                Holds-bind _ _ (word 4 0x14 (omega arith)) λ dtime _ _.
                  Holds-bind _ _ (word 2 0x18 (omega arith)) λ gid _ _.
                    Holds-bind _ _ (word 2 0x1a (omega arith)) λ links _ _.
                      Holds-bind _ _ (word 4 0x1c (omega arith)) λ blocks_lo _ _.
                        Holds-bind _ _ (word 4 0x20 (omega arith)) λ flags _ _.
                          Holds-bind _ _ (word 4 0x6c (omega arith)) λ size_high h _.
                            Holds-bind _ _ (word 2 0x74 (omega arith)) λ blocks_high _ _.
                              Holds-bind _ _
                                (slice-Holds content 0x28 0x64 b (omega arith) (omega arith))
                                λ area a _. Holds-ok _ (record {
                                  wide = omega (arith, l, h);
                                  area = omega (arith, a.1);
                                  area_bytes = a.0;
                                  mode = omega (arith, m);
                                })

module _ (locator : Ext4InodeLocator) (inode_number : ℕ) where
  group-eq :
      (group : ℕ)
      → group_for_inode locator inode_number ≡ ok group
      → (1 ≤ inode_number)
        × (1 ≤ locator.superblock.inodes_per_group)
        × (group ≡ (inode_number - 1) / locator.superblock.inodes_per_group)
  unfolding group_for_inode plumbing
  group-eq group e = ground arith

  index-eq :
      (index : ℕ)
      → index_in_group locator inode_number ≡ ok index
      → index ≡ (inode_number - 1) % locator.superblock.inodes_per_group
  unfolding index_in_group plumbing
  index-eq index e = ground arith

  offset-eq :
      (inode_table bytes index offset : ℕ)
      → block_size locator.superblock ≡ ok bytes
      → index_in_group locator inode_number ≡ ok index
      → inode_offset locator inode_number inode_table ≡ ok offset
      → offset ≡ inode_table * bytes + index * locator.inode_size
  unfolding inode_offset plumbing
  offset-eq inode_table bytes index offset s i e = let e' = rw (i, s) at e in ground (arith, e')

  -- An inode that is located, in blocks of so many bytes, is the one with the index found in the group
  -- found, counted from 1; the index is one of the group; and the offset is that of the index in an
  -- array of inodes that begins with the block of the table.
  pub locate-place :
      (inode_table bytes : ℕ) (place : ℕ × ℕ × ℕ)
      → block_size locator.superblock ≡ ok bytes
      → locate locator inode_number inode_table ≡ ok place
      → (inode_number ≡ place.0 * locator.superblock.inodes_per_group + place.1 + 1)
        × (place.1 < locator.superblock.inodes_per_group)
        × (place.2 ≡ inode_table * bytes + place.1 * locator.inode_size)
  unfolding locate
  locate-place inode_table bytes place s e =
      let (group, g, e1) = >>=-eq-ok (group_for_inode locator inode_number) _ e in
      let (index, i, e2) = >>=-eq-ok (index_in_group locator inode_number) _ e1 in
      let (offset, o, e3) = >>=-eq-ok (inode_offset locator inode_number inode_table) _ e2 in
      let same : (group, index, offset) ≡ place = ok_inj e3 in
      let (one, some_inodes, quotient) = group-eq group g in
      let remainder = index-eq index i in
      let parts = div-add-mod (inode_number - 1) locator.superblock.inodes_per_group in
      rw (← same) (
        rw (quotient, remainder) (omega (arith, parts)),
        rw remainder (omega arith),
        offset-eq inode_table bytes index offset s i o,
      )
