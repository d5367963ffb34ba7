-- ===== src/Ext4/Filesystem/Inodes.antt =====
-- Where the inodes of a volume are.
use forensis.Prelude.{
  >>-eq-ok, >>=-eq-ok, ForensisError, Option, ap, get_elem?, none, ok, ok_inj, ok_or, plumbing,
  some, sym, ℕ, ◌*◌, ◌+◌, ◌<◌, ◌≡◌,
}
use forensis.Ext4.{block_size}
use forensis.Ext4.Groups.{Ext4BlockGroupDescriptor}
use forensis.Ext4.Inode.{
  Ext4InodeLocator, group_for_inode, index_in_group, inode_offset, locate, new_locator,
}
use forensis.Ext4.Inode.Place.{locate-place}
use forensis.Ext4.Filesystem.{Ext4Filesystem, locate_inode}

new_locator-eq :
    (filesystem : Ext4Filesystem) (size : ℕ) (locator : Ext4InodeLocator)
    → new_locator filesystem.superblock size ≡ ok locator
    → locator ≡ record { superblock = filesystem.superblock; inode_size = size }
unfolding new_locator
new_locator-eq filesystem size locator e =
    sym (ok_inj (>>-eq-ok _ _ (>>-eq-ok _ _ (>>-eq-ok _ _ e))))

locate-group :
    (locator : Ext4InodeLocator) (inode_number inode_table group : ℕ) (place : ℕ × ℕ × ℕ)
    → group_for_inode locator inode_number ≡ ok group
    → locate locator inode_number inode_table ≡ ok place
    → group ≡ place.0
unfolding locate plumbing
locate-group locator inode_number inode_table group place g e =
    let (index, i, e1) = >>=-eq-ok (index_in_group locator inode_number) _ (rw g at e) in
    let (offset, o, e2) = >>=-eq-ok (inode_offset locator inode_number inode_table) _ e1 in
    ap (λ (p : ℕ × ℕ × ℕ). p.0) (ok_inj e2)

ok_or-eq-ok {ℓ} :
    {A : Type ℓ} (o : Option A) (error : ForensisError) (a : A) → ok_or o error ≡ ok a → o ≡ some a
unfolding plumbing
ok_or-eq-ok none error a e = absurd (cc e)
ok_or-eq-ok (some b) error a e = ap some (ok_inj e)

-- An inode that is located, in blocks of so many bytes, is one of a group that the table of groups
-- has a descriptor of, and its offset is that of an array of inodes that begins with that
-- descriptor's block.
pub locate_inode-place :
    (filesystem : Ext4Filesystem) (inode_number bytes : ℕ) (place : ℕ × ℕ × ℕ)
    → block_size filesystem.superblock ≡ ok bytes
    → locate_inode filesystem inode_number ≡ ok place
    → (descriptor : Ext4BlockGroupDescriptor) × (get_elem? filesystem.block_groups place.0
        ≡ some descriptor)
      × ((inode_number ≡ place.0 * filesystem.superblock.inodes_per_group + place.1 + 1)
          × (place.1 < filesystem.superblock.inodes_per_group)
          × (place.2 ≡ descriptor.inode_table * bytes + place.1 * filesystem.superblock.inode_size))
unfolding locate_inode
locate_inode-place filesystem inode_number bytes place s e =
    let (locator, l, e1) =
      >>=-eq-ok (new_locator filesystem.superblock filesystem.superblock.inode_size) _
        (>>-eq-ok _ _ (>>-eq-ok _ _ e)) in
    let same = new_locator-eq filesystem filesystem.superblock.inode_size locator l in
    let (group, g, e2) = >>=-eq-ok (group_for_inode locator inode_number) _ e1 in
    let (descriptor, d, e3) = >>=-eq-ok (ok_or (get_elem? filesystem.block_groups group) _) _ e2 in
    let here = locate-group locator inode_number descriptor.inode_table group place g e3 in
    (
      descriptor,
      rw (← here) (ok_or-eq-ok _ _ descriptor d),
      locate-place
          (record {
            superblock = filesystem.superblock;
            inode_size = filesystem.superblock.inode_size;
          })
          inode_number descriptor.inode_table bytes place s (rw same at e3),
    )
