-- ===== src/Fat32/Boot.antt =====
-- crates/forensis-core/src/filesystem/fat32/boot.rs: the BIOS parameter block.
pub mod Geometry
use forensis.Prelude.{
  Bool, List, Option, Result, [], checked_add, checked_mul, div_ceil, fail_if, if◌then◌else◌,
  invalid_boot_sector, invalid_format, leb, length, ltb, mul, none, not, ok, ok_or, some, sub,
  u32_mod, u64_mod, unsupported_filesystem, ℕ, ◌*◌, ◌-◌, ◌/◌, ◌==◌, ◌>>=◌, ◌>>◌, ◌||◌, ◌∷◌,
}
use forensis.Bytes.{read_le, byte_at, slice, bytes_eq}

pub record Fat32BootSector : Type 0 where
  pub bytes_per_sector : ℕ
  pub sectors_per_cluster : ℕ
  pub reserved_sectors : ℕ
  pub fat_count : ℕ
  pub root_entry_count : ℕ
  pub total_sectors : ℕ
  pub fat_size : ℕ
  pub root_cluster : ℕ
  pub fs_info_sector : ℕ
  pub backup_boot_sector : ℕ
  pub media : ℕ
  pub first_data_sector : ℕ
  pub total_clusters : ℕ

abbrev pub fat32_min_clusters : ℕ
fat32_min_clusters = 65525

-- "FAT32   "
abbrev pub fat32_type_label : List ℕ
fat32_type_label = 0x46 ∷ 0x41 ∷ 0x54 ∷ 0x33 ∷ 0x32 ∷ 0x20 ∷ 0x20 ∷ 0x20 ∷ []

-- `matches!(bytes_per_sector, 512 | 1024 | 2048 | 4096)`
abbrev pub supported_sector : ℕ → Bool
supported_sector n = n == 512 || n == 1024 || n == 2048 || n == 4096

-- `u8::is_power_of_two`
abbrev pub is_power_of_two : ℕ → Bool
is_power_of_two n =
    n == 1 || n == 2 || n == 4 || n == 8 || n == 16 || n == 32 || n == 64 || n == 128

-- The fields as they are stored, before the geometry is derived.
pub record RawFields : Type 0 where
  pub bytes_per_sector : ℕ
  pub sectors_per_cluster : ℕ
  pub reserved_sectors : ℕ
  pub fat_count : ℕ
  pub root_entry_count : ℕ
  pub total_sectors : ℕ
  pub media : ℕ
  pub fat_size : ℕ
  pub root_cluster : ℕ
  pub fs_info_sector : ℕ
  pub backup_boot_sector : ℕ

-- The first half of `parse`: the checks and the reads, in their order. The 16-bit fields win where
-- they are not zero.
unfoldable pub parse_fields : List ℕ → Result RawFields
parse_fields buffer = do
  fail_if (ltb (length buffer) 512) (invalid_format "FAT32 boot sector shorter than 512 bytes")
  signature ← read_le 2 buffer 0x1fe
  fail_if (not (signature == 0xaa55)) invalid_boot_sector
  bytes_per_sector ← read_le 2 buffer 0x0b
  fail_if (not (supported_sector bytes_per_sector))
      (invalid_format "FAT32 bytes per sector is not a supported power of two")
  sectors_per_cluster ← byte_at buffer 0x0d
  fail_if (sectors_per_cluster == 0 || not (is_power_of_two sectors_per_cluster))
      (invalid_format "FAT32 sectors per cluster is not a power of two")
  reserved_sectors ← read_le 2 buffer 0x0e
  fat_count ← byte_at buffer 0x10
  fail_if (fat_count == 0) (invalid_format "FAT32 has no FAT copies")
  root_entry_count ← read_le 2 buffer 0x11
  total_sectors_16 ← read_le 2 buffer 0x13
  media ← byte_at buffer 0x15
  fat_size_16 ← read_le 2 buffer 0x16
  total_sectors_32 ← read_le 4 buffer 0x20
  fat_size_32 ← read_le 4 buffer 0x24
  root_cluster ← read_le 4 buffer 0x2c
  fs_info_sector ← read_le 2 buffer 0x30
  backup_boot_sector ← read_le 2 buffer 0x32
  ok (record {
    bytes_per_sector = bytes_per_sector;
    sectors_per_cluster = sectors_per_cluster;
    reserved_sectors = reserved_sectors;
    fat_count = fat_count;
    root_entry_count = root_entry_count;
    total_sectors = if not (total_sectors_16 == 0) then total_sectors_16 else total_sectors_32;
    media = media;
    fat_size = if not (fat_size_16 == 0) then fat_size_16 else fat_size_32;
    root_cluster = root_cluster;
    fs_info_sector = fs_info_sector;
    backup_boot_sector = backup_boot_sector;
  })

-- The second half: the geometry, and the checks on it. `buffer` is needed for the type label.
unfoldable pub derive_geometry : List ℕ → RawFields → Result Fat32BootSector
derive_geometry buffer raw = do
  fail_if (raw.total_sectors == 0 || raw.fat_size == 0) invalid_boot_sector
  root_entry_bytes ← mul u32_mod raw.root_entry_count 32
  let root_dir_sectors = div_ceil root_entry_bytes raw.bytes_per_sector
  fat_total_sectors ←
      ok_or (checked_mul u32_mod raw.fat_size raw.fat_count)
        (invalid_format "FAT32 FAT size overflow")
  reserved_and_fats ←
      ok_or (checked_add u32_mod raw.reserved_sectors fat_total_sectors)
        (invalid_format "FAT32 data region offset overflow")
  first_data_sector ←
      ok_or (checked_add u32_mod reserved_and_fats root_dir_sectors)
        (invalid_format "FAT32 data region offset overflow")
  fail_if (leb raw.total_sectors first_data_sector)
      (invalid_format "FAT32 data region starts beyond the volume")
  data_sectors ← sub raw.total_sectors first_data_sector
  let total_clusters = data_sectors / raw.sectors_per_cluster
  type_label ← slice buffer 0x52 0x5a
  fail_if (not (leb fat32_min_clusters total_clusters || bytes_eq type_label fat32_type_label))
      unsupported_filesystem
  fail_if (ltb raw.root_cluster 2) (invalid_format "FAT32 root cluster must be at least 2")
  ok (record {
    bytes_per_sector = raw.bytes_per_sector;
    sectors_per_cluster = raw.sectors_per_cluster;
    reserved_sectors = raw.reserved_sectors;
    fat_count = raw.fat_count;
    root_entry_count = raw.root_entry_count;
    total_sectors = raw.total_sectors;
    fat_size = raw.fat_size;
    root_cluster = raw.root_cluster;
    fs_info_sector = raw.fs_info_sector;
    backup_boot_sector = raw.backup_boot_sector;
    media = raw.media;
    first_data_sector = first_data_sector;
    total_clusters = total_clusters;
  })

unfoldable pub parse : List ℕ → Result Fat32BootSector
unfolding parse_fields derive_geometry
parse buffer = parse_fields buffer >>= λ raw. derive_geometry buffer raw

unfoldable pub cluster_size : Fat32BootSector → ℕ
cluster_size boot = boot.bytes_per_sector * boot.sectors_per_cluster

-- The first sector of a cluster; the first two entries of the table are reserved.
unfoldable pub sector_of_cluster : Fat32BootSector → ℕ → Option ℕ
sector_of_cluster boot cluster =
    if ltb cluster 2
    then none
    else elim (checked_mul u64_mod (cluster - 2) boot.sectors_per_cluster) [
      | none ↦ none
      | some delta ↦ checked_add u64_mod boot.first_data_sector delta
    ]
