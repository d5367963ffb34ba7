-- ===== src/Exfat/Boot.antt =====
-- crates/forensis-core/src/filesystem/exfat/boot.rs: the boot sector and its geometry.
pub mod Layout
pub mod Accepted
use forensis.Prelude.{
  List, Option, Result, [], add, checked_add, checked_mul, fail_if, if◌then◌else◌,
  invalid_boot_sector, invalid_format, length, ltb, mul, none, not, ok, ok_or, some, u32_mod,
  u64_mod, ℕ, ◌*◌, ◌-◌, ◌/◌, ◌==◌, ◌>>=◌, ◌>>◌, ◌^◌, ◌||◌, ◌∷◌,
}
use forensis.Bytes.{read_le, byte_at, slice, bytes_eq}

pub record ExfatBootSector : Type 0 where
  pub bytes_per_sector : ℕ
  pub sectors_per_cluster_bits : ℕ
  pub fat_length : ℕ
  pub fat_offset : ℕ
  pub cluster_heap_offset : ℕ
  pub cluster_count : ℕ
  pub root_directory_cluster : ℕ
  pub volume_serial : ℕ
  pub filesystem_revision : ℕ
  pub volume_flags : ℕ
  pub number_of_fats : ℕ
  pub drive_select : ℕ
  pub percent_in_use : ℕ

-- "EXFAT   "
abbrev pub exfat_type_label : List ℕ
exfat_type_label = 0x45 ∷ 0x58 ∷ 0x46 ∷ 0x41 ∷ 0x54 ∷ 0x20 ∷ 0x20 ∷ 0x20 ∷ []

-- `1u32.checked_shl(shift)`
abbrev pub checked_shl_one : ℕ → Option ℕ
checked_shl_one shift = if ltb shift 32 then some (2 ^ shift) else none

-- The first part of `parse`: the label, the signature, and all fields with the checks made while
-- they are read.
unfoldable pub parse_fields : List ℕ → Result ExfatBootSector
parse_fields buffer = do
  fail_if (ltb (length buffer) 512) (invalid_format "exFAT boot sector shorter than 512 bytes")
  label ← slice buffer 0x03 0x0b
  fail_if (not (bytes_eq label exfat_type_label)) invalid_boot_sector
  signature ← read_le 2 buffer 0x1fe
  fail_if (not (signature == 0xaa55)) invalid_boot_sector
  bytes_per_sector_shift ← byte_at buffer 0x6c
  bytes_per_sector ←
      ok_or (checked_shl_one bytes_per_sector_shift) (invalid_format "exFAT sector shift overflow")
  fail_if (ltb bytes_per_sector 512 || ltb 4096 bytes_per_sector)
      (invalid_format "exFAT bytes per sector is not a supported power of two")
  sectors_per_cluster_bits ← byte_at buffer 0x6d
  fail_if (ltb 25 sectors_per_cluster_bits)
      (invalid_format "exFAT sectors per cluster shift out of range")
  number_of_fats ← byte_at buffer 0x6e
  fail_if (ltb number_of_fats 1 || ltb 2 number_of_fats)
      (invalid_format "exFAT requires one or two FAT copies")
  fat_offset ← read_le 4 buffer 0x50
  fat_length ← read_le 4 buffer 0x54
  cluster_heap_offset ← read_le 4 buffer 0x58
  cluster_count ← read_le 4 buffer 0x5c
  root_directory_cluster ← read_le 4 buffer 0x60
  volume_serial ← read_le 4 buffer 0x64
  filesystem_revision ← read_le 2 buffer 0x68
  volume_flags ← read_le 2 buffer 0x6a
  drive_select ← byte_at buffer 0x6f
  percent_in_use ← byte_at buffer 0x70
  ok (record {
    bytes_per_sector = bytes_per_sector;
    sectors_per_cluster_bits = sectors_per_cluster_bits;
    fat_length = fat_length;
    fat_offset = fat_offset;
    cluster_heap_offset = cluster_heap_offset;
    cluster_count = cluster_count;
    root_directory_cluster = root_directory_cluster;
    volume_serial = volume_serial;
    filesystem_revision = filesystem_revision;
    volume_flags = volume_flags;
    number_of_fats = number_of_fats;
    drive_select = drive_select;
    percent_in_use = percent_in_use;
  })

-- The second part: the checks of the layout. `fat_offset + fat_length * u32::from(number_of_fats)`
-- and `cluster_count + 1` are plain `u32` arithmetic.
unfoldable pub check_layout : ExfatBootSector → Result ExfatBootSector
check_layout boot = do
  fail_if (boot.fat_offset == 0 || boot.fat_length == 0 || boot.cluster_heap_offset == 0)
      invalid_boot_sector
  fail_if (boot.cluster_count == 0) invalid_boot_sector
  fats ← mul u32_mod boot.fat_length boot.number_of_fats
  fats_end ← add u32_mod boot.fat_offset fats
  fail_if (boot.fat_length == 0 || ltb boot.cluster_heap_offset fats_end)
      (invalid_format "exFAT cluster heap must start after both FAT copies")
  fail_if (ltb boot.root_directory_cluster 2)
      (invalid_format "exFAT root cluster must be at least 2")
  last_cluster ← add u32_mod boot.cluster_count 1
  fail_if (ltb last_cluster boot.root_directory_cluster)
      (invalid_format "exFAT root cluster outside the cluster heap")
  ok boot

unfoldable pub parse : List ℕ → Result ExfatBootSector
unfolding parse_fields check_layout
parse buffer = parse_fields buffer >>= λ boot. check_layout boot

unfoldable pub sectors_per_cluster : ExfatBootSector → ℕ
sectors_per_cluster boot = 2 ^ boot.sectors_per_cluster_bits

unfoldable pub cluster_size : ExfatBootSector → ℕ
unfolding sectors_per_cluster
cluster_size boot = boot.bytes_per_sector * sectors_per_cluster boot

-- In units of 512 bytes.
unfoldable pub sectors_per_cluster_u64 : ExfatBootSector → ℕ
unfolding cluster_size
sectors_per_cluster_u64 boot = cluster_size boot / 512

unfoldable pub cluster_heap_byte_offset : ExfatBootSector → ℕ
cluster_heap_byte_offset boot = boot.cluster_heap_offset * boot.bytes_per_sector

unfoldable pub first_data_sector : ExfatBootSector → ℕ
first_data_sector boot = boot.cluster_heap_offset * boot.bytes_per_sector / 512

unfoldable pub cluster_byte_offset : ExfatBootSector → ℕ → Option ℕ
unfolding cluster_heap_byte_offset
cluster_byte_offset boot cluster =
    if ltb cluster 2 then none else elim (checked_mul u64_mod (cluster - 2) (cluster_size boot)) [
      | none ↦ none
      | some delta ↦ checked_add u64_mod (cluster_heap_byte_offset boot) delta
    ]
