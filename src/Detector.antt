-- ===== src/Detector.antt =====
-- crates/forensis-core/src/filesystem/detector.rs: which filesystem a partition holds.
pub mod Agreement
mod Tests
use forensis.Prelude.{
  Bool, List, Result, [], add, false, if◌then◌else◌, length, mul, ok, take, true, u64_mod, ℕ, ◌==◌,
  ◌>>=◌, ◌>>◌, ◌||◌, ◌∷◌,
}
use forensis.Bytes.{read_le, slice, bytes_eq}
use forensis.Source.{Readable}
use forensis.Partition.{Partition}
use forensis.Ntfs.Volume
use forensis.Ntfs.Volume.{NtfsFileSystem}

pub data FileSystemType : Type 0 where
  ntfs ext4 fat32 ex_fat xfs btrfs hfs_plus apfs unknown : FileSystemType

abbrev pub is_supported : FileSystemType → Bool
is_supported ntfs = true
is_supported ext4 = true
is_supported fat32 = true
is_supported ex_fat = true
is_supported xfs = false
is_supported btrfs = false
is_supported hfs_plus = false
is_supported apfs = false
is_supported unknown = false

-- "FAT32"
abbrev fat32_label : List ℕ
fat32_label = 0x46 ∷ 0x41 ∷ 0x54 ∷ 0x33 ∷ 0x32 ∷ []

-- `windows(n).any(|x| x == label)`, where the label has n bytes.
abbrev pub has_window : List ℕ → List ℕ → Bool
has_window label [] = false
has_window label (b ∷ bytes) =
    bytes_eq (take (length label) (b ∷ bytes)) label || has_window label bytes

-- The part that asks for the superblock of ext4.
unfoldable pub detect_ext4 : Readable → ℕ → Result FileSystemType
detect_ext4 reader offset = do
  superblock_offset ← add u64_mod offset 1024
  superblock ← reader.read_at superblock_offset 1024
  ext_signature ← read_le 2 superblock 56
  ok (if ext_signature == 0xef53 then ext4 else unknown)

-- `FileSystemDetector::detect_at`
unfoldable pub detect_at : Readable → ℕ → Result FileSystemType
detect_at reader offset = do
  boot_sector ← reader.read_at offset 512
  oem ← slice boot_sector 3 7
  long_oem ← slice boot_sector 3 11
  let otherwise = detect_ext4 reader offset
  if bytes_eq oem (0x4e ∷ 0x54 ∷ 0x46 ∷ 0x53 ∷ [])
      then ok ntfs
      else if has_window fat32_label boot_sector
      then ok fat32
      else if bytes_eq long_oem (0x45 ∷ 0x58 ∷ 0x46 ∷ 0x41 ∷ 0x54 ∷ 0x20 ∷ 0x20 ∷ 0x20 ∷ [])
      then ok ex_fat
      else otherwise

-- `partition.start_sector * 512`, in plain arithmetic.
unfoldable pub partition_offset : Partition → Result ℕ
partition_offset partition = mul u64_mod partition.start_sector 512

-- `FileSystemDetector::detect`
unfoldable pub detect : Readable → Partition → Result FileSystemType
detect reader partition = partition_offset partition >>= detect_at reader

-- `FileSystemDetector::open_ntfs`
unfoldable pub open_ntfs : Readable → Partition → Result NtfsFileSystem
open_ntfs reader partition = partition_offset partition >>= Volume.parse reader
