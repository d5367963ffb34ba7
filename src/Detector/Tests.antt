-- ===== src/Detector/Tests.antt =====
-- The theorem on detection at a concrete volume.
use forensis.Prelude.{List, arith, ok, plumbing, refl, replicate, ℕ, ◌++◌, ◌∷◌, ◌≡◌}
use forensis.Bytes.{AreBytes, read_le, byte_at, slice}
use forensis.Source.{ImageReader, readable_image, read_image, image-IsTotal}
use forensis.Partition.{Partition, ntfs}
use forensis.Ntfs.Volume
use forensis.Ntfs.Volume.{NtfsFileSystem, parse_sector, record_size, negated}
use forensis.Detector
use forensis.Detector.{detect, open_ntfs, partition_offset}
use forensis.Detector.Agreement.{detect-open_ntfs}

-- Sectors of 512 bytes, clusters of eight sectors, and records of 1024 and 4096 bytes.
abbrev boot_bytes : List ℕ
boot_bytes =
    replicate 3 0
    ++ (0x4e ∷ 0x54 ∷ 0x46 ∷ 0x53 ∷ 0x20 ∷ 0x20 ∷ 0x20 ∷ 0x20 ∷ 0 ∷ 2 ∷ 8 ∷ replicate 28 0
        ++ (1 ∷ replicate 5 0
            ++ (4 ∷ replicate 7 0
                ++ (2 ∷ replicate 7 0 ++ (0xf6 ∷ 0 ∷ 0 ∷ 0 ∷ 1 ∷ replicate 443 0)))))

abbrev boot_image : ImageReader
boot_image = record { file = boot_bytes; image_size = 512 }

abbrev whole_image : Partition
whole_image = record { number = 1; start_sector = 0; sector_count = 65536; partition_type = ntfs }

abbrev opened : NtfsFileSystem
opened = record {
  boot_sector = record {
    bytes_per_sector = 512;
    sectors_per_cluster = 8;
    total_sectors = 65536;
    mft_cluster = 4;
    mft_mirror_cluster = 2;
    mft_record_size = 1024;
    index_record_size = 4096;
  };
  partition_offset = 0;
}

boot_bytes-AreBytes : AreBytes boot_bytes
boot_bytes-AreBytes = omega arith

volume_opens : open_ntfs (readable_image boot_image) whole_image ≡ ok opened
unfolding open_ntfs partition_offset Volume.parse parse_sector record_size negated read_le byte_at
    slice readable_image read_image plumbing
volume_opens = refl

detect-open_ntfs_example : detect (readable_image boot_image) whole_image ≡ ok Detector.ntfs
detect-open_ntfs_example =
    detect-open_ntfs (readable_image boot_image) whole_image opened
      (image-IsTotal boot_image boot_bytes-AreBytes) volume_opens
