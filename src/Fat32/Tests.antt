-- ===== src/Fat32/Tests.antt =====
-- The theorems on FAT32 at concrete inputs.
mod Directory
use forensis.Prelude.{
  All, All-append, All-replicate, Holds, IsByte, List, [], arith, err, invalid_format, length, none,
  ok, plumbing, refl, replicate, some, ℕ, ◌++◌, ◌+◌, ◌<◌, ◌^◌, ◌∷◌, ◌≡◌, ◌≤◌,
}
use forensis.Bytes.{AreBytes}
use forensis.Source.{read_image, ImageReader, readable_image, image-IsTotal}
use forensis.Fat32.Boot.{Fat32BootSector, fat32_type_label, parse, sector_of_cluster}
use forensis.Fat32.Boot.Geometry.{IsGeometry, parse_boot-Holds}
use forensis.Fat32.Reader.{
  Fat32Reader, ensure_fat_cache, fat_entries, read_at, read_fat_entry, read_entry, entry_at,
  contains, walk_loop, walk_chain,
}
use forensis.Fat32.Reader.Table.{IsReady, entry_value, entry_value-read_fat_entry}
use forensis.Fat32.Reader.Chain.{walk_chain-Holds}
use forensis.Fat32.Reader.Walk.{IsWalk, walk_chain-IsWalk}
use forensis.Fat32.Reader.Last.{read_fat_entry_last}
use forensis.Fat32.Investigation.{investigate_filesystem}
use forensis.Fat32.Investigation.Unique.{AreDistinct}
use forensis.Fat32.Investigation.Ending.{investigate-AreDistinct}

-- The first 512 bytes of a volume of 66581 sectors, each of them a cluster.
abbrev boot_front : List ℕ
boot_front =
    0xeb ∷ 0x58 ∷ 0x90 ∷ 0 ∷ 0 ∷ 0 ∷ 0 ∷ 0 ∷ 0 ∷ 0 ∷ 0 ∷ 0x00 ∷ 0x02 ∷ 1 ∷ 32 ∷ 0 ∷ 2 ∷ 0 ∷ 0 ∷ 0
    ∷ 0 ∷ 0xf8 ∷ 0 ∷ 0 ∷ 0 ∷ 0 ∷ 0 ∷ 0 ∷ 0 ∷ 0 ∷ 0 ∷ 0 ∷ 0x15 ∷ 0x04 ∷ 0x01 ∷ 0x00 ∷ 0x00 ∷ 0x02 ∷ 0
    ∷ 0 ∷ 0 ∷ 0 ∷ 0 ∷ 0 ∷ 2 ∷ 0 ∷ 0 ∷ 0 ∷ 1 ∷ 0 ∷ 6 ∷ 0 ∷ []

abbrev boot_end : List ℕ
boot_end = replicate 420 0 ++ (0x55 ∷ 0xaa ∷ [])

abbrev boot_back : List ℕ
boot_back = fat32_type_label ++ boot_end

abbrev boot_bytes : List ℕ
boot_bytes = boot_front ++ (replicate 30 0 ++ boot_back)

boot_end-AreBytes : AreBytes boot_end
boot_end-AreBytes =
    All-append IsByte (replicate 420 0) (0x55 ∷ 0xaa ∷ [])
      (All-replicate IsByte 420 0 (omega arith)) (omega arith)

boot_bytes-AreBytes : AreBytes boot_bytes
boot_bytes-AreBytes = All-append IsByte boot_front (replicate 30 0 ++ boot_back) (omega arith) (
    All-append IsByte (replicate 30 0) boot_back (All-replicate IsByte 30 0 (omega arith))
      (All-append IsByte fat32_type_label boot_end (omega arith) boot_end-AreBytes))

-- Three clusters of one sector behind a reserved sector and a table of one sector.
abbrev boot : Fat32BootSector
boot = record {
  bytes_per_sector = 512;
  sectors_per_cluster = 1;
  reserved_sectors = 1;
  fat_count = 1;
  root_entry_count = 0;
  total_sectors = 5;
  fat_size = 1;
  root_cluster = 2;
  fs_info_sector = 0;
  backup_boot_sector = 0;
  media = 0xf8;
  first_data_sector = 2;
  total_clusters = 3;
}

boot-IsGeometry : IsGeometry boot
boot-IsGeometry = record {
  sector_low = omega arith;
  sector_high = omega arith;
  cluster_low = omega arith;
  cluster_high = omega arith;
  fat_fits = omega arith;
  has_fat = omega arith;
  clusters_fit = omega arith;
  total = omega arith;
  root_low = omega arith;
  root_high = omega arith;
}

-- Cluster 2 is followed by cluster 3, and that by an end.
abbrev reader : Fat32Reader
reader = record {
  source = readable_image (record { file = []; image_size = 0 });
  boot = boot;
  partition_offset = 0;
  fat_cache = some (0 ∷ 0 ∷ 3 ∷ 0x0fff_ffff ∷ []);
}

reader-IsReady : IsReady reader
reader-IsReady = record {
  source_total = image-IsTotal _ tt;
  geometry = boot-IsGeometry;
  cache = (refl, omega arith);
}

parse_boot-Holds_example : Holds IsGeometry (parse boot_bytes)
parse_boot-Holds_example = parse_boot-Holds boot_bytes boot_bytes-AreBytes

entry_of_two : read_fat_entry reader 2 ≡ ok (3, reader)
unfolding read_fat_entry read_entry entry_at plumbing
entry_of_two = refl

-- The same volume before its table was read, which is behind the reserved sector.
abbrev table_bytes : List ℕ
table_bytes = replicate 8 0 ++ (3 ∷ 0 ∷ 0 ∷ 0 ∷ 0xff ∷ 0xff ∷ 0xff ∷ 0x0f ∷ replicate 496 0)

abbrev unread : Fat32Reader
unread = record reader {
  source = readable_image (record { file = replicate 512 0 ++ table_bytes; image_size = 1024 });
  fat_cache = none;
}

abbrev cached : Fat32Reader
cached = record unread { fat_cache = some (0 ∷ 0 ∷ 3 ∷ 0x0fff_ffff ∷ []) }

table_cached : read_fat_entry unread 2 ≡ ok (3, cached)
unfolding read_fat_entry read_entry ensure_fat_cache fat_entries entry_at readable_image read_image
    read_at plumbing
table_cached = refl

entry_value-read_fat_entry_example : entry_value cached 3 ≡ entry_value unread 3
entry_value-read_fat_entry_example = entry_value-read_fat_entry unread cached 2 3 3 table_cached

read_fat_entry_last_example :
    (read_fat_entry reader 4 ≡ err (invalid_format "FAT32 cluster out of range"))
    × ((sector : ℕ) × (sector_of_cluster boot 4 ≡ some sector) × (sector + 1 ≤ 5))
read_fat_entry_last_example = read_fat_entry_last reader boot-IsGeometry (omega arith)

walk_chain-Holds_example :
    Holds
      (λ result.
        (1 ≤ length result.0)
        × (0 < 9 → length result.0 ≤ 9)
        × (length result.0 ≤ 4)
        × All (λ c. c < 2 ^ 32) result.0
        × IsReady result.1)
      (walk_chain reader 2 9)
walk_chain-Holds_example = walk_chain-Holds reader 2 9 reader-IsReady (omega arith)

two_clusters : walk_chain reader 2 9 ≡ ok (2 ∷ 3 ∷ [], reader)
unfolding walk_chain walk_loop contains read_fat_entry read_entry entry_at plumbing
two_clusters = refl

walk_chain-IsWalk_example : IsWalk reader 2 (2 ∷ 3 ∷ [])
walk_chain-IsWalk_example = walk_chain-IsWalk reader 2 9 (2 ∷ 3 ∷ [], reader) two_clusters

-- A volume on an image that holds its boot sector.
abbrev volume : ImageReader
volume = record { file = boot_bytes; image_size = 512 }

investigate-AreDistinct_example :
    Holds
      (λ investigation. AreDistinct investigation.entries)
      (investigate_filesystem reader (2 ^ 32))
investigate-AreDistinct_example =
    investigate-AreDistinct reader (2 ^ 32) reader-IsReady (omega arith)
