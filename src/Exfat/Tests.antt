-- ===== src/Exfat/Tests.antt =====
-- The theorems on exFAT boot sectors and readers at concrete inputs.
mod Walk
use forensis.Prelude.{
  All-append, All-replicate, Holds, IsByte, List, [], arith, div_ceil, inl, length, min, ok, panic,
  plumbing, refl, replicate, some, ℕ, ◌*◌, ◌++◌, ◌+◌, ◌^◌, ◌↔◌, ◌∷◌, ◌≡◌, ◌≤◌,
}
use forensis.Bytes.{AreBytes, read_le, byte_at, slice}
use forensis.Source.{readable_image, read_image, image-IsTotal}
use forensis.Exfat.Boot.{
  ExfatBootSector, exfat_type_label, parse_fields, parse, cluster_size, sectors_per_cluster,
  cluster_byte_offset,
}
use forensis.Exfat.Boot.Layout.{IsLayout, FitsWords, cluster_byte_offset_disjoint}
use forensis.Exfat.Boot.Accepted.{IsTooLarge, IsVolume, parse_exfat-decides}
use forensis.Exfat.Reader.{ExfatReader, read_at, read_fat_entry, walk_loop, walk_chain, read_chain}
use forensis.Exfat.Reader.Chain.{IsReady}
use forensis.Exfat.Reader.Walk.{IsLinked, walk_exfat_chain-IsLinked}
use forensis.Exfat.Reader.Read.{Appends, read_exfat_chain-Holds}
use forensis.Fat32.Reader.{contains}

-- A boot sector whose tables have so many 2 ^ 24 sectors, and one more.
abbrev boot_front : ℕ → List ℕ
boot_front high =
    1 ∷ 0 ∷ 0 ∷ 0 ∷ 1 ∷ 0 ∷ 0 ∷ high ∷ 3 ∷ 0 ∷ 0 ∷ 0 ∷ 3 ∷ 0 ∷ 0 ∷ 0 ∷ 2 ∷ 0 ∷ 0 ∷ 0 ∷ 7 ∷ 0 ∷ 0 ∷ 0
    ∷ 0 ∷ 1 ∷ 0 ∷ 0 ∷ 9 ∷ 0 ∷ 2 ∷ 0x80 ∷ 0xff ∷ []

abbrev boot_end : List ℕ
boot_end = replicate 397 0 ++ (0x55 ∷ 0xaa ∷ [])

abbrev boot_bytes : ℕ → List ℕ
boot_bytes high =
    0xeb ∷ 0x76 ∷ 0x90 ∷ (exfat_type_label ++ (replicate 69 0 ++ (boot_front high ++ boot_end)))

boot_bytes-AreBytes : AreBytes (boot_bytes 0)
boot_bytes-AreBytes =
    All-append IsByte (0xeb ∷ 0x76 ∷ 0x90 ∷ exfat_type_label)
      (replicate 69 0 ++ (boot_front 0 ++ boot_end)) (omega arith)
      (All-append IsByte (replicate 69 0) (boot_front 0 ++ boot_end)
        (All-replicate IsByte 69 0 (omega arith))
        (All-append IsByte (boot_front 0) boot_end (omega arith) (
          All-append IsByte (replicate 397 0) (0x55 ∷ 0xaa ∷ [])
            (All-replicate IsByte 397 0 (omega arith)) (omega arith))))

-- Three clusters of a sector each, behind two tables of a sector.
abbrev boot_of : ℕ → ExfatBootSector
boot_of fat_length = record {
  bytes_per_sector = 512;
  sectors_per_cluster_bits = 0;
  fat_length = fat_length;
  fat_offset = 1;
  cluster_heap_offset = 3;
  cluster_count = 3;
  root_directory_cluster = 2;
  volume_serial = 7;
  filesystem_revision = 256;
  volume_flags = 0;
  number_of_fats = 2;
  drive_select = 0x80;
  percent_in_use = 0xff;
}

abbrev boot : ExfatBootSector
boot = boot_of 1

fields_read : parse_fields (boot_bytes 0) ≡ ok boot
unfolding parse_fields plumbing read_le byte_at slice
fields_read = refl

fields_of_long_tables : parse_fields (boot_bytes 128) ≡ ok (boot_of (2 ^ 31 + 1))
unfolding parse_fields plumbing read_le byte_at slice
fields_of_long_tables = refl

boot-FitsWords : FitsWords boot
boot-FitsWords = record { tables = omega arith; heap = omega arith }

parse_exfat-decides_example :
    ((parse (boot_bytes 0) ≡ ok boot) ↔ ((boot ≡ boot) × IsVolume boot))
    × ((parse (boot_bytes 0) ≡ panic) ↔ IsTooLarge boot)
parse_exfat-decides_example =
    parse_exfat-decides (boot_bytes 0) boot boot boot_bytes-AreBytes fields_read

-- The end of two tables of 2 ^ 31 + 1 sectors each has no 32-bit number.
long_tables-IsTooLarge : IsTooLarge (boot_of (2 ^ 31 + 1))
long_tables-IsTooLarge = record {
  tables = (omega arith, omega arith);
  heap = (omega arith, omega arith);
  sum = inl (omega arith);
}

boot-IsLayout : IsLayout boot
boot-IsLayout = record {
  fields = record {
    sector_low = omega arith;
    sector_high = omega arith;
    cluster_bits = omega arith;
    fats = (omega arith, omega arith);
    fat_offset = omega arith;
    heap = omega arith;
    clusters = omega arith;
    root = omega arith;
  };
  tables_fit = omega arith;
  has_table = (omega arith, omega arith);
  root_low = omega arith;
  root_high = omega arith;
}

second_cluster : cluster_byte_offset boot 2 ≡ some 1536
unfolding cluster_byte_offset cluster_size sectors_per_cluster
second_cluster = refl

fourth_cluster : cluster_byte_offset boot 4 ≡ some 2560
unfolding cluster_byte_offset cluster_size sectors_per_cluster
fourth_cluster = refl

cluster_byte_offset_disjoint_example : (3 * 512 ≤ 1536) × (1536 + cluster_size boot ≤ 2560)
cluster_byte_offset_disjoint_example =
    cluster_byte_offset_disjoint boot 2 4 1536 2560 boot-IsLayout (omega arith) second_cluster
      fourth_cluster

-- A table in which cluster 2 is followed by cluster 3, and that by an end.
abbrev table_bytes : List ℕ
table_bytes = replicate 520 0 ++ (3 ∷ 0 ∷ 0 ∷ 0 ∷ 0xff ∷ 0xff ∷ 0xff ∷ 0xff ∷ [])

table_bytes-AreBytes : AreBytes table_bytes
table_bytes-AreBytes =
    All-append IsByte (replicate 520 0) (3 ∷ 0 ∷ 0 ∷ 0 ∷ 0xff ∷ 0xff ∷ 0xff ∷ 0xff ∷ [])
      (All-replicate IsByte 520 0 (omega arith)) (omega arith)

abbrev pub reader : ExfatReader
reader = record {
  source = readable_image (record { file = table_bytes; image_size = 528 });
  boot = boot;
  partition_offset = 0;
}

pub reader-IsReady : IsReady reader
reader-IsReady = record {
  source_total = image-IsTotal _ table_bytes-AreBytes;
  layout = boot-IsLayout;
}

two_clusters : walk_chain reader 2 9 ≡ ok (2 ∷ 3 ∷ [])
unfolding walk_chain walk_loop contains read_fat_entry read_at readable_image read_image plumbing
two_clusters = refl

walk_exfat_chain-IsLinked_example :
    (rest : List ℕ) × (◌≡◌ {A = List ℕ} (2 ∷ 3 ∷ []) (2 ∷ rest)) × IsLinked reader 2 rest
walk_exfat_chain-IsLinked_example =
    walk_exfat_chain-IsLinked reader 2 9 (2 ∷ 3 ∷ []) (λ e. absurd (omega (arith, e))) two_clusters

read_exfat_chain-Holds_example :
    Holds
      (λ result.
        (chain : List ℕ) × (walk_chain reader 2 (div_ceil 600 (cluster_size boot)) ≡ ok chain)
        × Appends [] (min 600 (length chain * cluster_size boot)) result)
      (read_chain reader 2 600 [])
read_exfat_chain-Holds_example = read_exfat_chain-Holds reader 2 600 [] reader-IsReady (omega arith)
