-- ===== src/Partition/Tests.antt =====
-- The theorems on partition tables at a concrete disk.
use forensis.Prelude.{
  All-append, All-replicate, IsByte, List, [], arith, ok, plumbing, refl, replicate, some, ℕ, ◌++◌,
  ◌∷◌, ◌≡◌,
}
use forensis.Bytes.{AreBytes, read_le, byte_at, slice, to_le_bytes}
use forensis.Source.{ImageReader, readable_image, read_image, image-IsTotal, IsTotal}
use forensis.Partition.{Partition, ntfs, linux_filesystem}
use forensis.Partition.Mbr
use forensis.Partition.Mbr.{parse_partition_type, read_entry, push_entry, entries_loop}
use forensis.Partition.Mbr.Slots.{Slot, encode_slots, listed, parse_mbr-encode}
use forensis.Partition.Table
use forensis.Partition.Table.{has_partition, detect, parse_as, mbr, mbr_table}
use forensis.Partition.Table.Detection.{HasExtent, parse-detect}

abbrev slot : ℕ → ℕ → ℕ → Slot
slot type_byte start_lba sectors = record {
  boot_flag = 0x80;
  first_chs = (1, 1, 0);
  type_byte = type_byte;
  last_chs = (254, 255, 255);
  start_lba = start_lba;
  sectors = sectors;
}

-- An NTFS partition, one of an unknown type, a Linux partition and an empty slot.
abbrev slots : List Slot
slots = slot 0x07 2048 4096 ∷ slot 0x42 9000 1 ∷ slot 0x83 10000 500 ∷ slot 0 0 0 ∷ []

abbrev boot_code : List ℕ
boot_code = replicate 446 0

abbrev signature : List ℕ
signature = 0x55 ∷ 0xaa ∷ []

-- The record, and an empty second sector.
abbrev disk : ImageReader
disk = record {
  file = boot_code ++ encode_slots slots (signature ++ replicate 512 0);
  image_size = 1024;
}

slots-AreBytes : AreBytes (encode_slots slots signature)
unfolding to_le_bytes
slots-AreBytes = omega arith

disk-AreBytes : AreBytes disk.file
unfolding to_le_bytes
disk-AreBytes =
    All-append IsByte boot_code (encode_slots slots (signature ++ replicate 512 0))
      (All-replicate IsByte 446 0 (omega arith))
      (All-append IsByte (encode_slots slots signature) (replicate 512 0) slots-AreBytes
        (All-replicate IsByte 512 0 (omega arith)))

disk-IsTotal : IsTotal (readable_image disk)
disk-IsTotal = image-IsTotal disk disk-AreBytes

first_sector : (readable_image disk).read_at 0 512 ≡ ok (boot_code ++ encode_slots slots signature)
unfolding to_le_bytes readable_image read_image
first_sector = refl

abbrev found : List Partition
found =
    record { number = 1; start_sector = 2048; sector_count = 4096; partition_type = ntfs }
    ∷ record {
      number = 3;
      start_sector = 10000;
      sector_count = 500;
      partition_type = linux_filesystem;
    }
    ∷ []

two_found : listed 0 slots ≡ found
unfolding parse_partition_type
two_found = refl

parse_mbr-encode_example : Mbr.parse (readable_image disk) ≡ ok (listed 0 slots)
parse_mbr-encode_example =
    parse_mbr-encode (readable_image disk) boot_code signature (slot 0x07 2048 4096)
      (slot 0x42 9000 1) (slot 0x83 10000 500) (slot 0 0 0) (omega arith) refl first_sector

parsed : Table.parse (readable_image disk) ≡ ok (some (mbr found))
unfolding Table.parse detect parse_as Mbr.parse has_partition read_entry push_entry entries_loop
    parse_partition_type to_le_bytes readable_image read_image read_le byte_at slice plumbing
parsed = refl

parse-detect_example :
    (detect (readable_image disk) ≡ ok mbr_table)
    × ((partitions : List Partition) → mbr found ≡ mbr partitions → HasExtent partitions)
parse-detect_example = parse-detect (readable_image disk) (mbr found) parsed
