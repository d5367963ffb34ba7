-- ===== src/Exfat/Boot/Layout.antt =====
-- The layout that a parsed boot sector describes.
use forensis.Prelude.{
  Holds, Holds-add, Holds-bind, Holds-fail_if, Holds-mul, Holds-ok, Holds-ok_or, Holds-weaken, List,
  arith, length, ok, refl, some, suc, u32_mod, zero, ℕ, ◌*◌, ◌+◌, ◌-◌, ◌<◌, ◌^◌, ◌≡◌, ◌≤◌,
}
use native.Mathlib.Nat.{pow-suc, mul-le-mul, le_refl}
use forensis.Bytes.{AreBytes}
use forensis.Bytes.Laws.{read_le-Holds, byte_at-Holds, slice-Holds}
use forensis.Exfat.Boot.{
  ExfatBootSector, parse_fields, check_layout, parse, cluster_size, sectors_per_cluster,
  cluster_byte_offset,
}

-- What is known of the fields as they are read.
pub record AreFields (boot : ExfatBootSector) : Type 0 where
  pub sector_low : 512 ≤ boot.bytes_per_sector
  pub sector_high : boot.bytes_per_sector ≤ 4096
  pub cluster_bits : boot.sectors_per_cluster_bits ≤ 25
  pub fats : (1 ≤ boot.number_of_fats) × (boot.number_of_fats ≤ 2)
  pub fat_offset : boot.fat_offset < 2 ^ 32
  pub heap : boot.cluster_heap_offset < 2 ^ 32
  pub clusters : boot.cluster_count < 2 ^ 32
  pub root : boot.root_directory_cluster < 2 ^ 32

-- A table, the copies of it before the heap of clusters, and a root directory in the heap.
pub record IsLayout (boot : ExfatBootSector) : Type 0 where
  pub fields : AreFields boot
  pub tables_fit :
      boot.fat_offset + boot.fat_length * boot.number_of_fats ≤ boot.cluster_heap_offset
  pub has_table : (1 ≤ boot.fat_offset) × (1 ≤ boot.fat_length)
  pub root_low : 2 ≤ boot.root_directory_cluster
  pub root_high : boot.root_directory_cluster ≤ boot.cluster_count + 1

pub parse_fields-Holds : (buffer : List ℕ) → AreBytes buffer → Holds AreFields (parse_fields buffer)
unfolding parse_fields
parse_fields-Holds buffer b = Holds-fail_if _ _ _ λ long.
    let size : 512 ≤ length buffer = ground arith in
    let word =
      λ (n offset : ℕ) (h : offset + n ≤ 512). read_le-Holds n buffer offset b (omega arith) in
    let byte = λ (index : ℕ) (h : index < 512). byte_at-Holds buffer index b (omega arith) in
    Holds-bind _ _ (slice-Holds buffer 0x03 0x0b b (omega arith) (omega arith)) λ label _ _.
      Holds-fail_if _ _ _ λ _. Holds-bind _ _ (word 2 0x1fe (omega arith)) λ signature _ _.
        Holds-fail_if _ _ _ λ _. Holds-bind _ _ (byte 0x6c (omega arith)) λ shift _ _.
          Holds-ok_or _ _ _ λ bytes_per_sector _. Holds-fail_if _ _ _ λ supported.
            Holds-bind _ _ (byte 0x6d (omega arith)) λ bits _ _. Holds-fail_if _ _ _ λ few.
              Holds-bind _ _ (byte 0x6e (omega arith)) λ fats _ _. Holds-fail_if _ _ _ λ copies.
                Holds-bind _ _ (word 4 0x50 (omega arith)) λ fat_offset o _.
                  Holds-bind _ _ (word 4 0x54 (omega arith)) λ fat_length _ _.
                    Holds-bind _ _ (word 4 0x58 (omega arith)) λ heap h _.
                      Holds-bind _ _ (word 4 0x5c (omega arith)) λ clusters c _.
                        Holds-bind _ _ (word 4 0x60 (omega arith)) λ root r _.
                          Holds-bind _ _ (word 4 0x64 (omega arith)) λ _ _ _.
                            Holds-bind _ _ (word 2 0x68 (omega arith)) λ _ _ _.
                              Holds-bind _ _ (word 2 0x6a (omega arith)) λ _ _ _.
                                Holds-bind _ _ (byte 0x6f (omega arith)) λ _ _ _.
                                  Holds-bind _ _ (byte 0x70 (omega arith)) λ _ _ _.
                                    Holds-ok _ (record {
                                      sector_low = ground arith;
                                      sector_high = ground arith;
                                      cluster_bits = ground arith;
                                      fats = (ground arith, ground arith);
                                      fat_offset = omega arith;
                                      heap = omega arith;
                                      clusters = omega arith;
                                      root = omega arith;
                                    })

-- Where the ends of the tables and of the heap fit into 32 bits, the checks do not panic.
pub check_layout-Holds :
    (boot : ExfatBootSector)
    → AreFields boot
    → boot.fat_offset + boot.fat_length * boot.number_of_fats < 2 ^ 32
    → boot.cluster_count + 1 < 2 ^ 32
    → Holds (λ checked. (checked ≡ boot) × IsLayout boot) (check_layout boot)
unfolding check_layout
check_layout-Holds boot f fits last = Holds-fail_if _ _ _ λ present. Holds-fail_if _ _ _ λ nonzero.
    Holds-bind _ _ (Holds-mul u32_mod boot.fat_length boot.number_of_fats (omega arith)) λ fats q _.
      Holds-bind _ _ (Holds-add u32_mod boot.fat_offset fats (omega arith)) λ end e _.
        Holds-fail_if _ _ _ λ behind. Holds-fail_if _ _ _ λ low.
          Holds-bind _ _ (Holds-add u32_mod boot.cluster_count 1 last) λ top t _.
            Holds-fail_if _ _ _ λ high. Holds-ok _ (
              refl,
              record {
                fields = f;
                tables_fit = ground arith;
                has_table = (ground arith, ground arith);
                root_low = ground arith;
                root_high = ground arith;
              },
            )

-- The two sums of 32 bits that the checks make.
pub record FitsWords (boot : ExfatBootSector) : Type 0 where
  pub tables : boot.fat_offset + boot.fat_length * boot.number_of_fats < 2 ^ 32
  pub heap : boot.cluster_count + 1 < 2 ^ 32

-- A boot sector of bytes, the sums of which fit into 32 bits, is parsed without a panic, and what is
-- returned is a layout: the tables end before the heap, and the root directory lies in it.
pub parse_exfat-Holds :
    (buffer : List ℕ)
    → AreBytes buffer
    → ((boot : ExfatBootSector) → parse_fields buffer ≡ ok boot → FitsWords boot)
    → Holds IsLayout (parse buffer)
unfolding parse
parse_exfat-Holds buffer b fits = Holds-bind _ _ (parse_fields-Holds buffer b) λ boot f e.
    let w = fits boot e in
    Holds-weaken _ (λ checked h. rw h.0 h.1) (check_layout-Holds boot f w.tables w.heap)

two_pow_pos : (n : ℕ) → 0 < 2 ^ n
two_pow_pos zero = omega arith
two_pow_pos (suc n) = rw pow-suc (omega (arith, two_pow_pos n))

pub cluster_size_positive : (boot : ExfatBootSector) → AreFields boot → 1 ≤ cluster_size boot
unfolding cluster_size sectors_per_cluster
cluster_size_positive boot f =
    let power : 0 < 2 ^ boot.sectors_per_cluster_bits = two_pow_pos boot.sectors_per_cluster_bits in
    let sectors : 1 ≤ 2 ^ boot.sectors_per_cluster_bits = omega arith in grind (arith, f.sector_low)

below_product : (i n s : ℕ) → i < n → i * s + s ≤ n * s
below_product i n s h = grind arith

-- The bytes of a cluster that has an offset lie behind both tables, and end where those of a later
-- cluster begin, or before.
pub cluster_byte_offset_disjoint :
    (boot : ExfatBootSector) (c d s t : ℕ)
    → IsLayout boot
    → c < d
    → cluster_byte_offset boot c ≡ some s
    → cluster_byte_offset boot d ≡ some t
    → ((boot.fat_offset + boot.fat_length * boot.number_of_fats) * boot.bytes_per_sector ≤ s)
      × (s + cluster_size boot ≤ t)
unfolding cluster_byte_offset
cluster_byte_offset_disjoint boot c d s t g l e f =
    let low : 2 ≤ c = ground arith in
    let front : (boot.fat_offset + boot.fat_length * boot.number_of_fats) * boot.bytes_per_sector
        ≤ boot.cluster_heap_offset * boot.bytes_per_sector =
      mul-le-mul g.tables_fit (le_refl boot.bytes_per_sector) in
    (ground arith, ground (arith, below_product (c - 2) (d - 2) (cluster_size boot) (omega arith)))
