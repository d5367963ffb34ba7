-- ===== src/Fat32/Boot/Geometry.antt =====
-- The geometry that a parsed boot sector describes.
use native.Mathlib.Nat.{div-add-mod}
use forensis.Prelude.{
  Holds, Holds-bind, Holds-fail_if, Holds-mul, Holds-ok, Holds-ok_or, Holds-sub, List, arith,
  checked_add-eq, checked_mul-eq, false, if◌then◌else◌, leb→gt, length, not, some, u32_mod, ℕ, ◌*◌,
  ◌+◌, ◌-◌, ◌/◌, ◌<◌, ◌==◌, ◌^◌, ◌||◌, ◌≡◌, ◌≤◌,
}
use forensis.Bytes.{AreBytes}
use forensis.Bytes.Laws.{read_le-Holds, byte_at-Holds, slice-Holds}
use forensis.Fat32.Boot.{
  Fat32BootSector, RawFields, parse_fields, derive_geometry, parse, sector_of_cluster,
  supported_sector, is_power_of_two,
}

record AreFields (raw : RawFields) : Type 0 where
  sector_low : 512 ≤ raw.bytes_per_sector
  sector_high : raw.bytes_per_sector ≤ 4096
  cluster_low : 1 ≤ raw.sectors_per_cluster
  cluster_high : raw.sectors_per_cluster ≤ 128
  fats : 1 ≤ raw.fat_count
  reserved : raw.reserved_sectors < 2 ^ 16
  root_entries : raw.root_entry_count < 2 ^ 16
  total : raw.total_sectors < 2 ^ 32
  root : raw.root_cluster < 2 ^ 32

-- The regions of the volume follow one another and end within it.
pub record IsGeometry (boot : Fat32BootSector) : Type 0 where
  pub sector_low : 512 ≤ boot.bytes_per_sector
  pub sector_high : boot.bytes_per_sector ≤ 4096
  pub cluster_low : 1 ≤ boot.sectors_per_cluster
  pub cluster_high : boot.sectors_per_cluster ≤ 128
  pub fat_fits : boot.reserved_sectors + boot.fat_size * boot.fat_count ≤ boot.first_data_sector
  pub has_fat : 1 ≤ boot.fat_size * boot.fat_count
  pub clusters_fit :
      boot.first_data_sector + boot.total_clusters * boot.sectors_per_cluster ≤ boot.total_sectors
  pub total : boot.total_sectors < 2 ^ 32
  pub root_low : 2 ≤ boot.root_cluster
  pub root_high : boot.root_cluster < 2 ^ 32

supported_bounds : (n : ℕ) → not (supported_sector n) ≡ false → (512 ≤ n) × (n ≤ 4096)
supported_bounds n h = ground arith

power_bounds : (n : ℕ) → (n == 0 || not (is_power_of_two n)) ≡ false → (1 ≤ n) × (n ≤ 128)
power_bounds n h = ground arith

choice : (a b : ℕ) → a < 2 ^ 32 → b < 2 ^ 32 → (if not (a == 0) then a else b) < 2 ^ 32
choice a b h k = ground arith

parse_fields-Holds :
    (buffer : List ℕ)
    → AreBytes buffer
    → Holds (λ raw. AreFields raw × (512 ≤ length buffer)) (parse_fields buffer)
unfolding parse_fields
parse_fields-Holds buffer b = Holds-fail_if _ _ _ λ long.
    let size : 512 ≤ length buffer = ground arith in
    Holds-bind _ _ (read_le-Holds 2 buffer 0x1fe b (omega arith)) λ signature _ _.
      Holds-fail_if _ _ _ λ _.
        Holds-bind _ _ (read_le-Holds 2 buffer 0x0b b (omega arith)) λ bytes_per_sector _ _.
          Holds-fail_if _ _ _ λ supported.
            Holds-bind _ _ (byte_at-Holds buffer 0x0d b (omega arith)) λ sectors_per_cluster _ _.
              Holds-fail_if _ _ _ λ power.
                Holds-bind _ _ (read_le-Holds 2 buffer 0x0e b (omega arith)) λ reserved r _.
                  Holds-bind _ _ (byte_at-Holds buffer 0x10 b (omega arith)) λ fat_count _ _.
                    Holds-fail_if _ _ _ λ fats.
                      Holds-bind _ _ (read_le-Holds 2 buffer 0x11 b (omega arith))
                        λ root_entries e _.
                          Holds-bind _ _ (read_le-Holds 2 buffer 0x13 b (omega arith))
                            λ total_16 t16 _.
                              Holds-bind _ _ (byte_at-Holds buffer 0x15 b (omega arith))
                                λ media _ _.
                                  Holds-bind _ _ (read_le-Holds 2 buffer 0x16 b (omega arith))
                                    λ size_16 _ _.
                                      Holds-bind _ _ (read_le-Holds 4 buffer 0x20 b (omega arith))
                                        λ total_32 t32 _.
                                          Holds-bind _ _
                                            (read_le-Holds 4 buffer 0x24 b (omega arith))
                                            λ size_32 _ _.
                                              Holds-bind _ _
                                                (read_le-Holds 4 buffer 0x2c b (omega arith))
                                                λ root_cluster c _.
                                                  Holds-bind _ _
                                                    (read_le-Holds 2 buffer 0x30 b (omega arith))
                                                    λ fs_info _ _.
                                                      Holds-bind _ _
                                                        (read_le-Holds 2 buffer 0x32 b
                                                          (omega arith))
                                                        λ backup _ _. Holds-ok _ (
                                                          record {
                                                            sector_low =
                                                            (supported_bounds bytes_per_sector
                                                            supported).0;
                                                            sector_high =
                                                            (supported_bounds bytes_per_sector
                                                            supported).1;
                                                            cluster_low =
                                                            (power_bounds sectors_per_cluster
                                                            power).0;
                                                            cluster_high =
                                                            (power_bounds sectors_per_cluster
                                                            power).1;
                                                            fats = ground arith;
                                                            reserved = omega arith;
                                                            root_entries = omega arith;
                                                            total =
                                                            choice total_16 total_32 (omega arith)
                                                            (omega arith);
                                                            root = omega arith;
                                                          },
                                                          size,
                                                        )

positive_product : (a b : ℕ) → 1 ≤ a → 1 ≤ b → 1 ≤ a * b
positive_product a b h k = grind arith

below_product : (i n s : ℕ) → i < n → i * s + s ≤ n * s
below_product i n s h = grind arith

div_mul_le : (a b : ℕ) → a / b * b ≤ a
div_mul_le a b = omega (arith, div-add-mod a b)

derive_geometry-Holds :
    (buffer : List ℕ) (raw : RawFields)
    → AreBytes buffer
    → 512 ≤ length buffer
    → AreFields raw
    → Holds IsGeometry (derive_geometry buffer raw)
unfolding derive_geometry
derive_geometry-Holds buffer raw b size f = Holds-fail_if _ _ _ λ nonzero.
    Holds-bind _ _ (Holds-mul u32_mod raw.root_entry_count 32 (omega (arith, f.root_entries)))
      λ entries _ _. Holds-ok_or _ _ _ λ fats x. Holds-ok_or _ _ _ λ front y.
        Holds-ok_or _ _ _ λ first z. Holds-fail_if _ _ _ λ inside.
          Holds-bind _ _ (Holds-sub raw.total_sectors first (ground arith)) λ sectors d _.
            Holds-bind _ _ (slice-Holds buffer 0x52 0x5a b (omega arith) (omega arith)) λ label _ _.
              Holds-fail_if _ _ _ λ _. Holds-fail_if _ _ _ λ root. Holds-ok _ (record {
                sector_low = f.sector_low;
                sector_high = f.sector_high;
                cluster_low = f.cluster_low;
                cluster_high = f.cluster_high;
                fat_fits = omega (
                  arith,
                  checked_mul-eq _ _ _ _ x,
                  checked_add-eq _ _ _ _ y,
                  checked_add-eq _ _ _ _ z,
                );
                has_fat = positive_product raw.fat_size raw.fat_count (ground arith) f.fats;
                clusters_fit =
                    let inner : first < raw.total_sectors = leb→gt _ _ inside in
                    omega (arith, div_mul_le sectors raw.sectors_per_cluster);
                total = f.total;
                root_low = ground arith;
                root_high = f.root;
              })

-- On any bytes the parser returns or fails without a panic, and what it returns is a geometry.
pub parse_boot-Holds : (buffer : List ℕ) → AreBytes buffer → Holds IsGeometry (parse buffer)
unfolding parse
parse_boot-Holds buffer b =
    Holds-bind _ _ (parse_fields-Holds buffer b)
      λ raw f _. derive_geometry-Holds buffer raw b f.1 f.0

module _ (boot : Fat32BootSector) (g : IsGeometry boot) (cluster : ℕ) where
  -- A cluster of the data region, that is, one from 2 up to the number of clusters plus one, starts
  -- behind the tables and ends within the volume.
  pub sector_of_cluster_inside :
      2 ≤ cluster
      → cluster < boot.total_clusters + 2
      → (sector : ℕ) × (sector_of_cluster boot cluster ≡ some sector)
        × (boot.reserved_sectors + boot.fat_size * boot.fat_count ≤ sector)
        × (sector + boot.sectors_per_cluster ≤ boot.total_sectors)
  unfolding sector_of_cluster
  sector_of_cluster_inside low high = (
    boot.first_data_sector + (cluster - 2) * boot.sectors_per_cluster,
    ground (arith, room, g.clusters_fit, g.total),
    omega (arith, g.fat_fits),
    omega (arith, room, g.clusters_fit),
  )
    where
      room :
          (cluster - 2) * boot.sectors_per_cluster + boot.sectors_per_cluster
          ≤ boot.total_clusters * boot.sectors_per_cluster
      room = below_product (cluster - 2) boot.total_clusters boot.sectors_per_cluster (omega arith)

-- Two clusters never share a sector: the later one starts where the earlier one has ended.
pub sector_of_cluster_disjoint :
    (boot : Fat32BootSector) (c d s t : ℕ)
    → c < d
    → sector_of_cluster boot c ≡ some s
    → sector_of_cluster boot d ≡ some t
    → s + boot.sectors_per_cluster ≤ t
unfolding sector_of_cluster
sector_of_cluster_disjoint boot c d s t l e f =
    let low : 2 ≤ c = ground arith in
    ground (arith, below_product (c - 2) (d - 2) boot.sectors_per_cluster (omega arith))
