-- ===== src/Ntfs/Volume/Geometry.antt =====
-- What a boot sector that is accepted says of the volume.
use native.Mathlib.Nat.{pow-suc, pow-le-pow_right, mul-pos}
use forensis.Prelude.{
  Bool-cases, Holds, Holds-bind, Holds-fail_if, Holds-if, Holds-ok, Holds-some, List, String, arith,
  checked_mul-eq, get_or, inl, inr, length, ltb, ok, plumbing, some, suc, zero, ℕ, ◌&&◌, ◌*◌, ◌<◌,
  ◌==◌, ◌^◌, ◌≡◌, ◌≢◌, ◌≤◌,
}
use forensis.Source.{Readable, IsTotal}
use forensis.Bytes.{AreBytes, byte_at}
use forensis.Bytes.Laws.{read_le-Holds, byte_at-Holds, byte_at-ok, slice-Holds}
use forensis.Ntfs.Volume
use forensis.Ntfs.Volume.{NtfsBootSector, negated, record_size, parse_sector, checked_power}

power-pos : (n : ℕ) → 0 < 2 ^ n
power-pos zero = omega arith
power-pos (suc n) = rw pow-suc (omega (arith, power-pos n))

checked_power-bound : (n size : ℕ) → checked_power n ≡ some size → (0 < size) × (size < 2 ^ 64)
checked_power-bound n size e = elim (Bool-cases (ltb n 64)) [
  | inl small ↦
      let bound : 2 ^ n ≤ 2 ^ 63 = pow-le-pow_right (omega arith) {i = n} {j = 63} (ground arith) in
      let same : 2 ^ n ≡ size = ground (arith, e) in
      (omega (arith, same, power-pos n), omega (arith, same, bound))
  | inr large ↦ absurd (ground (arith, e))
]

negated-Holds : (byte : ℕ) → byte ≢ 128 → Holds (λ _. Unit {0}) (negated byte)
unfolding negated
negated-Holds byte n =
    Holds-if (byte == 0) _ _ (λ _. Holds-ok _ tt)
      (λ _. Holds-if (byte == 128) _ _ (λ e. absurd (n (ground arith))) (λ _. Holds-ok _ tt))

-- A record size that the code computes is not zero.
record_size-Holds :
    (cluster_size byte : ℕ) (overflow invalid : String)
    → 0 < cluster_size
    → byte ≢ 128
    → Holds (λ size. (0 < size) × (size < 2 ^ 64)) (record_size cluster_size byte overflow invalid)
unfolding record_size negated plumbing
record_size-Holds cluster_size byte overflow invalid c n =
    Holds-if (ltb 0 byte && ltb byte 128) _ _
      (λ clusters. Holds-some _ _ λ size e.
        let whole = checked_mul-eq _ _ _ _ e in
        let bytes : 0 < byte = ground arith in
        let product : 0 < cluster_size * byte = mul-pos c bytes in
        (omega (arith, whole), omega (arith, whole)))
      (λ shifted.
        Holds-bind {Q = λ _. Unit {0}} _ _ (negated-Holds byte n)
          λ exponent _ _. Holds-some _ _ λ size e. checked_power-bound exponent size e)

-- What an accepted boot sector guarantees.
pub record IsGeometry (sector : NtfsBootSector) : Type 0 where
  pub bytes_per_sector : 0 < sector.bytes_per_sector
  pub sectors_per_cluster : 0 < sector.sectors_per_cluster
  pub total_sectors : 0 < sector.total_sectors
  pub mft_record_size : (0 < sector.mft_record_size) × (sector.mft_record_size < 2 ^ 64)
  pub index_record_size : (0 < sector.index_record_size) × (sector.index_record_size < 2 ^ 64)

same_byte :
    (sector : List ℕ) (index byte value : ℕ)
    → index < length sector
    → byte_at sector index ≡ ok byte
    → byte ≡ value
    → get_or sector index 0 ≡ value
same_byte sector index byte value inside at e = ground (arith, byte_at-ok sector index inside)

parse_sector-Holds :
    (sector : List ℕ)
    → AreBytes sector
    → length sector ≡ 512
    → get_or sector 64 0 ≢ 128
    → get_or sector 68 0 ≢ 128
    → Holds IsGeometry (parse_sector sector)
unfolding parse_sector
parse_sector-Holds sector b l n n' =
    Holds-bind _ _ (slice-Holds sector 3 7 b (omega arith) (omega (arith, l))) λ _ _ _.
      Holds-fail_if _ _ _ λ _.
        Holds-bind _ _ (read_le-Holds 2 sector 11 b (omega (arith, l))) λ bytes_per_sector _ _.
          Holds-bind _ _ (byte_at-Holds sector 13 b (omega (arith, l))) λ sectors_per_cluster _ _.
            Holds-fail_if _ _ _ λ some_size.
              let size : 0 < bytes_per_sector * sectors_per_cluster =
                mul-pos (ground arith) (ground arith) in
              Holds-bind _ _ (read_le-Holds 8 sector 40 b (omega (arith, l))) λ total _ _.
                Holds-bind _ _ (read_le-Holds 8 sector 48 b (omega (arith, l))) λ _ _ _.
                  Holds-bind _ _ (read_le-Holds 8 sector 56 b (omega (arith, l))) λ _ _ _.
                    Holds-bind _ _ (byte_at-Holds sector 64 b (omega (arith, l)))
                      λ clusters_per_record _ at.
                        Holds-bind _ _
                          (record_size-Holds _ clusters_per_record _ _ size λ e.
                            n (same_byte sector 64 clusters_per_record _ (omega (arith, l)) at e))
                          λ record' r _.
                            Holds-bind _ _ (byte_at-Holds sector 68 b (omega (arith, l)))
                              λ clusters_per_index _ at'.
                                Holds-bind _ _
                                  (record_size-Holds _ clusters_per_index _ _ size λ e. n' (
                                    same_byte sector 68 clusters_per_index _ (omega (arith, l)) at'
                                      e))
                                  λ index i _. Holds-fail_if _ _ _ λ total_size.
                                    Holds-ok _ (record {
                                      bytes_per_sector = ground arith;
                                      sectors_per_cluster = ground arith;
                                      total_sectors = ground arith;
                                      mft_record_size = r;
                                      index_record_size = i;
                                    })

-- From evidence that every read returns from or fails on, a boot sector in which neither size byte is
-- the most negative one is accepted or refused without a panic; where it is accepted, a sector, a
-- cluster, the volume and both kinds of records have positive sizes, the last ones of 64 bits.
pub parse_volume-Holds :
    (reader : Readable) (partition_offset : ℕ)
    → IsTotal reader
    → ((sector : List ℕ)
        → reader.read_at partition_offset 512 ≡ ok sector
        → (get_or sector 64 0 ≢ 128) × (get_or sector 68 0 ≢ 128))
    → Holds (λ volume. IsGeometry volume.boot_sector) (Volume.parse reader partition_offset)
unfolding Volume.parse
parse_volume-Holds reader partition_offset t sizes =
    Holds-bind _ _ (t.fills partition_offset 512) λ sector f e.
      Holds-bind _ _ (parse_sector-Holds sector f.0 f.1 (sizes sector e).0 (sizes sector e).1)
        λ boot_sector g _. Holds-ok _ g
