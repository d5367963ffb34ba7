-- ===== src/Exfat/Boot/Accepted.antt =====
-- Which boot sectors are accepted, and which make the parser panic.
use forensis.Prelude.{
  List, ap, arith, ok, panic, plumbing, ℕ, ◌*◌, ◌+◌, ◌<◌, ◌^◌, ◌↔◌, ◌∙◌, ◌≡◌, ◌≤◌, ◌⊎◌,
}
use forensis.Bytes.{AreBytes}
use forensis.Exfat.Boot.{ExfatBootSector, check_layout, parse, parse_fields}
use forensis.Exfat.Boot.Layout.{AreFields, parse_fields-Holds}

-- The first sector behind the tables.
abbrev tables_end : ExfatBootSector → ℕ
tables_end boot = boot.fat_offset + boot.fat_length * boot.number_of_fats

-- Tables that are there and end before the heap, and a root directory in the heap, the last cluster of
-- which has a 32-bit number.
pub record IsVolume (boot : ExfatBootSector) : Type 0 where
  pub tables : (1 ≤ boot.fat_offset) × (1 ≤ boot.fat_length)
  pub tables_fit : tables_end boot ≤ boot.cluster_heap_offset
  pub root :
      (2 ≤ boot.root_directory_cluster) × (boot.root_directory_cluster ≤ boot.cluster_count + 1)
  pub last : boot.cluster_count + 1 < 2 ^ 32

-- No field is zero, and the end of the tables, or else the number of the last cluster, needs more than
-- 32 bits.
pub record IsTooLarge (boot : ExfatBootSector) : Type 0 where
  pub tables : (1 ≤ boot.fat_offset) × (1 ≤ boot.fat_length)
  pub heap : (1 ≤ boot.cluster_heap_offset) × (1 ≤ boot.cluster_count)
  pub sum :
      (2 ^ 32 ≤ tables_end boot)
      ⊎ (tables_end boot ≤ boot.cluster_heap_offset)
        × (2 ≤ boot.root_directory_cluster)
        × (2 ^ 32 ≤ boot.cluster_count + 1)

module _ (boot : ExfatBootSector) where
  check_layout-accepts : AreFields boot → IsVolume boot → check_layout boot ≡ ok boot
  unfolding check_layout plumbing
  check_layout-accepts f v = ground (arith, f.heap, v.tables, v.tables_fit, v.root, v.last, f.fats)

  check_layout-IsVolume :
      (accepted : ExfatBootSector)
      → check_layout boot ≡ ok accepted
      → (boot ≡ accepted) × IsVolume boot
  unfolding check_layout plumbing
  check_layout-IsVolume accepted e = (
    ground (arith, e),
    record {
      tables = ground (arith, e);
      tables_fit = ground (arith, e);
      root = ground (arith, e);
      last = ground (arith, e);
    },
  )

  check_layout-panics : IsTooLarge boot → check_layout boot ≡ panic
  unfolding check_layout plumbing
  check_layout-panics l = ground (arith, l.tables, l.heap, l.sum)

  check_layout-IsTooLarge : check_layout boot ≡ panic → IsTooLarge boot
  unfolding check_layout plumbing
  check_layout-IsTooLarge e = record {
    tables = ground (arith, e);
    heap = ground (arith, e);
    sum = ground (arith, e);
  }

-- A boot sector of bytes, of which the first half of the checks reads the fields, is accepted exactly
-- if they describe a volume, with sums that are not cut to 32 bits, and then the fields are what is
-- returned; it makes the parser panic exactly if one of the two sums needs more than 32 bits at its
-- turn. Any other boot sector is refused with an error.
pub parse_exfat-decides :
    (buffer : List ℕ) (boot accepted : ExfatBootSector)
    → AreBytes buffer
    → parse_fields buffer ≡ ok boot
    → ((parse buffer ≡ ok accepted) ↔ ((boot ≡ accepted) × IsVolume boot))
      × ((parse buffer ≡ panic) ↔ IsTooLarge boot)
unfolding parse plumbing
parse_exfat-decides buffer boot accepted b e =
    let f = (parse_fields-Holds buffer b).on_ok boot e in
    (
      (
        λ h. check_layout-IsVolume boot accepted (rw e at h),
        λ (same, v). rw e (check_layout-accepts boot f v ∙ ap ok same),
      ),
      (λ h. check_layout-IsTooLarge boot (rw e at h), λ l. rw e (check_layout-panics boot l)),
    )
