-- ===== src/Partition/Table/Safety.antt =====
-- Detecting and parsing a partition table never panics.
use forensis.Prelude.{
  All, All-append, Bool-cases, Holds, Holds-bind, Holds-if, Holds-ok, List, Option, [], arith, inl,
  inr, length, length-append, none, not, refl, some, suc, true, zero, ℕ, ◌&&◌, ◌*◌, ◌+◌, ◌<◌, ◌==◌,
  ◌^◌, ◌≡◌, ◌≤◌,
}
use forensis.Bytes.{AreBytes, bytes_eq}
use forensis.Bytes.Laws.{read_le-Holds, byte_at-Holds, slice-Holds}
use forensis.Source.{Readable, IsTotal}
use forensis.Partition.{Partition, is_known}
use forensis.Partition.Mbr
use forensis.Partition.Mbr.{MbrEntry, read_entry, push_entry, entries_loop}
use forensis.Partition.Gpt
use forensis.Partition.Gpt.{gpt_signature}
use forensis.Partition.Gpt.Bounds
use forensis.Partition.Gpt.Bounds.{AreFound}
use forensis.Partition.Table.{
  PartitionTable, PartitionTableType, mbr_table, gpt_table, unknown_table, mbr, gpt, is_partition,
  has_partition, detect, parse_as, parse,
}

-- A primary partition: of a known type, with 32-bit fields.
pub record IsPrimary (p : Partition) : Type 0 where
  pub known : is_known p.partition_type ≡ true
  pub start : p.start_sector < 2 ^ 32
  pub count : p.sector_count < 2 ^ 32

abbrev pub ArePrimary : ℕ → List Partition → Type 0
ArePrimary count partitions = All IsPrimary partitions × (length partitions ≤ count)

module _ (sector : List ℕ) (b : AreBytes sector) (size : length sector ≡ 512) where
  read_entry-Holds :
      (index : ℕ)
      → index < 4
      → Holds (λ e. (e.start_lba < 2 ^ 32) × (e.sectors < 2 ^ 32)) (read_entry sector index)
  unfolding read_entry
  read_entry-Holds index small =
      let offset = 446 + index * 16 in
      Holds-bind _ _ (byte_at-Holds sector (offset + 4) b (omega (arith, size))) λ type_byte _ _.
        Holds-bind _ _ (read_le-Holds 4 sector (offset + 8) b (omega (arith, size))) λ start s _.
          Holds-bind _ _ (read_le-Holds 4 sector (offset + 12) b (omega (arith, size)))
            λ count c _. Holds-ok _ (omega (arith, s), omega (arith, c))

  push_entry-ArePrimary :
      (index : ℕ) (entry : MbrEntry) (partitions : List Partition)
      → (entry.start_lba < 2 ^ 32) × (entry.sectors < 2 ^ 32)
      → ArePrimary index partitions
      → ArePrimary (index + 1) (push_entry index entry partitions)
  unfolding push_entry
  push_entry-ArePrimary index entry partitions f a =
      elim (Bool-cases (is_known entry.partition_type)) [
        | inl known ↦ rw known (
          All-append IsPrimary partitions _ a.0
              (record { known = known; start = f.0; count = f.1 }, tt),
          omega (arith, a.1, length-append partitions _),
        )
        | inr other ↦ rw other (a.0, omega (arith, a.1))
      ]

  entries_loop-Holds :
      (left index : ℕ) (partitions : List Partition)
      → index + left ≡ 4
      → ArePrimary index partitions
      → Holds (ArePrimary 4) (entries_loop sector left index partitions)
  unfolding entries_loop
  entries_loop-Holds zero index partitions sum a = Holds-ok _ (a.0, omega (arith, a.1))
  entries_loop-Holds (suc left) index partitions sum a =
      Holds-bind _ _ (read_entry-Holds index (omega arith)) λ entry f _.
        entries_loop-Holds left (index + 1) (push_entry index entry partitions) (omega arith)
          (push_entry-ArePrimary index entry partitions f a)

  has_partition-Holds :
      (left index : ℕ) → index + left ≡ 4 → Holds (λ _. Unit {0}) (has_partition sector left index)
  unfolding has_partition
  has_partition-Holds zero index sum = Holds-ok _ tt
  has_partition-Holds (suc left) index sum =
      Holds-bind _ _ (read_entry-Holds index (omega arith)) λ entry _ _.
        Holds-if (is_partition entry) _ _ (λ _. Holds-ok _ tt)
          (λ _. has_partition-Holds left (index + 1) (omega arith))

detect-Holds : (reader : Readable) → IsTotal reader → Holds (λ _. Unit {0}) (detect reader)
unfolding detect
detect-Holds reader t = Holds-bind _ _ (t.fills 512 512) λ header h _.
    Holds-bind _ _ (slice-Holds header 0 8 h.0 (omega arith) (omega (arith, h.1))) λ signature _ _.
      Holds-if (bytes_eq signature gpt_signature) _ _ (λ _. Holds-ok _ tt)
        λ _. Holds-bind _ _ (t.fills 0 512) λ sector f _.
          Holds-bind _ _ (byte_at-Holds sector 510 f.0 (omega (arith, f.1))) λ low _ _.
            Holds-bind _ _ (byte_at-Holds sector 511 f.0 (omega (arith, f.1))) λ high _ _.
              Holds-if (not (low == 0x55 && high == 0xaa)) _ _ (λ _. Holds-ok _ tt)
                λ _.
                  Holds-bind _ _ (has_partition-Holds sector f.0 f.1 4 0 refl)
                    λ found _ _. Holds-ok _ tt

-- What a table may be: at most four primary partitions, or the entries of a GPT.
pub IsSound : Option PartitionTable → Type 0
IsSound none = Unit
IsSound (some (mbr partitions)) = ArePrimary 4 partitions
IsSound (some (gpt table)) = AreFound table.header.number_of_partition_entries table.partitions

parse_as-Holds :
    (reader : Readable) (found : PartitionTableType)
    → IsTotal reader
    → Holds IsSound (parse_as reader found)
unfolding parse_as Mbr.parse IsSound
parse_as-Holds reader mbr_table t =
    Holds-bind _ _
      (Holds-bind _ _ (t.fills 0 512)
        λ sector f _. entries_loop-Holds sector f.0 f.1 4 0 [] refl (tt, omega arith))
      λ partitions a _. Holds-ok _ a
parse_as-Holds reader gpt_table t =
    Holds-bind _ _ (Gpt.Bounds.parse_gpt-Holds reader t) λ table a _. Holds-ok _ a.1
parse_as-Holds reader unknown_table t = Holds-ok _ tt

-- From evidence that every read returns from or fails on, detecting and parsing a partition table
-- returns or fails without a panic. A master boot record yields at most four partitions, of known
-- types and with 32-bit starts and sizes, and a GPT as many as its header has entries at most, with
-- rising numbers and extents that end within 2 ^ 64 sectors.
pub parse_table-Holds : (reader : Readable) → IsTotal reader → Holds IsSound (parse reader)
unfolding parse
parse_table-Holds reader t =
    Holds-bind _ _ (detect-Holds reader t) λ found _ _. parse_as-Holds reader found t
