-- ===== src/Partition/Gpt/Bounds.antt =====
-- The partitions that a GUID partition table yields: their numbers and extents.
use forensis.Prelude.{
  All, All-append, Holds, Holds-add, Holds-bind, Holds-fail_if, Holds-if, Holds-ok, Holds-ok_or,
  List, Option, [], arith, length, length-append, none, some, suc, u32_mod, zero, ℕ, ◌++◌, ◌+◌, ◌-◌,
  ◌<◌, ◌==◌, ◌^◌, ◌∷◌, ◌≡◌, ◌≤◌,
}
use forensis.Bytes.{AreBytes, bytes_eq}
use forensis.Bytes.Laws.{read_le-Holds, byte_at-Holds, slice-Holds}
use forensis.Source.{Readable, IsTotal}
use forensis.Partition.{Partition}
use forensis.Partition.Gpt.{
  GptHeader, gpt_signature, sector_count, parse_entry, push, entries_loop, read_partitions,
  parse_header, parse,
}

-- Sectors of a 64-bit disk, at least one.
pub record IsExtent (partition : Partition) : Type 0 where
  pub positive : 1 ≤ partition.sector_count
  pub in_range : partition.start_sector + partition.sector_count ≤ 2 ^ 64

-- The numbers rise.
abbrev pub IsRising : List Partition → Type 0
IsRising [] = Unit
IsRising (p ∷ []) = Unit
IsRising (p ∷ q ∷ rest) = (p.number < q.number) × IsRising (q ∷ rest)

-- The partitions found among the first `count` entries.
pub record AreFound (count : ℕ) (partitions : List Partition) : Type 0 where
  pub extents : All IsExtent partitions
  pub numbers : All (λ p. (1 ≤ p.number) × (p.number ≤ count)) partitions
  pub rising : IsRising partitions
  pub few : length partitions ≤ count

IsRising-append :
    (partitions : List Partition) (p : Partition) (count : ℕ)
    → IsRising partitions
    → All (λ q. (1 ≤ q.number) × (q.number ≤ count)) partitions
    → count < p.number
    → IsRising (partitions ++ (p ∷ []))
IsRising-append [] p count r n l = tt
IsRising-append (q ∷ []) p count r n l = (omega (arith, n.0.1), tt)
IsRising-append (q ∷ s ∷ rest) p count r n l = (r.0, IsRising-append (s ∷ rest) p count r.1 n.1 l)

weaken_numbers :
    (partitions : List Partition) (count : ℕ)
    → All (λ p. (1 ≤ p.number) × (p.number ≤ count)) partitions
    → All (λ p. (1 ≤ p.number) × (p.number ≤ count + 1)) partitions
weaken_numbers [] count n = tt
weaken_numbers (p ∷ partitions) count n =
    ((n.0.0, omega (arith, n.0.1)), weaken_numbers partitions count n.1)

-- What a round adds: nothing, or an extent under the next number.
abbrev IsNext : ℕ → Option Partition → Type 0
IsNext index none = Unit
IsNext index (some p) = IsExtent p × (p.number ≡ index + 1)

AreFound-push :
    (index : ℕ) (partitions : List Partition) (found : Option Partition)
    → AreFound index partitions
    → IsNext index found
    → AreFound (index + 1) (push partitions found)
AreFound-push index partitions none f n = record {
  extents = f.extents;
  numbers = weaken_numbers partitions index f.numbers;
  rising = f.rising;
  few = omega (arith, f.few);
}
AreFound-push index partitions (some p) f n = record {
  extents = All-append IsExtent partitions (p ∷ []) f.extents (n.0, tt);
  numbers =
      All-append (λ q. (1 ≤ q.number) × (q.number ≤ index + 1)) partitions (p ∷ [])
        (weaken_numbers partitions index f.numbers) ((omega (arith, n.1), omega (arith, n.1)), tt);
  rising = IsRising-append partitions p index f.rising f.numbers (omega (arith, n.1));
  few = omega (arith, f.few, length-append partitions (p ∷ []));
}

sector_count-eq :
    (start_lba end_lba sectors : ℕ)
    → sector_count start_lba end_lba ≡ some sectors
    → (sectors ≡ end_lba - start_lba + 1) × (start_lba ≤ end_lba)
sector_count-eq start_lba end_lba sectors e = ground arith

parse_entry-Holds :
    (entry : List ℕ) (index : ℕ)
    → AreBytes entry
    → 1 ≤ length entry
    → index + 1 < 2 ^ 32
    → Holds (IsNext index) (parse_entry entry index)
unfolding parse_entry
parse_entry-Holds entry index b one small =
    Holds-bind _ _ (byte_at-Holds entry 0 b (omega arith)) λ first_byte _ _.
      Holds-if (first_byte == 0) _ _ (λ empty. Holds-ok _ tt)
        λ used. Holds-fail_if _ _ _ λ long.
          let size : 48 ≤ length entry = ground arith in
          Holds-bind _ _ (read_le-Holds 8 entry 32 b (omega arith)) λ start_lba s _.
            Holds-bind _ _ (read_le-Holds 8 entry 40 b (omega arith)) λ end_lba e _.
              Holds-fail_if _ _ _ λ _. Holds-ok_or _ _ _ λ sectors c.
                let count = sector_count-eq start_lba end_lba sectors c in
                Holds-bind _ _ (Holds-add u32_mod index 1 (omega arith)) λ number n _.
                  Holds-ok _
                    (record { positive = omega (arith, count); in_range = omega (arith, count) }, n)

entries_loop-Holds :
    (reader : Readable) (header : GptHeader) (table_offset left index count : ℕ)
    (partitions : List Partition)
    → IsTotal reader
    → 48 ≤ header.size_of_partition_entry
    → index + left ≡ count
    → count < 2 ^ 32
    → AreFound index partitions
    → Holds (AreFound count) (entries_loop reader header table_offset left index partitions)
unfolding entries_loop
entries_loop-Holds reader header table_offset zero index count partitions t size sum small f =
    let same : count ≡ index = omega (arith, sum) in rw same (Holds-ok _ f)
entries_loop-Holds reader header table_offset (suc left) index count partitions t size sum small f =
    Holds-ok_or _ _ _ λ entry_offset _. Holds-ok_or _ _ _ λ offset _.
      Holds-bind _ _ (t.fills offset header.size_of_partition_entry) λ entry e _.
        Holds-bind _ _ (parse_entry-Holds entry index e.0 (omega (arith, e.1)) (omega arith))
          λ found n _.
            entries_loop-Holds reader header table_offset left (index + 1) count
              (push partitions found) t size (omega arith) small
              (AreFound-push index partitions found f n)

parse_header-Holds :
    (sector : List ℕ)
    → AreBytes sector
    → length sector ≡ 512
    → Holds
        (λ header.
          (48 ≤ header.size_of_partition_entry) × (header.number_of_partition_entries ≤ 1_000_000))
        (parse_header sector)
unfolding parse_header
parse_header-Holds sector b size =
    Holds-bind _ _ (read_le-Holds 8 sector 72 b (omega arith)) λ lba _ _.
      Holds-bind _ _ (read_le-Holds 4 sector 80 b (omega arith)) λ count _ _.
        Holds-bind _ _ (read_le-Holds 4 sector 84 b (omega arith)) λ entry_size _ _.
          Holds-fail_if _ _ _ λ described.
            Holds-fail_if _ _ _
              λ _. Holds-fail_if _ _ _ λ few. Holds-ok _ (ground arith, ground arith)

-- From evidence that every read returns from or fails on, the parser returns or fails without a
-- panic, whatever the table says. What it returns has at most as many partitions as the header has
-- entries, at most a million; their numbers rise and are those of entries; and each has at least
-- one sector and ends within 2 ^ 64 sectors.
pub parse_gpt-Holds :
    (reader : Readable)
    → IsTotal reader
    → Holds
        (λ gpt.
          (gpt.header.number_of_partition_entries ≤ 1_000_000)
          × AreFound gpt.header.number_of_partition_entries gpt.partitions)
        (parse reader)
unfolding parse read_partitions
parse_gpt-Holds reader t = Holds-bind _ _ (t.fills 512 512) λ sector f _.
    Holds-bind _ _ (slice-Holds sector 0 8 f.0 (omega arith) (omega (arith, f.1))) λ signature _ _.
      Holds-if (bytes_eq signature gpt_signature) _ _
        (λ _. Holds-bind _ _ (parse_header-Holds sector f.0 f.1) λ header h _.
          Holds-bind _ _
            (Holds-ok_or _ _ _ λ table_offset _.
              entries_loop-Holds reader header table_offset header.number_of_partition_entries 0
                header.number_of_partition_entries [] t h.0 (omega arith) (omega (arith, h.1))
                none_found)
            λ partitions p _. Holds-ok _ (h.1, p))
        (λ _. Holds-ok _ (omega arith, none_found))
  where
    none_found : AreFound 0 []
    none_found = record { extents = tt; numbers = tt; rising = tt; few = omega arith }
