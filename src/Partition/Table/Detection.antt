-- ===== src/Partition/Table/Detection.antt =====
-- Detecting a partition table against parsing it.
use forensis.Prelude.{
  >>=-eq-ok, Bool-cases, List, [], ap, arith, inl, inr, ok, plumbing, some, suc, true, zero, ℕ,
  ◌&&◌, ◌++◌, ◌+◌, ◌==◌, ◌∙◌, ◌∷◌, ◌≡◌, ◌≤◌, ◌⊎◌,
}
use forensis.Bytes.{bytes_eq}
use forensis.Source.{Readable}
use forensis.Partition.{Partition, is_known}
use forensis.Partition.Mbr
use forensis.Partition.Mbr.{MbrEntry, read_entry, push_entry, entries_loop}
use forensis.Partition.Gpt.{gpt_signature}
use forensis.Partition.Table.{
  PartitionTable, PartitionTableType, mbr_table, gpt_table, unknown_table, mbr, table_type,
  is_partition, has_partition, detect, parse_as, parse,
}

-- A partition with a start other than zero and at least one sector.
abbrev pub HasExtent : List Partition → Type 0
HasExtent [] = ⊥
HasExtent (p ∷ rest) = ((1 ≤ p.start_sector) × (1 ≤ p.sector_count)) ⊎ HasExtent rest

HasExtent-append :
    (front back : List Partition) → HasExtent front ⊎ HasExtent back → HasExtent (front ++ back)
HasExtent-append [] back (inl h) = absurd h
HasExtent-append [] back (inr h) = h
HasExtent-append (p ∷ front) back (inl (inl h)) = inl h
HasExtent-append (p ∷ front) back (inl (inr h)) = inr (HasExtent-append front back (inl h))
HasExtent-append (p ∷ front) back (inr h) = inr (HasExtent-append front back (inr h))

push_entry-kept :
    (index : ℕ) (entry : MbrEntry) (partitions : List Partition)
    → HasExtent partitions
    → HasExtent (push_entry index entry partitions)
unfolding push_entry
push_entry-kept index entry partitions h = elim (Bool-cases (is_known entry.partition_type)) [
  | inl known ↦ rw known (HasExtent-append partitions _ (inl h))
  | inr other ↦ rw other h
]

push_entry-extent :
    (index : ℕ) (entry : MbrEntry) (partitions : List Partition)
    → is_partition entry ≡ true
    → HasExtent (push_entry index entry partitions)
unfolding push_entry
push_entry-extent index entry partitions h =
    let known : is_known entry.partition_type ≡ true = ground arith in
    rw known (HasExtent-append partitions _ (inr (inl (ground arith, ground arith))))

entries_loop-kept :
    (sector : List ℕ) (left index : ℕ) (partitions result : List Partition)
    → HasExtent partitions
    → entries_loop sector left index partitions ≡ ok result
    → HasExtent result
unfolding entries_loop
entries_loop-kept sector zero index partitions result h e =
    let same : partitions ≡ result = cc e in rw (← same) h
entries_loop-kept sector (suc left) index partitions result h e =
    let (entry, _, e') = >>=-eq-ok _ _ e in
    entries_loop-kept sector left (index + 1) (push_entry index entry partitions) result
      (push_entry-kept index entry partitions h) e'

-- Where the detector sees an entry, the parser keeps it.
entries_loop-extent :
    (sector : List ℕ) (left index : ℕ) (partitions result : List Partition)
    → has_partition sector left index ≡ ok true
    → entries_loop sector left index partitions ≡ ok result
    → HasExtent result
unfolding entries_loop has_partition
entries_loop-extent sector zero index partitions result h e = absurd (cc h)
entries_loop-extent sector (suc left) index partitions result h e =
    let (entry, read, e') = >>=-eq-ok (read_entry sector index) _ e in
    let (entry', read', h') = >>=-eq-ok (read_entry sector index) _ h in
    let same : entry' ≡ entry = cc (read, read') in
    elim (Bool-cases (is_partition entry)) [
      | inl here ↦
          entries_loop-kept sector left (index + 1) (push_entry index entry partitions) result
            (push_entry-extent index entry partitions here) e'
      | inr further ↦
          entries_loop-extent sector left (index + 1) (push_entry index entry partitions) result
            (rw (same, further) at h') e'
    ]

-- What `detect` saw when it answers that there is a master boot record.
detect-mbr :
    (reader : Readable)
    → detect reader ≡ ok mbr_table
    → (sector : List ℕ) × (reader.read_at 0 512 ≡ ok sector) × (has_partition sector 4 0 ≡ ok true)
unfolding detect
detect-mbr reader e =
    let (header, _, e1) = >>=-eq-ok _ _ e in
    let (signature, _, e2) = >>=-eq-ok _ _ e1 in
    elim (Bool-cases (bytes_eq signature gpt_signature)) [
      | inl efi ↦ absurd (cc (rw efi at e2))
      | inr other ↦
          let (sector, read, e3) = >>=-eq-ok _ _ (rw other at e2) in
          let (low, _, e4) = >>=-eq-ok _ _ e3 in
          let (high, _, e5) = >>=-eq-ok _ _ e4 in
          elim (Bool-cases (low == 0x55 && high == 0xaa)) [
            | inl signed ↦
                let (found, has, e6) = >>=-eq-ok _ _ (rw signed at e5) in
                elim (Bool-cases found) [
                  | inl t ↦ (sector, read, rw t at has)
                  | inr f ↦ absurd (cc (rw f at e6))
                ]
            | inr unsigned ↦ absurd (cc (rw unsigned at e5))
          ]
    ]

parse_as-table_type :
    (reader : Readable) (found : PartitionTableType) (table : PartitionTable)
    → parse_as reader found ≡ ok (some table)
    → found ≡ table_type table
unfolding parse_as plumbing
parse_as-table_type reader mbr_table table e = ground arith
parse_as-table_type reader gpt_table table e = ground arith
parse_as-table_type reader unknown_table table e = ground arith

-- The `Mbr` that the parser builds after that.
parse_as-HasExtent :
    (reader : Readable) (found : PartitionTableType) (listed : List Partition)
    → detect reader ≡ ok found
    → parse_as reader found ≡ ok (some (mbr listed))
    → HasExtent listed
unfolding parse_as Mbr.parse
parse_as-HasExtent reader mbr_table listed seen e =
    let (sector, read, has) = detect-mbr reader seen in
    let (result, parsed, done) = >>=-eq-ok _ _ e in
    let (sector', read', loop) = >>=-eq-ok _ _ parsed in
    let same : sector' ≡ sector = cc (read, read') in
    let kept : result ≡ listed = cc done in
    rw (← kept) (entries_loop-extent sector 4 0 [] result has (rw same at loop))
parse_as-HasExtent reader gpt_table listed seen e =
    let (result, parsed, done) = >>=-eq-ok _ _ e in absurd (cc done)
parse_as-HasExtent reader unknown_table listed seen e = absurd (cc e)

-- A table that was parsed is of the type that was detected, and the two do not read the boot sector
-- differently: a parsed master boot record has a partition with at least one sector that does not
-- start at zero.
pub parse-detect :
    (reader : Readable) (table : PartitionTable)
    → parse reader ≡ ok (some table)
    → (detect reader ≡ ok (table_type table))
      × ((listed : List Partition) → table ≡ mbr listed → HasExtent listed)
unfolding parse
parse-detect reader table e =
    let (found, seen, e') = >>=-eq-ok _ _ e in
    let same = parse_as-table_type reader found table e' in
    (
      seen ∙ ap ok same,
      λ listed t. parse_as-HasExtent reader found listed seen (e' ∙ ap (λ x. ok (some x)) t),
    )
