-- ===== src/Partition/Mbr/Slots.antt =====
-- The parser against the layout of a master boot record, written the other way: from four slots to
-- the bytes of the sector.
use mathlib.Core.List.{append_assoc, append-nil}
use forensis.Prelude.{
  All, Bool-cases, List, [], ap, arith, drop, drop-add, drop-append, get_or, get_or-drop,
  if◌then◌else◌, inl, inr, length, length-append, length-drop, ok, plumbing, refl, ℕ, ◌*◌, ◌++◌,
  ◌+◌, ◌<◌, ◌^◌, ◌∷◌, ◌≡◌, ◌≤◌,
}
use forensis.Bytes.{read_le, byte_at, le, to_le_bytes}
use forensis.Bytes.Laws.{
  read_le-ok, byte_at-ok, le-to_le_bytes, length-to_le_bytes, drop-to_le_bytes,
}
use forensis.Source.{Readable}
use forensis.Partition.{Partition, is_known}
use forensis.Partition.Mbr.{
  MbrEntry, parse_partition_type, read_entry, push_entry, entries_loop, parse,
}

-- The sixteen bytes of a slot: the cylinder, head and sector numbers are there, and unused.
pub record Slot : Type 0 where
  pub boot_flag : ℕ
  pub first_chs : ℕ × ℕ × ℕ
  pub type_byte : ℕ
  pub last_chs : ℕ × ℕ × ℕ
  pub start_lba : ℕ
  pub sectors : ℕ

abbrev pub encode_slot : Slot → List ℕ → List ℕ
encode_slot s rest =
    s.boot_flag
    ∷ s.first_chs.0
    ∷ s.first_chs.1
    ∷ s.first_chs.2
    ∷ s.type_byte
    ∷ s.last_chs.0
    ∷ s.last_chs.1
    ∷ s.last_chs.2
    ∷ (to_le_bytes 4 s.start_lba ++ (to_le_bytes 4 s.sectors ++ rest))

abbrev pub encode_slots : List Slot → List ℕ → List ℕ
encode_slots [] rest = rest
encode_slots (s ∷ slots) rest = encode_slot s (encode_slots slots rest)

-- The slots with a recognised type, each numbered by its place.
abbrev pub listed : ℕ → List Slot → List Partition
listed index [] = []
listed index (s ∷ slots) =
    if is_known (parse_partition_type s.type_byte)
    then record {
      number = index + 1;
      start_sector = s.start_lba;
      sector_count = s.sectors;
      partition_type = parse_partition_type s.type_byte;
    }
      ∷ listed (index + 1) slots
    else listed (index + 1) slots

abbrev pub FitsWords : Slot → Type 0
FitsWords s = (s.start_lba < 2 ^ 32) × (s.sectors < 2 ^ 32)

-- A field at a place behind `offset`, in terms of the bytes from `offset` on.
read_le-behind :
    (n : ℕ) (sector : List ℕ) (offset behind : ℕ)
    → offset + behind + n ≤ length sector
    → read_le n sector (offset + behind) ≡ ok (le n (drop behind (drop offset sector)))
read_le-behind n sector offset behind h =
    rw (read_le-ok n sector (offset + behind) h, drop-add offset behind sector) refl

byte_at-behind :
    (sector : List ℕ) (offset behind : ℕ)
    → offset + behind < length sector
    → byte_at sector (offset + behind) ≡ ok (get_or (drop offset sector) behind 0)
byte_at-behind sector offset behind h =
    rw (byte_at-ok sector (offset + behind) h, get_or-drop offset behind sector 0) refl

read_entry-slot :
    (sector : List ℕ) (index : ℕ) (s : Slot) (rest : List ℕ)
    → FitsWords s
    → drop (446 + index * 16) sector ≡ encode_slot s rest
    → read_entry sector index
      ≡ ok (record {
        partition_type = parse_partition_type s.type_byte;
        start_lba = s.start_lba;
        sectors = s.sectors;
      })
unfolding read_entry plumbing
read_entry-slot sector index s rest f e =
    let offset = 446 + index * 16 in
    let tail = to_le_bytes 4 s.sectors ++ rest in
    let size : length (drop offset sector) ≡ 16 + length rest = rw e (
      omega (
        arith,
        length-append (to_le_bytes 4 s.start_lba) tail,
        length-append (to_le_bytes 4 s.sectors) rest,
        length-to_le_bytes 4 s.start_lba,
        length-to_le_bytes 4 s.sectors,
      )) in
    let room : offset + 16 ≤ length sector = omega (arith, size, length-drop offset sector) in
    let start : le 4 (drop 8 (encode_slot s rest)) ≡ s.start_lba =
      le-to_le_bytes 4 s.start_lba tail f.0 in
    let count : le 4 (drop 12 (encode_slot s rest)) ≡ s.sectors =
      rw (drop-to_le_bytes 4 s.start_lba tail) (le-to_le_bytes 4 s.sectors rest f.1) in
    rw
      (
        byte_at-behind sector offset 4 (omega arith),
        read_le-behind 4 sector offset 8 (omega arith),
        read_le-behind 4 sector offset 12 (omega arith),
        e,
        start,
        count,
      )
      refl

drop-encode_slot : (s : Slot) (rest : List ℕ) → drop 16 (encode_slot s rest) ≡ rest
drop-encode_slot s rest =
    let tail = to_le_bytes 4 s.sectors ++ rest in
    rw
      (
        drop-add 4 4 (to_le_bytes 4 s.start_lba ++ tail),
        drop-to_le_bytes 4 s.start_lba tail,
        drop-to_le_bytes 4 s.sectors rest,
      )
      refl

abbrev entry_of : Slot → MbrEntry
entry_of s = record {
  partition_type = parse_partition_type s.type_byte;
  start_lba = s.start_lba;
  sectors = s.sectors;
}

push_entry-listed :
    (index : ℕ) (s : Slot) (slots : List Slot) (partitions : List Partition)
    → push_entry index (entry_of s) partitions ++ listed (index + 1) slots
      ≡ partitions ++ listed index (s ∷ slots)
unfolding push_entry
push_entry-listed index s slots partitions =
    elim (Bool-cases (is_known (parse_partition_type s.type_byte))) [
      | inl known ↦ rw known (append_assoc partitions _ (listed (index + 1) slots))
      | inr unknown_type ↦ rw unknown_type refl
    ]

entries_loop-slots :
    (sector : List ℕ) (slots : List Slot) (index : ℕ) (rest : List ℕ) (partitions : List Partition)
    → All FitsWords slots
    → drop (446 + index * 16) sector ≡ encode_slots slots rest
    → entries_loop sector (length slots) index partitions ≡ ok (partitions ++ listed index slots)
unfolding entries_loop plumbing
entries_loop-slots sector [] index rest partitions f e = rw (append-nil partitions) refl
entries_loop-slots sector (s ∷ slots) index rest partitions f e =
    let tail = encode_slots slots rest in
    let place : 446 + (index + 1) * 16 ≡ 446 + index * 16 + 16 = omega arith in
    let e' : drop (446 + (index + 1) * 16) sector ≡ tail =
      rw (place, drop-add (446 + index * 16) 16 sector, e) (drop-encode_slot s tail) in
    let here = read_entry-slot sector index s tail f.0 e in
    let after =
      entries_loop-slots sector slots (index + 1) rest (push_entry index (entry_of s) partitions)
        f.1 e' in
    rw (here, after) (ap ok (push_entry-listed index s slots partitions))

-- From a sector that holds four slots with 32-bit starts and sizes behind 446 bytes of boot code,
-- and whatever ends it, the parser returns the slots whose type it recognises, in order, with their numbers, types, starts
-- and sizes.
pub parse_mbr-encode :
    (reader : Readable) (boot_code rest : List ℕ) (a b c d : Slot)
    → All FitsWords (a ∷ b ∷ c ∷ d ∷ [])
    → length boot_code ≡ 446
    → reader.read_at 0 512 ≡ ok (boot_code ++ encode_slots (a ∷ b ∷ c ∷ d ∷ []) rest)
    → parse reader ≡ ok (listed 0 (a ∷ b ∷ c ∷ d ∷ []))
unfolding parse plumbing
parse_mbr-encode reader boot_code rest a b c d f size read =
    let slots = a ∷ b ∷ c ∷ d ∷ [] in
    let sector = boot_code ++ encode_slots slots rest in
    rw read (
      entries_loop-slots sector slots 0 rest [] f
        (rw (← size) (drop-append boot_code (encode_slots slots rest))))
