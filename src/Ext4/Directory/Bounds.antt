-- ===== src/Ext4/Directory/Bounds.antt =====
-- What the parser of a directory's block returns of any bytes.
use forensis.Prelude.{
  All, All-drop, Holds, Holds-bind, Holds-fail_if, Holds-if, Holds-ok, IsByte, List, [], ap, arith,
  drop, drop-take, leb, length, length-drop, length-take, ltb, ok, ok_inj, refl, suc, sym, take,
  true, zero, ℕ, ◌*◌, ◌+◌, ◌-◌, ◌<◌, ◌==◌, ◌^◌, ◌∙◌, ◌∷◌, ◌≡◌, ◌≤◌,
}
use forensis.Bytes.{AreBytes, read_le, le}
use forensis.Bytes.Laws.{read_le-Holds, byte_at-Holds, slice-Holds, slice-ok}
use forensis.Ext4.Directory.{Ext4DirectoryEntry, parse_entry, block_loop, parse_block}

-- The name lies in the record.
abbrev pub IsRecord : Ext4DirectoryEntry → Type 0
IsRecord entry =
    (entry.inode < 2 ^ 32)
    × (entry.file_type < 256)
    × (8 + entry.name_length ≤ entry.record_length)
    × (entry.record_length < 2 ^ 16)

-- The bytes that the records take.
abbrev pub total_length : List Ext4DirectoryEntry → ℕ
total_length [] = 0
total_length (entry ∷ entries) = entry.record_length + total_length entries

parse_entry-Holds :
    (content : List ℕ)
    → AreBytes content
    → Holds
        (λ entry. IsRecord entry × (read_le 2 content 4 ≡ ok entry.record_length))
        (parse_entry content)
unfolding parse_entry
parse_entry-Holds content b = Holds-fail_if _ _ _ λ long.
    let size : 8 ≤ length content = ground arith in
    Holds-bind _ _ (read_le-Holds 4 content 0 b (omega arith)) λ inode i _.
      Holds-bind _ _ (read_le-Holds 2 content 4 b (omega arith)) λ record_length r e.
        Holds-bind _ _ (byte_at-Holds content 6 b (omega arith)) λ name_length n _.
          Holds-bind _ _ (byte_at-Holds content 7 b (omega arith)) λ file_type f _.
            Holds-fail_if _ _ _ λ _. Holds-fail_if _ _ _ λ fits. Holds-fail_if _ _ _ λ inside.
              Holds-bind _ _
                (slice-Holds content 8 (8 + name_length) b (omega arith) (ground arith))
                λ name _ _.
                  Holds-ok _
                    ((omega (arith, i), omega (arith, f), ground arith, omega (arith, r)), e)

le-take : (k n : ℕ) (l : List ℕ) → k ≤ n → le k (take n l) ≡ le k l
le-take zero n l h = refl
le-take (suc k) zero l h = absurd (omega arith)
le-take (suc k) (suc n) [] h = refl
le-take (suc k) (suc n) (b ∷ l) h = ap (λ v. b + 256 * v) (le-take k n l (omega arith))

-- The length in the first eight bytes is that of the record cut off.
length_of_record :
    (n : ℕ) (remaining : List ℕ)
    → 8 ≤ n
    → n ≤ length remaining
    → read_le 2 (take n remaining) 4 ≡ read_le 2 remaining 4
unfolding read_le
length_of_record n remaining low high =
    let whole = length-take n remaining in
    let bytes : le 2 (drop 4 (take n remaining)) ≡ le 2 (drop 4 remaining) =
      ap (le 2) (drop-take 4 n remaining) ∙ le-take 2 (n - 4) (drop 4 remaining) (omega arith) in
    let left : leb 6 (length (take n remaining)) ≡ true = ground (arith, whole) in
    let right : leb 6 (length remaining) ≡ true = ground arith in rw (left, right, bytes) refl

whole_part :
    (n : ℕ) (remaining : List ℕ) → ok (take (n - 0) (drop 0 remaining)) ≡ ok (take n remaining)
whole_part n remaining = let same : n - 0 ≡ n = omega arith in rw same refl

-- The records of so many bytes.
abbrev pub AreRecords : ℕ → List Ext4DirectoryEntry → Type 0
AreRecords room entries = All IsRecord entries × (total_length entries ≤ room)

block_loop-Holds :
    (fuel : ℕ) (remaining : List ℕ)
    → AreBytes remaining
    → length remaining < fuel
    → Holds (AreRecords (length remaining)) (block_loop fuel remaining)
unfolding block_loop
block_loop-Holds zero remaining b f = absurd (omega arith)
block_loop-Holds (suc fuel) remaining b f =
    Holds-if (ltb (length remaining) 8) _ _ (λ _. Holds-ok _ (tt, omega arith))
      λ long. Holds-bind _ _ (read_le-Holds 2 remaining 4 b (ground arith)) λ n r read.
        Holds-if (n == 0) _ _ (λ _. Holds-ok _ (tt, omega arith))
          λ _. Holds-fail_if _ _ _ λ low. Holds-fail_if _ _ _ λ high.
            let least : 8 ≤ n = ground arith in
            let room : n ≤ length remaining = ground arith in
            Holds-bind _ _ (slice-Holds remaining 0 n b (omega arith) room) λ part p cut.
              Holds-bind _ _ (parse_entry-Holds part p.0) λ entry e _.
                Holds-bind _ _
                  (block_loop-Holds fuel (drop n remaining) (All-drop IsByte n remaining b)
                    (omega (arith, length-drop n remaining)))
                  λ entries rest _.
                    let taken : part ≡ take n remaining = ok_inj (
                      sym cut
                      ∙ slice-ok remaining 0 n (omega arith) room
                      ∙ whole_part n remaining) in
                    let same : entry.record_length ≡ n = ok_inj (
                      sym e.1
                      ∙ ap (λ bytes. read_le 2 bytes 4) taken
                      ∙ length_of_record n remaining least room
                      ∙ read) in
                    Holds-ok _ ((e.0, rest.0), omega (arith, rest.1, same, length-drop n remaining))

-- Any bytes are parsed as a block of an EXT4 directory, without a panic or an end before their end: with
-- an error, or with records that together take no more bytes than there are, and in each of which the
-- name lies behind the header of eight bytes.
pub parse_block-Holds :
    (content : List ℕ)
    → AreBytes content
    → Holds (AreRecords (length content)) (parse_block content)
unfolding parse_block
parse_block-Holds content b = block_loop-Holds (length content + 1) content b (omega arith)
