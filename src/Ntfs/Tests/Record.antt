-- ===== src/Ntfs/Tests/Record.antt =====
-- The theorem on whole records at a record of one sector, as it is made from its bytes.
use forensis.Prelude.{
  Holds, Holds-weaken, List, [], arith, drop, inl, inr, none, ok, ok_inj, plumbing, refl, replicate,
  sym, take, ℕ, ◌++◌, ◌∙◌, ◌∷◌, ◌≡◌, ◌⊎◌,
}
use forensis.Bytes.{AreBytes, byte_at, read_le, slice}
use forensis.Ntfs.DataAttribute.Bounds.{RunListHolds}
use forensis.Ntfs.DataRun.Sound.{parse-Holds}
use forensis.Ntfs.MftParser
use forensis.Ntfs.MftParser.Reached.{IsReached, RunListsHold, first, next}
use forensis.Ntfs.MftParser.Safety.{IsParsed, parse_record-Holds}
use forensis.Ntfs.Record.{MftRecord, apply_usa_fixup, fix_sector, fixup_loop, new_record}

-- The header, with the update sequence array at 8 and the first attribute at 48.
abbrev header : List ℕ
header =
    0x46
    ∷ 0x49
    ∷ 0x4c
    ∷ 0x45
    ∷ 8
    ∷ 0
    ∷ 2
    ∷ 0
    ∷ 1
    ∷ 0
    ∷ 7
    ∷ 9
    ∷ (replicate 8 0 ++ (48 ∷ 0 ∷ 1 ∷ 0 ∷ replicate 24 0))

abbrev run_list : List ℕ
run_list = 0x11 ∷ 1 ∷ 100 ∷ 0 ∷ 0 ∷ 0 ∷ 0 ∷ 0 ∷ []

-- A data attribute of 72 bytes with its run list at 64: 300 bytes in a cluster.
abbrev attribute : List ℕ
attribute =
    0x80
    ∷ 0
    ∷ 0
    ∷ 0
    ∷ 72
    ∷ 0
    ∷ 0
    ∷ 0
    ∷ 1
    ∷ 0
    ∷ 0
    ∷ 0
    ∷ 0
    ∷ 0
    ∷ 3
    ∷ 0
    ∷ (replicate 16 0
        ++ (64 ∷ 0 ∷ 0 ∷ 0 ∷ 0 ∷ 0 ∷ 0 ∷ 0 ∷ 0 ∷ 16 ∷ 0 ∷ 0 ∷ 0 ∷ 0 ∷ 0 ∷ 0 ∷ 44 ∷ 1 ∷ 0 ∷ 0 ∷ 0 ∷ 0
            ∷ 0 ∷ 0 ∷ 44 ∷ 1 ∷ 0 ∷ 0 ∷ 0 ∷ 0 ∷ 0 ∷ 0 ∷ run_list))

-- The record, with the last two bytes of its sector.
abbrev sector : ℕ → ℕ → List ℕ
sector low high =
    header ++ (attribute ++ (0xff ∷ 0xff ∷ 0xff ∷ 0xff ∷ (replicate 386 0 ++ (low ∷ high ∷ []))))

abbrev content : List ℕ
content = sector 7 9

abbrev file_record : MftRecord
file_record = record { index = 7; header = none; content = content }

file_record_made : new_record 7 (sector 1 0) ≡ ok file_record
unfolding new_record apply_usa_fixup fixup_loop fix_sector read_le byte_at slice plumbing
file_record_made = refl

content-AreBytes : AreBytes content
content-AreBytes = omega arith

start_read : read_le 2 content 20 ≡ ok 48
unfolding read_le
start_read = refl

size_read : read_le 4 content 52 ≡ ok 72
unfolding read_le
size_read = refl

mark_read : read_le 4 content 120 ≡ ok 0xffff_ffff
unfolding read_le
mark_read = refl

-- The attribute and the end mark are all that is reached.
reached-cases : (offset : ℕ) → IsReached content offset → (offset ≡ 48) ⊎ (offset ≡ 120)
reached-cases offset (first start e) = inl (ok_inj (sym e ∙ start_read))
reached-cases offset (next before kind size r k n s long) = elim (reached-cases before r) [
  | inl at_attribute ↦
      let sized : size ≡ 72 = ok_inj (sym (rw at_attribute at s) ∙ size_read) in
      inr (omega (arith, at_attribute, sized))
  | inr at_mark ↦ absurd (n (ok_inj (sym (rw at_mark at k) ∙ mark_read)))
]

mark_size_read : read_le 4 content 124 ≡ ok 0
unfolding read_le
mark_size_read = refl

run_list_read : read_le 2 attribute 32 ≡ ok 64
unfolding read_le
run_list_read = refl

attribute_size_read : read_le 4 attribute 4 ≡ ok 72
unfolding read_le
attribute_size_read = refl

attribute_cut : take 72 (drop 48 content) ≡ attribute
attribute_cut = refl

attribute-RunListHolds : RunListHolds attribute
attribute-RunListHolds size offset typed stored sized placed =
    let size_is : size ≡ 72 = ok_inj (sym sized ∙ attribute_size_read) in
    let offset_is : offset ≡ 64 = ok_inj (sym placed ∙ run_list_read) in
    rw (size_is, offset_is) (Holds-weaken _ (λ _ _. tt) (parse-Holds run_list (omega arith)))

no_bytes-RunListHolds : RunListHolds []
unfolding read_le
no_bytes-RunListHolds size offset typed stored sized placed = absurd (cc typed)

content-RunListsHold : RunListsHold content
content-RunListsHold offset size r sized = elim (reached-cases offset r) [
  | inl at_attribute ↦
      let size_is : size ≡ 72 = ok_inj (sym (rw at_attribute at sized) ∙ size_read) in
      rw (at_attribute, size_is, attribute_cut) attribute-RunListHolds
  | inr at_mark ↦
      let size_is : size ≡ 0 = ok_inj (sym (rw at_mark at sized) ∙ mark_size_read) in
      rw (at_mark, size_is) no_bytes-RunListHolds
]

parse_record-Holds_example : Holds (λ found. IsParsed 512 found.0) (MftParser.parse file_record)
parse_record-Holds_example = parse_record-Holds file_record content-AreBytes content-RunListsHold
