-- ===== src/Ntfs/MftParser/Safety.antt =====
-- A record is parsed without a panic, and what is kept of it has its size in the record.
use forensis.Prelude.{
  All-drop, All-take, Holds, Holds-bind, Holds-fail_if, Holds-if, Holds-ok, Holds-ok_or, Holds-sub,
  IsByte, List, Option, Result, arith, checked_add-eq, drop, err, inl, inr, leb, length,
  length-drop, length-take, none, ok, panic, refl, some, suc, zero, ℕ, ◌+◌, ◌-◌, ◌<◌, ◌==◌, ◌||◌,
  ◌∙◌, ◌≡◌, ◌≢◌, ◌≤◌,
}
use forensis.Bytes.{AreBytes, read_le}
use forensis.Bytes.Laws.{read_le-Holds, slice-Holds, slice-exact}
use forensis.Ntfs.Attribute.{
  AttributeType, MftAttribute, is_end, standard_information, attribute_list, file_name, object_id,
  security_descriptor, volume_name, volume_information, data_attribute, index_root,
  index_allocation, bitmap, reparse_point, extended_attribute_information, extended_attribute, end,
  unknown,
}
use forensis.Ntfs.Attribute.Bounds.{IsWithin, parse_attribute-Holds, parse_attribute-size}
use forensis.Ntfs.DataAttribute.{DataAttribute}
use forensis.Ntfs.DataAttribute.Bounds.{
  RunListHolds, IsDataAttribute, parse_content-Holds, weaken_data_attribute,
}
use forensis.Ntfs.FileName.Bounds.{parse_value-Holds}
use forensis.Ntfs.IndexRoot.{IndexRoot}
use forensis.Ntfs.IndexRoot.Bounds.{AreEntries, parse_index_root-Holds}
use forensis.Ntfs.Record.{MftRecord}
use forensis.Ntfs.StandardInformation.{parse_information-Holds}
use forensis.Ntfs.MftParser
use forensis.Ntfs.MftParser.Reached.{
  IsReached, RunListsHold, first, next, IsReached-move, read_le-tail,
}
use forensis.Ntfs.MftParser.{
  ParsedMftRecord, parse_header, to_option, interpret, read_attribute, go_on, attributes_loop,
}

abbrev FitsContent : ℕ → Option DataAttribute → Type 0
FitsContent room none = Unit
FitsContent room (some attribute) = IsDataAttribute room attribute

abbrev FitsIndex : ℕ → Option IndexRoot → Type 0
FitsIndex room none = Unit
FitsIndex room (some root) = AreEntries room root.entries

-- What a record of `room` bytes holds: resident data of their stated size, and index entries that
-- fit in it.
pub record IsParsed (room : ℕ) (parsed : ParsedMftRecord) : Type 0 where
  pub content : FitsContent room parsed.content
  pub directory_index : FitsIndex room parsed.directory_index

to_option-Holds {ℓ} :
    {A : Type ℓ} (r : Result A) → Holds (λ _. Unit {ℓ}) r → Holds (λ _. Unit {ℓ}) (to_option r)
unfolding to_option
to_option-Holds (ok value) h = Holds-ok _ tt
to_option-Holds (err error) h = Holds-ok _ tt
to_option-Holds panic h = absurd (h.no_panic refl)

module _ (room : ℕ) (attribute : MftAttribute) (part : List ℕ) where
  interpret-Holds :
      (attribute_type : AttributeType) (parsed : ParsedMftRecord)
      → AreBytes attribute.content
      → length attribute.content ≤ room
      → AreBytes part
      → length part ≤ room
      → RunListHolds part
      → IsParsed room parsed
      → Holds (IsParsed room) (interpret attribute part attribute_type parsed)
  unfolding interpret
  interpret-Holds standard_information parsed b l b' l' r w =
      Holds-bind _ _ (to_option-Holds _ (parse_information-Holds attribute.content b))
        λ information _ _.
          Holds-ok _ (record { content = w.content; directory_index = w.directory_index })
  interpret-Holds file_name parsed b l b' l' r w =
      Holds-bind _ _ (parse_value-Holds attribute.content b)
        λ name _ _. Holds-ok _ (record { content = w.content; directory_index = w.directory_index })
  interpret-Holds data_attribute parsed b l b' l' r w =
      Holds-bind _ _ (parse_content-Holds part b' r) λ content d _. Holds-ok _ (record {
        content = weaken_data_attribute (length part) room content l' d;
        directory_index = w.directory_index;
      })
  interpret-Holds index_root parsed b l b' l' r w =
      Holds-bind _ _ (parse_index_root-Holds attribute.content b) λ root a _.
        Holds-ok _ (record { content = w.content; directory_index = (a.0, omega (arith, a.1)) })
  interpret-Holds attribute_list parsed b l b' l' r w = Holds-ok _ w
  interpret-Holds object_id parsed b l b' l' r w = Holds-ok _ w
  interpret-Holds security_descriptor parsed b l b' l' r w = Holds-ok _ w
  interpret-Holds volume_name parsed b l b' l' r w = Holds-ok _ w
  interpret-Holds volume_information parsed b l b' l' r w = Holds-ok _ w
  interpret-Holds index_allocation parsed b l b' l' r w = Holds-ok _ w
  interpret-Holds bitmap parsed b l b' l' r w = Holds-ok _ w
  interpret-Holds reparse_point parsed b l b' l' r w = Holds-ok _ w
  interpret-Holds extended_attribute_information parsed b l b' l' r w = Holds-ok _ w
  interpret-Holds extended_attribute parsed b l b' l' r w = Holds-ok _ w
  interpret-Holds end parsed b l b' l' r w = Holds-ok _ w
  interpret-Holds (unknown value) parsed b l b' l' r w = Holds-ok _ w

-- A round that goes on does so behind sixteen bytes at least, and within the record.
abbrev IsRound : List ℕ → ℕ → Option (ParsedMftRecord × ℕ) → Type 0
IsRound content offset none = Unit
IsRound content offset (some state) =
    IsParsed (length content) state.0
    × (offset + 16 ≤ state.1)
    × (state.1 ≤ length content)
    × IsReached content state.1

content_room :
    (room : ℕ) (attribute : MftAttribute)
    → IsWithin room attribute
    → length attribute.content ≤ room
content_room room attribute w = elim w.value [
  | inl empty ↦ rw empty (omega arith)
  | inr inside ↦ elim w.place [
    | inl zero_size ↦ omega (arith, inside, zero_size.0)
    | inr sized ↦ omega (arith, inside, sized.1)
  ]
]

module _ (content : List ℕ) (b : AreBytes content) (runs : RunListsHold content) where
  read_attribute-Holds :
      (offset kind : ℕ) (parsed : ParsedMftRecord)
      → offset + 16 ≤ length content
      → IsReached content offset
      → read_le 4 content offset ≡ ok kind
      → kind ≢ 0xffff_ffff
      → IsParsed (length content) parsed
      → Holds (IsRound content offset) (read_attribute content offset parsed)
  unfolding read_attribute
  read_attribute-Holds offset kind parsed room reached k n w =
      Holds-bind _ _ (read_le-Holds 4 content (offset + 4) b (omega arith)) λ declared _ _.
        Holds-bind _ _ (Holds-sub (length content) offset (omega arith)) λ remaining _ _.
          Holds-fail_if _ _ _ λ _.
            Holds-bind _ _
              (slice-Holds content offset (length content) b (omega arith) (omega arith))
              λ tail t cut. Holds-bind _ _ (parse_attribute-Holds tail t.0) λ attribute a found.
                Holds-if (is_end attribute.attribute_type || attribute.size == 0) _ _
                  (λ stop. Holds-ok _ tt)
                  (λ more. Holds-ok_or _ _ _ λ attribute_end e. Holds-fail_if _ _ _ λ inside.
                    let sum = checked_add-eq _ _ _ _ e in
                    let sized =
                      read_le-tail 4 content tail offset 4 (omega arith) cut
                      ∙ parse_attribute-size tail attribute found (ground (arith, more)) in
                    let fits : attribute_end ≤ length content = ground arith in
                    let step : 16 ≤ attribute.size = elim a.place [
                      | inl zero_size ↦ ground (arith, zero_size)
                      | inr sized ↦ sized.0
                    ] in
                    let small : length attribute.content ≤ length content =
                      omega (arith, content_room (length tail) attribute a, t.1) in
                    Holds-bind _ _
                      (slice-exact content offset attribute_end (omega (arith, sum)) fits)
                      λ part p _.
                        let size = attribute_end - offset in
                        let part_size : size ≡ attribute.size = omega (arith, sum) in
                        let bytes : AreBytes part =
                          rw p (All-take IsByte size _ (All-drop IsByte offset content b)) in
                        let short : length part ≤ length content = rw p (
                          omega (
                            arith,
                            length-take size (drop offset content),
                            length-drop offset content,
                          )) in
                        Holds-bind _ _
                          (interpret-Holds (length content) attribute part attribute.attribute_type
                            parsed a.bytes small bytes short
                            (rw (p, part_size) (runs offset attribute.size reached sized)) w)
                          λ parsed' w' _. Holds-ok _ (
                            w',
                            omega (arith, sum),
                            fits,
                            IsReached-move content (offset + attribute.size) attribute_end
                                (omega (arith, sum))
                                (next offset kind attribute.size reached k n sized step),
                          ))

  go_on-Holds :
      (found : Option (ParsedMftRecord × ℕ)) (parsed : ParsedMftRecord)
      (step : ParsedMftRecord → ℕ → Result ParsedMftRecord) (offset : ℕ)
      → IsParsed (length content) parsed
      → IsRound content offset found
      → ((parsed' : ParsedMftRecord) (offset' : ℕ)
          → IsParsed (length content) parsed'
          → offset + 16 ≤ offset'
          → offset' ≤ length content
          → IsReached content offset'
          → Holds (IsParsed (length content)) (step parsed' offset'))
      → Holds (IsParsed (length content)) (go_on parsed step found)
  unfolding go_on
  go_on-Holds none parsed step offset w r h = Holds-ok _ w
  go_on-Holds (some state) parsed step offset w r h = h state.0 state.1 r.0 r.1 r.2 r.3

  attributes_loop-Holds :
      (fuel offset : ℕ) (parsed : ParsedMftRecord)
      → length content < fuel + offset
      → offset ≤ length content
      → IsReached content offset
      → IsParsed (length content) parsed
      → Holds (IsParsed (length content)) (attributes_loop fuel content offset parsed)
  unfolding attributes_loop
  attributes_loop-Holds zero offset parsed f o reached w = absurd (omega arith)
  attributes_loop-Holds (suc fuel) offset parsed f o reached w =
      Holds-if (leb (offset + 16) (length content)) _ _
        (λ more.
          let room : offset + 16 ≤ length content = ground arith in
          Holds-bind _ _ (read_le-Holds 4 content offset b (omega arith)) λ raw _ k.
            Holds-if (raw == 0xffff_ffff) _ _ (λ _. Holds-ok _ w)
              (λ other.
                Holds-bind _ _
                  (read_attribute-Holds offset raw parsed room reached k
                    (λ mark. absurd (ground (arith, other, mark))) w)
                  λ found r _.
                    go_on-Holds found parsed _ offset w r λ parsed' offset' w' behind fits reached'.
                      attributes_loop-Holds fuel offset' parsed' (omega arith) fits reached' w'))
        (λ done. Holds-ok _ w)

header-Holds :
    (content : List ℕ)
    → AreBytes content
    → Holds
        (λ header.
          (header.first_attribute_offset < length content)
          × IsReached content header.first_attribute_offset)
        (parse_header content)
unfolding parse_header
header-Holds content b = Holds-fail_if _ _ _ λ small.
    let room : 42 ≤ length content = ground arith in
    Holds-bind _ _ (read_le-Holds 2 content 4 b (omega arith)) λ _ _ _.
      Holds-bind _ _ (read_le-Holds 2 content 6 b (omega arith)) λ _ _ _.
        Holds-bind _ _ (read_le-Holds 2 content 16 b (omega arith)) λ _ _ _.
          Holds-bind _ _ (read_le-Holds 2 content 18 b (omega arith)) λ _ _ _.
            Holds-bind _ _ (read_le-Holds 2 content 20 b (omega arith)) λ start _ placed.
              Holds-bind _ _ (read_le-Holds 2 content 22 b (omega arith)) λ _ _ _.
                Holds-bind _ _ (read_le-Holds 4 content 24 b (omega arith)) λ _ _ _.
                  Holds-bind _ _ (read_le-Holds 4 content 28 b (omega arith)) λ _ _ _.
                    Holds-bind _ _ (read_le-Holds 8 content 32 b (omega arith)) λ _ _ _.
                      Holds-bind _ _ (read_le-Holds 2 content 40 b (omega arith)) λ _ _ _.
                        Holds-fail_if _ _ _ λ inside. Holds-ok _ (ground arith, first start placed)

-- Parsing a record whose content are bytes, none of the data attributes that are reached in it having
-- a run list that makes the parser of run lists panic, never panics and always ends; the index entries
-- and the resident data that it keeps fit in the content of the record.
pub parse_record-Holds :
    (record' : MftRecord)
    → AreBytes record'.content
    → RunListsHold record'.content
    → Holds (λ found. IsParsed (length record'.content) found.0) (MftParser.parse record')
unfolding MftParser.parse
parse_record-Holds record' b runs = Holds-bind _ _ (header-Holds record'.content b) λ header h _.
    Holds-bind _ _
      (attributes_loop-Holds record'.content b runs (length record'.content + 1)
        header.first_attribute_offset _ (omega arith) (omega (arith, h.0)) h.1
        (record { content = tt; directory_index = tt }))
      λ parsed w _. Holds-ok _ w
