-- ===== src/Ntfs/DataAttribute/Bounds.antt =====
-- A data attribute is parsed without a panic, unless its run list makes the run list parser panic.
use forensis.Prelude.{
  Holds, Holds-bind, Holds-fail_if, Holds-if, Holds-ok, Holds-ok_or, List, Option, [], ap, arith,
  checked_add-eq, drop, false, length, none, ok, ok_inj, refl, some, sym, take, true, ℕ, ◌+◌, ◌-◌,
  ◌==◌, ◌∙◌, ◌≡◌, ◌≢◌, ◌≤◌,
}
use forensis.Bytes.{AreBytes, byte_at, read_le}
use forensis.Bytes.Laws.{read_le-Holds, byte_at-Holds, slice-Holds, slice-exact}
use forensis.Ntfs.DataRun
use forensis.Ntfs.DataRun.{DataRun}
use forensis.Ntfs.DataAttribute.{
  DataAttribute, data_attribute_type, parse_resident, parse_non_resident, parse,
}

-- If the bytes are a data attribute that is stored in runs, the run list at the place that the
-- attribute states, up to the end that it states, does not make the parser of run lists panic.
abbrev pub RunListHolds : List ℕ → Type 0
RunListHolds buffer =
    (size offset : ℕ)
    → read_le 4 buffer 0 ≡ ok data_attribute_type
    → byte_at buffer 8 ≢ ok 0
    → read_le 4 buffer 4 ≡ ok size
    → read_le 2 buffer 32 ≡ ok offset
    → Holds (λ _. Unit {0}) (DataRun.parse (take (size - offset) (drop offset buffer)))

-- Resident data are as many bytes as the attribute says the file has, and lie within the attribute.
pub record IsResident (room : ℕ) (attribute : DataAttribute) (content : List ℕ) : Type 0 where
  pub bytes : AreBytes content
  pub size : length content ≡ attribute.real_size
  pub inside : length content + 22 ≤ room
  pub no_runs : attribute.data_runs ≡ []

abbrev IsResident? : ℕ → DataAttribute → Option (List ℕ) → Type 0
IsResident? room attribute none = attribute.non_resident ≡ true
IsResident? room attribute (some content) =
    (attribute.non_resident ≡ false) × IsResident room attribute content

abbrev pub IsDataAttribute : ℕ → DataAttribute → Type 0
IsDataAttribute room attribute = IsResident? room attribute attribute.resident_data

parse_resident-Holds :
    (buffer : List ℕ) (size : ℕ)
    → AreBytes buffer
    → size ≤ length buffer
    → Holds (IsDataAttribute (length buffer)) (parse_resident buffer size)
unfolding parse_resident
parse_resident-Holds buffer size b fits = Holds-fail_if _ _ _ λ long.
    let header : 22 ≤ size = ground arith in
    Holds-bind _ _ (read_le-Holds 4 buffer 16 b (omega arith)) λ value_length _ _.
      Holds-bind _ _ (read_le-Holds 2 buffer 20 b (omega arith)) λ value_offset _ _.
        Holds-ok_or _ _ _ λ value_end e. Holds-fail_if _ _ _ λ inside.
          let sum = checked_add-eq _ _ _ _ e in
          let low : 22 ≤ value_offset = ground arith in
          let high : value_end ≤ size = ground arith in
          Holds-bind _ _
            (slice-Holds buffer value_offset value_end b (omega (arith, sum)) (omega arith))
            λ content c _. Holds-ok _ (
              refl,
              record {
                bytes = c.0;
                size = omega (arith, c.1, sum);
                inside = omega (arith, c.1, sum);
                no_runs = refl;
              },
            )

parse_non_resident-Holds :
    (buffer : List ℕ) (size : ℕ)
    → AreBytes buffer
    → size ≤ length buffer
    → ((offset : ℕ)
        → read_le 2 buffer 32 ≡ ok offset
        → Holds (λ _. Unit {0}) (DataRun.parse (take (size - offset) (drop offset buffer))))
    → Holds (IsDataAttribute (length buffer)) (parse_non_resident buffer size)
unfolding parse_non_resident
parse_non_resident-Holds buffer size b fits r = Holds-fail_if _ _ _ λ long.
    let header : 64 ≤ size = ground arith in
    Holds-bind _ _ (read_le-Holds 2 buffer 32 b (omega arith)) λ runlist_offset _ placed.
      Holds-bind _ _ (read_le-Holds 8 buffer 40 b (omega arith)) λ _ _ _.
        Holds-bind _ _ (read_le-Holds 8 buffer 48 b (omega arith)) λ _ _ _.
          Holds-fail_if _ _ _ λ inside.
            let low : runlist_offset ≤ size = ground arith in
            Holds-bind _ _ (slice-exact buffer runlist_offset size low fits) λ runlist s _.
              Holds-bind {Q = λ _. Unit {0}} _ _ (rw s (r runlist_offset placed))
                λ data_runs _ _. Holds-ok _ refl

-- On bytes whose run list, if they are a data attribute that has one, does not make the run list
-- parser panic, a data attribute is parsed or refused without a panic; resident data have the size
-- that the attribute states, lie behind its header and come with no runs.
pub parse_content-Holds :
    (buffer : List ℕ)
    → AreBytes buffer
    → RunListHolds buffer
    → Holds (IsDataAttribute (length buffer)) (parse buffer)
unfolding parse
parse_content-Holds buffer b r = Holds-fail_if _ _ _ λ enough.
    let long : 16 ≤ length buffer = ground arith in
    Holds-bind _ _ (read_le-Holds 4 buffer 0 b (omega arith)) λ kind _ typed.
      Holds-fail_if _ _ _ λ is_data.
        let same : kind ≡ data_attribute_type = ground (arith, is_data) in
        Holds-bind _ _ (read_le-Holds 4 buffer 4 b (omega arith)) λ size _ sized.
          Holds-fail_if _ _ _ λ inside.
            let fits : size ≤ length buffer = ground arith in
            Holds-bind _ _ (byte_at-Holds buffer 8 b (omega arith)) λ flag _ flagged.
              Holds-if (flag == 0) _ _ (λ _. parse_resident-Holds buffer size b fits)
                (λ stored. parse_non_resident-Holds buffer size b fits λ offset placed.
                  r size offset (typed ∙ ap ok same)
                    (λ zero_flag.
                      let none_stored : flag ≡ 0 = ok_inj (sym flagged ∙ zero_flag) in
                      absurd (ground (arith, stored, none_stored)))
                    sized placed)

weaken_resident :
    (room more : ℕ) (attribute : DataAttribute) (content : Option (List ℕ))
    → room ≤ more
    → IsResident? room attribute content
    → IsResident? more attribute content
weaken_resident room more attribute none l h = h
weaken_resident room more attribute (some content) l h = (
  h.0,
  record {
    bytes = h.1.bytes;
    size = h.1.size;
    inside = omega (arith, h.1.inside);
    no_runs = h.1.no_runs;
  },
)

pub weaken_data_attribute :
    (room more : ℕ) (attribute : DataAttribute)
    → room ≤ more
    → IsDataAttribute room attribute
    → IsDataAttribute more attribute
weaken_data_attribute room more attribute l h =
    weaken_resident room more attribute attribute.resident_data l h
