-- ===== src/Ntfs/FileName/Bounds.antt =====
-- A file name is parsed without a panic.
use forensis.Prelude.{
  Holds, Holds-bind, Holds-fail_if, Holds-ok, Holds-ok_or, Holds-some, List, arith, checked_add-eq,
  length, ℕ, ◌≤◌,
}
use forensis.Bytes.{AreBytes}
use forensis.Bytes.Laws.{read_le-Holds, byte_at-Holds, slice-Holds}
use forensis.Ntfs.FileName.{parse_name, parse_value, parse}

parse_name-Holds :
    (value : List ℕ) (name_length : ℕ)
    → AreBytes value
    → Holds (λ _. Unit {0}) (parse_name value name_length)
unfolding parse_name
parse_name-Holds value name_length b = Holds-ok_or _ _ _ λ name_size s.
    Holds-ok_or _ _ _ λ name_end e. Holds-fail_if _ _ _ λ inside.
      let sum = checked_add-eq _ _ _ _ e in
      Holds-bind _ _ (slice-Holds value 66 name_end b (omega (arith, sum)) (ground arith))
        λ name_bytes _ _. Holds-some _ _ λ name _. tt

pub parse_value-Holds :
    (value : List ℕ) → AreBytes value → Holds (λ _. Unit {0}) (parse_value value)
unfolding parse_value
parse_value-Holds value b = Holds-fail_if _ _ _ λ enough.
    let long : 66 ≤ length value = ground arith in
    Holds-bind _ _ (read_le-Holds 8 value 0 b (omega arith)) λ _ _ _.
      Holds-bind _ _ (read_le-Holds 8 value 40 b (omega arith)) λ _ _ _.
        Holds-bind _ _ (read_le-Holds 8 value 48 b (omega arith)) λ _ _ _.
          Holds-bind _ _ (read_le-Holds 4 value 56 b (omega arith)) λ _ _ _.
            Holds-bind _ _ (byte_at-Holds value 64 b (omega arith)) λ name_length _ _.
              Holds-bind _ _ (byte_at-Holds value 65 b (omega arith)) λ _ _ _.
                Holds-bind _ _ (parse_name-Holds value name_length b) λ _ _ _. Holds-ok _ tt

pub parse_file_name-Holds :
    (buffer : List ℕ) → AreBytes buffer → Holds (λ _. Unit {0}) (parse buffer)
unfolding parse
parse_file_name-Holds buffer b = Holds-fail_if _ _ _ λ enough.
    let long : 16 ≤ length buffer = ground arith in
    Holds-bind _ _ (read_le-Holds 4 buffer 0 b (omega arith)) λ _ _ _. Holds-fail_if _ _ _ λ _.
      Holds-bind _ _ (read_le-Holds 4 buffer 4 b (omega arith)) λ attribute_length _ _.
        Holds-fail_if _ _ _ λ _. Holds-bind _ _ (byte_at-Holds buffer 8 b (omega arith)) λ _ _ _.
          Holds-fail_if _ _ _ λ _. Holds-fail_if _ _ _ λ header.
            let room : 24 ≤ length buffer = ground arith in
            Holds-bind _ _ (read_le-Holds 4 buffer 16 b (omega arith)) λ value_length _ _.
              Holds-bind _ _ (read_le-Holds 2 buffer 20 b (omega arith)) λ value_offset _ _.
                Holds-fail_if _ _ _ λ _. Holds-ok_or _ _ _ λ value_end e.
                  Holds-fail_if _ _ _ λ inside.
                    let sum = checked_add-eq _ _ _ _ e in
                    Holds-bind _ _
                      (slice-Holds buffer value_offset value_end b (omega (arith, sum))
                        (ground arith))
                      λ value v _. parse_value-Holds value v.0
