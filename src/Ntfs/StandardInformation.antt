-- ===== src/Ntfs/StandardInformation.antt =====
-- crates/forensis-core/src/filesystem/ntfs/standard_information.rs
use forensis.Prelude.{
  Holds, Holds-bind, Holds-fail_if, Holds-ok, List, Result, arith, fail_if, invalid_format, length,
  ltb, ok, ℕ, ◌>>=◌, ◌>>◌,
}
use forensis.Bytes.{AreBytes, read_le}
use forensis.Bytes.Laws.{read_le-Holds}

pub record StandardInformation : Type 0 where
  pub creation_time : ℕ
  pub modification_time : ℕ
  pub mft_modification_time : ℕ
  pub access_time : ℕ
  pub file_attributes : ℕ

-- `StandardInformation::parse`
unfoldable pub parse : List ℕ → Result StandardInformation
parse buffer = do
  fail_if (ltb (length buffer) 36) (invalid_format "Invalid $STANDARD_INFORMATION attribute")
  creation_time ← read_le 8 buffer 0
  modification_time ← read_le 8 buffer 8
  mft_modification_time ← read_le 8 buffer 16
  access_time ← read_le 8 buffer 24
  file_attributes ← read_le 4 buffer 32
  ok (record {
    creation_time = creation_time;
    modification_time = modification_time;
    mft_modification_time = mft_modification_time;
    access_time = access_time;
    file_attributes = file_attributes;
  })

pub parse_information-Holds :
    (buffer : List ℕ) → AreBytes buffer → Holds (λ _. Unit {0}) (parse buffer)
unfolding parse
parse_information-Holds buffer b = Holds-fail_if _ _ _ λ long.
    Holds-bind _ _ (read_le-Holds 8 buffer 0 b (ground arith)) λ _ _ _.
      Holds-bind _ _ (read_le-Holds 8 buffer 8 b (ground arith)) λ _ _ _.
        Holds-bind _ _ (read_le-Holds 8 buffer 16 b (ground arith)) λ _ _ _.
          Holds-bind _ _ (read_le-Holds 8 buffer 24 b (ground arith)) λ _ _ _.
            Holds-bind _ _ (read_le-Holds 4 buffer 32 b (ground arith)) λ _ _ _. Holds-ok _ tt
