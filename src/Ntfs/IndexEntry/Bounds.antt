-- ===== src/Ntfs/IndexEntry/Bounds.antt =====
-- An index entry lies within its buffer, and its key within it.
use forensis.Prelude.{
  Holds, Holds-bind, Holds-fail_if, Holds-ok, Holds-ok_or, List, arith, checked_add-eq, length, ℕ,
  ◌+◌, ◌<◌, ◌^◌, ◌≡◌, ◌≤◌,
}
use forensis.Bytes.{AreBytes}
use forensis.Bytes.Laws.{read_le-Holds, slice-Holds}
use forensis.Ntfs.FileName.Bounds.{parse_value-Holds}
use forensis.Ntfs.IndexEntry.{IndexEntry, parse, file_name}

-- The fields fit their words, and the key has the stated length and lies within the entry.
pub record IsEntry (entry : IndexEntry) : Type 0 where
  pub reference : entry.file_reference < 2 ^ 64
  pub size : entry.entry_length < 2 ^ 16
  pub flags : entry.flags < 2 ^ 16
  pub key_size : length entry.key ≡ entry.key_length
  pub inside : 16 + entry.key_length ≤ entry.entry_length
  pub bytes : AreBytes entry.key

pub parse_entry-Holds :
    (content : List ℕ)
    → AreBytes content
    → Holds (λ entry. IsEntry entry × (entry.entry_length ≤ length content)) (parse content)
unfolding parse
parse_entry-Holds content b = Holds-fail_if _ _ _ λ enough.
    let long : 16 ≤ length content = ground arith in
    Holds-bind _ _ (read_le-Holds 8 content 0 b (omega arith)) λ file_reference r _.
      Holds-bind _ _ (read_le-Holds 2 content 8 b (omega arith)) λ entry_length l _.
        Holds-bind _ _ (read_le-Holds 2 content 10 b (omega arith)) λ key_length _ _.
          Holds-bind _ _ (read_le-Holds 2 content 12 b (omega arith)) λ flags f _.
            Holds-fail_if _ _ _ λ _. Holds-fail_if _ _ _ λ fits. Holds-ok_or _ _ _ λ key_end e.
              Holds-fail_if _ _ _ λ inside.
                let sum = checked_add-eq _ _ _ _ e in
                let room : entry_length ≤ length content = ground arith in
                let behind : key_end ≤ entry_length = ground arith in
                Holds-bind _ _ (slice-Holds content 16 key_end b (omega (arith, sum)) (omega arith))
                  λ key k _. Holds-ok _ (
                    record {
                      reference = omega (arith, r);
                      size = omega (arith, l);
                      flags = omega (arith, f);
                      key_size = omega (arith, k.1, sum);
                      inside = omega (arith, sum);
                      bytes = k.0;
                    },
                    room,
                  )

pub file_name-Holds :
    (entry : IndexEntry) → AreBytes entry.key → Holds (λ _. Unit {0}) (file_name entry)
unfolding file_name
file_name-Holds entry b = Holds-fail_if _ _ _ λ _. parse_value-Holds entry.key b
