-- ===== src/Ntfs/IndexEntry/RoundTrip.antt =====
-- An entry printed by `raw` and parsed again.
use forensis.Prelude.{
  List, ap, arith, drop, err, false, ge→ltb, if◌then◌else◌, invalid_format, leb, length,
  length-append, ltb, lt→ltb, ok, plumbing, take_full, true, ℕ, ◌++◌, ◌+◌, ◌-◌, ◌<◌, ◌^◌, ◌∙◌, ◌≡◌,
}
use forensis.Bytes.{read_le, slice, to_le_bytes}
use forensis.Bytes.Laws.{read_le-ok, slice-ok, le-to_le_bytes}
use forensis.Ntfs.IndexEntry.{IndexEntry, parse, raw}
use forensis.Ntfs.IndexEntry.Bounds.{IsEntry}

module _ (entry : IndexEntry) (rest : List ℕ) where
  abbrev printed : List ℕ
  printed = raw entry ++ rest

  length-raw : length printed ≡ 16 + length entry.key + length rest
  unfolding raw to_le_bytes
  length-raw = omega (arith, length-append entry.key rest)

  raw-reference : entry.file_reference < 2 ^ 64 → read_le 8 printed 0 ≡ ok entry.file_reference
  unfolding raw to_le_bytes
  raw-reference h =
      read_le-ok 8 printed 0 (omega arith)
      ∙ ap ok (le-to_le_bytes 8 entry.file_reference (drop 8 printed) h)

  raw-size : entry.entry_length < 2 ^ 16 → read_le 2 printed 8 ≡ ok entry.entry_length
  unfolding raw to_le_bytes
  raw-size h =
      read_le-ok 2 printed 8 (omega arith)
      ∙ ap ok (le-to_le_bytes 2 entry.entry_length (drop 10 printed) h)

  raw-key_size : entry.key_length < 2 ^ 16 → read_le 2 printed 10 ≡ ok entry.key_length
  unfolding raw to_le_bytes
  raw-key_size h =
      read_le-ok 2 printed 10 (omega arith)
      ∙ ap ok (le-to_le_bytes 2 entry.key_length (drop 12 printed) h)

  raw-flags : entry.flags < 2 ^ 16 → read_le 2 printed 12 ≡ ok entry.flags
  unfolding raw to_le_bytes
  raw-flags h =
      read_le-ok 2 printed 12 (omega arith)
      ∙ ap ok (le-to_le_bytes 2 entry.flags (drop 14 printed) h)

  raw-key : slice printed 16 (16 + length entry.key) ≡ ok entry.key
  unfolding raw to_le_bytes
  raw-key =
      slice-ok printed 16 (16 + length entry.key) (omega arith)
        (omega (arith, length-append entry.key rest))
      ∙ ap ok (take_full (16 + length entry.key - 16) entry.key rest (omega arith))

-- What `raw` prints of an entry as the parser makes it, followed by at least the bytes that the
-- entry has behind its key, is parsed into the entry itself; followed by fewer, it is refused.
pub parse-raw :
    (entry : IndexEntry) (rest : List ℕ)
    → IsEntry entry
    → parse (raw entry ++ rest) ≡ (
        if leb (entry.entry_length - entry.key_length - 16) (length rest)
        then ok entry
        else err (invalid_format "INDEX_ENTRY exceeds buffer"))
unfolding parse plumbing
parse-raw entry rest w =
    let size = length-raw entry rest in
    let enough : ltb (length (raw entry ++ rest)) 16 ≡ false = ge→ltb _ _ (omega (arith, size)) in
    let header : ltb entry.entry_length 16 ≡ false = ge→ltb _ _ (omega (arith, w.inside)) in
    let behind : ltb entry.entry_length (16 + entry.key_length) ≡ false =
      ge→ltb _ _ (omega (arith, w.inside)) in
    let word : ltb (16 + entry.key_length) (2 ^ 64) ≡ true =
      lt→ltb _ _ (omega (arith, w.inside, w.size)) in
    let key : slice (raw entry ++ rest) 16 (16 + entry.key_length) ≡ ok entry.key =
      let same : 16 + entry.key_length ≡ 16 + length entry.key = omega (arith, w.key_size) in
      ap (λ n. slice (raw entry ++ rest) 16 n) same ∙ raw-key entry rest in
    rw
      (
        enough,
        raw-reference entry rest w.reference,
        raw-size entry rest w.size,
        raw-key_size entry rest (omega (arith, w.inside, w.size)),
        raw-flags entry rest w.flags,
        header,
        word,
        behind,
        key,
      )
      (ground (arith, size, w.key_size, w.inside))
