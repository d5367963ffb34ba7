-- ===== src/Ntfs/MftParser/Reached.antt =====
-- The offsets of a record at which the loop over its attributes looks.
use forensis.Prelude.{
  List, arith, drop, drop-add, leb, length, length-drop, ok, refl, sym, take, take-all, ℕ, ◌+◌, ◌-◌,
  ◌∙◌, ◌≡◌, ◌≢◌, ◌≤◌,
}
use forensis.Bytes.{read_le, slice}
use forensis.Bytes.Laws.{slice-exact}
use forensis.Ntfs.DataAttribute.Bounds.{RunListHolds}

-- The offset that the header of the record states, and the one behind an attribute that is reached, is
-- not the end mark and takes sixteen bytes at least.
pub data IsReached (content : List ℕ) : ℕ → Type 0 where
  first : (offset : ℕ) → read_le 2 content 20 ≡ ok offset → IsReached content offset
  next :
      (offset kind size : ℕ)
      → IsReached content offset
      → read_le 4 content offset ≡ ok kind
      → kind ≢ 0xffff_ffff
      → read_le 4 content (offset + 4) ≡ ok size
      → 16 ≤ size
      → IsReached content (offset + size)

-- No data attribute that is reached has a run list that makes the parser of run lists panic.
abbrev pub RunListsHold : List ℕ → Type 0
RunListsHold content =
    (offset size : ℕ)
    → IsReached content offset
    → read_le 4 content (offset + 4) ≡ ok size
    → RunListHolds (take size (drop offset content))

pub IsReached-move :
    (content : List ℕ) (m n : ℕ) → m ≡ n → IsReached content m → IsReached content n
IsReached-move content m n e h = rw (← e) h

read_le-drop :
    (n : ℕ) (content : List ℕ) (offset i : ℕ)
    → offset ≤ length content
    → read_le n (drop offset content) i ≡ read_le n content (offset + i)
unfolding read_le
read_le-drop n content offset i h =
    let size = length-drop offset content in
    let same : leb (i + n) (length (drop offset content)) ≡ leb (offset + i + n) (length content) =
      ground (arith, size) in
    rw (same, drop-add offset i content) refl

-- A field of the rest of a record is the field of the record.
pub read_le-tail :
    (n : ℕ) (content tail : List ℕ) (offset i : ℕ)
    → offset ≤ length content
    → slice content offset (length content) ≡ ok tail
    → read_le n content (offset + i) ≡ read_le n tail i
read_le-tail n content tail offset i h s =
    let cut =
      (slice-exact content offset (length content) h (omega arith)).on_ok tail s
      ∙ take-all (length content - offset) (drop offset content)
          (omega (arith, length-drop offset content)) in
    rw cut (sym (read_le-drop n content offset i h))
