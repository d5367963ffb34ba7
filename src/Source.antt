-- ===== src/Source.antt =====
-- crates/forensis-core/src/traits.rs and disk/image_reader.rs: random access to the evidence.
-- The evidence does not change during a run, so `&mut` readers are values. `read_at offset n`
-- returns the bytes that the source writes to a buffer of n bytes.
use forensis.Prelude.{
  All-drop, All-take, Holds, Holds-err, Holds-if, Holds-ok, IsByte, List, Result, arith, drop, err,
  if◌then◌else◌, io, leb, length, length-drop, length-take, ok, take, ℕ, ◌+◌, ◌==◌, ◌||◌, ◌≡◌, ◌≤◌,
}
use forensis.Bytes.{AreBytes}

pub record Readable : Type 0 where
  pub read_at : ℕ → ℕ → Result (List ℕ)
  pub size : ℕ

-- A successful read has filled the buffer.
abbrev pub FillsBuffer : ℕ → List ℕ → Type 0
FillsBuffer n bytes = AreBytes bytes × (length bytes ≡ n)

-- Every read returns or fails.
pub record IsTotal (reader : Readable) : Type 0 where
  pub fills : (offset n : ℕ) → Holds (FillsBuffer n) (reader.read_at offset n)

-- Nothing is known of reads that pass the end of the source: they may panic.
pub record IsTotalWithin (reader : Readable) : Type 0 where
  pub fills :
      (offset n : ℕ) → offset + n ≤ reader.size → Holds (FillsBuffer n) (reader.read_at offset n)

pub IsTotal-IsTotalWithin : {reader : Readable} → IsTotal reader → IsTotalWithin reader
IsTotal-IsTotalWithin t = record { fills = λ offset n _. t.fills offset n }

-- An opened image: what the file holds, and the size found when it was opened.
pub record ImageReader : Type 0 where
  pub file : List ℕ
  pub image_size : ℕ

-- `seek` and `read_exact`; a file that ends inside the buffer is an I/O error.
unfoldable pub read_image : ImageReader → ℕ → ℕ → Result (List ℕ)
read_image image offset n =
    if n == 0 || leb (offset + n) (length image.file)
    then ok (take n (drop offset image.file))
    else err io

unfoldable pub readable_image : ImageReader → Readable
unfolding read_image
readable_image image = record { read_at = read_image image; size = image.image_size }

-- An image of bytes is a total reader.
pub image-IsTotal : (image : ImageReader) → AreBytes image.file → IsTotal (readable_image image)
unfolding readable_image
image-IsTotal image b = record {
  fills = λ offset n.
      Holds-if (n == 0 || leb (offset + n) (length image.file)) _ _
        (λ inside. Holds-ok _ (
          All-take IsByte n _ (All-drop IsByte offset image.file b),
          ground (arith, length-take n (drop offset image.file), length-drop offset image.file),
        ))
        (λ _. Holds-err io);
}
