-- ===== src/Bytes.antt =====
-- Reading little-endian integers out of a byte slice, as `uN::from_le_bytes(data[a..b])` and
-- indexing do it throughout crates/forensis-core/src. A byte slice is a list of numbers below 256.
pub mod Laws
use forensis.Prelude.{
  All, Bool, IsByte, List, Result, [], drop, false, get_or, if◌then◌else◌, leb, length, ltb, ok,
  panic, suc, take, true, zero, ℕ, ◌%◌, ◌&&◌, ◌*◌, ◌+◌, ◌-◌, ◌/◌, ◌==◌, ◌∷◌,
}

abbrev pub AreBytes : List ℕ → Type 0
AreBytes = All IsByte

-- The value of the first n bytes, lowest first.
abbrev pub le : ℕ → List ℕ → ℕ
le zero bytes = 0
le (suc n) [] = 0
le (suc n) (b ∷ bytes) = b + 256 * le n bytes

-- `uN::from_le_bytes` of the n bytes at `offset`; it panics where one of them is out of range.
unfoldable pub read_le : ℕ → List ℕ → ℕ → Result ℕ
read_le n buffer offset =
    if leb (offset + n) (length buffer) then ok (le n (drop offset buffer)) else panic

-- `buffer[index]`
unfoldable pub byte_at : List ℕ → ℕ → Result ℕ
byte_at buffer index = if ltb index (length buffer) then ok (get_or buffer index 0) else panic

-- `&buffer[start..end]`
unfoldable pub slice : List ℕ → ℕ → ℕ → Result (List ℕ)
slice buffer start end =
    if leb start end && leb end (length buffer)
    then ok (take (end - start) (drop start buffer))
    else panic

-- `n` bytes of a value, lowest first: `value.to_le_bytes()`.
unfoldable pub to_le_bytes : ℕ → ℕ → List ℕ
to_le_bytes zero v = []
to_le_bytes (suc n) v = (v % 256) ∷ to_le_bytes n (v / 256)

-- Equality of byte slices.
abbrev pub bytes_eq : List ℕ → List ℕ → Bool
bytes_eq [] [] = true
bytes_eq [] (b ∷ bs) = false
bytes_eq (a ∷ rest) [] = false
bytes_eq (a ∷ rest) (b ∷ bs) = a == b && bytes_eq rest bs
