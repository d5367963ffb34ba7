-- ===== src/Ntfs/DataRun/Encode.antt =====
-- An encoder for run lists, independent of the parser: what a volume's driver writes.
use forensis.Prelude.{List, [], none, some, ℕ, ◌%◌, ◌*◌, ◌++◌, ◌+◌, ◌-◌, ◌<◌, ◌^◌, ◌∷◌, ◌≤◌}
use forensis.Prelude.Int.{pos}
use forensis.Bytes.{to_le_bytes}
use forensis.Ntfs.DataRun.{DataRun}

-- A run to encode, with the widths of its fields in bytes.
pub data Extent : Type 0 where
  sparse : ℕ → ℕ → Extent
  physical : ℕ → ℕ → ℕ → ℕ → Extent

-- The two's complement of `lcn - previous` in k bytes.
abbrev pub delta : ℕ → ℕ → ℕ → ℕ
delta k previous lcn = (lcn + 256 ^ k - previous) % 256 ^ k

unfoldable pub encode : ℕ → List Extent → List ℕ
unfolding to_le_bytes
encode previous [] = 0 ∷ []
encode previous (sparse n count ∷ extents) = n ∷ (to_le_bytes n count ++ encode previous extents)
encode previous (physical n count k lcn ∷ extents) =
    (k * 16 + n)
    ∷ (to_le_bytes n count ++ (to_le_bytes k (delta k previous lcn) ++ encode lcn extents))

abbrev pub CountFits : ℕ → ℕ → Type 0
CountFits n count = (1 ≤ n) × (n ≤ 8) × (0 < count) × (count < 256 ^ n)

-- The signed difference fits k bytes.
abbrev pub DeltaFits : ℕ → ℕ → ℕ → Type 0
DeltaFits k previous lcn =
    (1 ≤ k)
    × (k ≤ 8)
    × (lcn < 2 ^ 63)
    × (2 * lcn < 2 * previous + 256 ^ k)
    × (2 * previous ≤ 2 * lcn + 256 ^ k)

abbrev pub Fits : ℕ → List Extent → Type 0
Fits previous [] = Unit
Fits previous (sparse n count ∷ extents) = CountFits n count × Fits previous extents
Fits previous (physical n count k lcn ∷ extents) =
    CountFits n count × DeltaFits k previous lcn × Fits lcn extents

abbrev pub to_run : Extent → DataRun
to_run (sparse n count) = record { lcn = none; cluster_count = count }
to_run (physical n count k lcn) = record { lcn = some (pos lcn); cluster_count = count }
