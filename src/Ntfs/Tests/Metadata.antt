-- ===== src/Ntfs/Tests/Metadata.antt =====
-- The theorems on the metadata files at small tables.
use forensis.Prelude.{List, [], arith, map, panic, replicate, true, ℕ, ◌↔◌, ◌∷◌, ◌≡◌}
use forensis.Ntfs.MetadataFiles.{equals_ignore_case, parse_volume_information, uppercase}
use forensis.Ntfs.MetadataFiles.Fields.{
  equals_ignore_case-uppercase, parse_volume_information_short,
}

parse_volume_information_short_example : parse_volume_information (replicate 33 0) ≡ panic
parse_volume_information_short_example =
    parse_volume_information_short (replicate 33 0) (omega arith) (omega arith)

-- A table in which 3 is the capital of 1.
abbrev table : List ℕ
table = 0 ∷ 3 ∷ 2 ∷ 3 ∷ []

equals_ignore_case-uppercase_example :
    (equals_ignore_case table (1 ∷ 2 ∷ 9 ∷ []) (3 ∷ 2 ∷ 9 ∷ []) ≡ true)
    ↔ (map (uppercase table) (1 ∷ 2 ∷ 9 ∷ []) ≡ map (uppercase table) (3 ∷ 2 ∷ 9 ∷ []))
equals_ignore_case-uppercase_example =
    equals_ignore_case-uppercase table (1 ∷ 2 ∷ 9 ∷ []) (3 ∷ 2 ∷ 9 ∷ [])
