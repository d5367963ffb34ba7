-- ===== src/Fat32/Investigation/Path.antt =====
-- The paths of the entries of a FAT32 investigation, whatever the entries are.
use forensis.Prelude.{
  Bool-cases, List, [], ap, arith, inl, inr, length, none, refl, some, suc, true, zero, ℕ, ◌&&◌,
  ◌<◌, ◌==◌, ◌∷◌, ◌≡◌, ◌⊎◌,
}
use forensis.Text.{Text}
use forensis.Visited.{contains, unvisited, unvisited-nil, unvisited-lt}
use forensis.Ntfs.Investigation.{join_path}
use forensis.Fat32.InvestigationEntry.{Fat32InvestigationEntry}
use forensis.Fat32.Investigation.Model.{find_entry, path_loop, resolve_path}

abbrev ids_of : List Fat32InvestigationEntry → List ℕ
ids_of [] = []
ids_of (entry ∷ entries) = entry.object_id ∷ ids_of entries

length-ids_of : (entries : List Fat32InvestigationEntry) → length (ids_of entries) ≡ length entries
length-ids_of [] = refl
length-ids_of (entry ∷ entries) = ap suc (length-ids_of entries)

-- A search finds nothing, or an entry with the identifier.
find_entry-cases :
    (id : ℕ) (entries : List Fat32InvestigationEntry)
    → (find_entry id entries ≡ none)
      ⊎ ((entry : Fat32InvestigationEntry) × (find_entry id entries ≡ some entry)
          × (contains id (ids_of entries) ≡ true))
unfolding find_entry contains
find_entry-cases id [] = inl refl
find_entry-cases id (entry ∷ entries) = elim (Bool-cases (entry.object_id == id)) [
  | inl same ↦ inr (entry, rw same refl, rw same refl)
  | inr other ↦ elim (find_entry-cases id entries) [
    | inl missing ↦ inl (rw other missing)
    | inr (found, e, here) ↦ inr (found, rw other e, rw other here)
  ]
]

-- The loop ends within as many rounds as there are entries left to visit.
path_loop-found :
    (fuel : ℕ) (entries : List Fat32InvestigationEntry) (id : ℕ) (visited : List ℕ)
    (components : List Text)
    → unvisited visited (ids_of entries) < fuel
    → (found : List Text) × (path_loop fuel entries id visited components ≡ some found)
unfolding path_loop
path_loop-found zero entries id visited components h = absurd (omega arith)
path_loop-found (suc fuel) entries id visited components h =
    elim (Bool-cases (contains id visited)) [
      | inl seen ↦ (components, rw seen refl)
      | inr fresh ↦ elim (find_entry-cases id entries) [
        | inl missing ↦ (components, rw (fresh, missing) refl)
        | inr (entry, e, here) ↦ elim (Bool-cases (entry.object_id == entry.parent_id)) [
          | inl root ↦ (components, rw (fresh, e, root) refl)
          | inr below ↦
              let less = unvisited-lt id visited (ids_of entries) fresh here in
              let (found, rest) =
                path_loop-found fuel entries entry.parent_id (id ∷ visited)
                  (entry.name ∷ components) (omega (arith, less)) in
              (found, rw (fresh, e, below) rest)
        ]
      ]
    ]

-- Whatever the entries are, cyclic ones included, the path of an entry is found.
pub resolve_fat32_path-found :
    (entries : List Fat32InvestigationEntry) (entry : Fat32InvestigationEntry)
    → (path : Text) × (resolve_path entries entry ≡ some path)
unfolding resolve_path
resolve_fat32_path-found entries entry =
    elim (Bool-cases (entry.is_directory && entry.object_id == entry.parent_id)) [
      | inl root ↦ (0x2f ∷ [], rw root refl)
      | inr below ↦
          let (components, e) =
            path_loop-found (suc (length entries)) entries entry.object_id [] []
              (omega (arith, unvisited-nil (ids_of entries), length-ids_of entries)) in
          (join_path components, rw (below, e) refl)
    ]
