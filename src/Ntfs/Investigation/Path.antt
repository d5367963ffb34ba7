-- ===== src/Ntfs/Investigation/Path.antt =====
-- The paths of entries.
use forensis.Prelude.{
  Bool-cases, List, Option, [], ap, arith, inl, inr, length, none, refl, some, suc, true, zero, ℕ,
  ◌<◌, ◌==◌, ◌∷◌, ◌≡◌, ◌⊎◌,
}
use forensis.Text.{Text}
use forensis.Ntfs.InvestigationEntry.{InvestigationEntry}
use forensis.Visited.{contains, unvisited, unvisited-nil, unvisited-lt}
use forensis.Ntfs.Investigation.{find_record, path_loop, join, resolve_path}

abbrev pub records_of : List InvestigationEntry → List ℕ
records_of [] = []
records_of (entry ∷ entries) = entry.mft_record ∷ records_of entries

length-records_of :
    (entries : List InvestigationEntry) → length (records_of entries) ≡ length entries
length-records_of [] = refl
length-records_of (entry ∷ entries) = ap suc (length-records_of entries)

-- As many entries as there are can be unvisited at first.
pub first_fuel :
    (entries : List InvestigationEntry) → unvisited [] (records_of entries) < suc (length entries)
first_fuel entries = omega (arith, unvisited-nil (records_of entries), length-records_of entries)

-- A record that is found is one of an entry.
pub contains-find_record :
    (current : ℕ) (entries : List InvestigationEntry) (found : InvestigationEntry)
    → find_record current entries ≡ some found
    → contains current (records_of entries) ≡ true
contains-find_record current [] found e = absurd (cc e)
contains-find_record current (entry ∷ entries) found e =
    elim (Bool-cases (entry.mft_record == current)) [
      | inl same ↦ rw same refl
      | inr other ↦ rw other (contains-find_record current entries found (ground (arith, e, other)))
    ]

-- What a search returns.
pub find-cases :
    (found : Option InvestigationEntry)
    → (found ≡ none) ⊎ ((entry : InvestigationEntry) × (found ≡ some entry))
find-cases none = inl refl
find-cases (some entry) = inr (entry, refl)

-- The loop ends within as many rounds as there are entries left to visit.
path_loop-ends :
    (fuel : ℕ) (entries : List InvestigationEntry) (current : ℕ) (visited : List ℕ)
    (components : List Text)
    → unvisited visited (records_of entries) < fuel
    → (found : List Text) × (path_loop fuel entries current visited components ≡ some found)
unfolding path_loop
path_loop-ends zero entries current visited components h = absurd (omega arith)
path_loop-ends (suc fuel) entries current visited components h =
    elim (Bool-cases (contains current visited)) [
      | inl seen ↦ (components, rw seen refl)
      | inr fresh ↦ elim (find-cases (find_record current entries)) [
        | inl missing ↦ (components, rw (fresh, missing) refl)
        | inr (entry, e) ↦ elim (Bool-cases (entry.mft_record == entry.parent_mft_record)) [
          | inl root ↦ (components, rw (fresh, e, root) refl)
          | inr below ↦
              let (found, rest) =
                path_loop-ends fuel entries entry.parent_mft_record (current ∷ visited)
                  (entry.name ∷ components)
                  (omega (
                    arith,
                    unvisited-lt current visited (records_of entries) fresh
                        (contains-find_record current entries entry e),
                  )) in
              (found, rw (fresh, e, below) rest)
        ]
      ]
    ]

-- Whatever the entries are, cyclic ones included, the path of an entry is found, and starts at the
-- root.
pub resolve_path-ends :
    (entries : List InvestigationEntry) (entry : InvestigationEntry)
    → (path : Text) × (resolve_path entries entry ≡ some (0x2f ∷ path))
unfolding resolve_path
resolve_path-ends entries entry = elim (Bool-cases (entry.mft_record == entry.parent_mft_record)) [
  | inl root ↦ ([], rw root refl)
  | inr below ↦
      let (components, e) =
        path_loop-ends (suc (length entries)) entries entry.mft_record [] [] (first_fuel entries) in
      (join components, rw (below, e) refl)
]
