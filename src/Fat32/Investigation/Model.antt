-- ===== src/Fat32/Investigation/Model.antt =====
-- crates/forensis-core/src/filesystem/fat32/investigation.rs: `resolve_path` and
-- `to_forensic_model`.
use forensis.Prelude.{
  List, Option, Result, [], if◌then◌else◌, length, none, ok, panic, some, suc, zero, ℕ, ◌&&◌, ◌==◌,
  ◌>>=◌, ◌∷◌,
}
use forensis.Text.{Text}
use forensis.Visited.{contains}
use forensis.Forensic.Model.{ForensicEntry, ForensicModel, fat32}
use forensis.Fat32.InvestigationEntry.{Fat32InvestigationEntry, to_forensic_entry}
use forensis.Fat32.Investigation.{Fat32Investigation}
use forensis.Ntfs.Investigation.{join_path}

-- `iter().find(|candidate| candidate.object_id() == current_id)`
unfoldable pub find_entry : ℕ → List Fat32InvestigationEntry → Option Fat32InvestigationEntry
find_entry current_id [] = none
find_entry current_id (candidate ∷ candidates) =
    if candidate.object_id == current_id then some candidate else find_entry current_id candidates

-- The `loop` of `resolve_path`, whose vectors have what was pushed last first. `none` is the end of
-- the fuel.
unfoldable pub path_loop :
    ℕ → List Fat32InvestigationEntry → ℕ → List ℕ → List Text → Option (List Text)
path_loop zero entries current_id visited components = none
path_loop (suc fuel) entries current_id visited components =
    let on = λ (current : Fat32InvestigationEntry).
      path_loop fuel entries current.parent_id (current_id ∷ visited) (current.name ∷ components) in
    if contains current_id visited then some components else elim (find_entry current_id entries) [
      | none ↦ some components
      | some current ↦
          if current.object_id == current.parent_id then some components else on current
    ]

-- `Fat32Investigation::resolve_path`, with one more round than there are entries.
unfoldable pub resolve_path : List Fat32InvestigationEntry → Fat32InvestigationEntry → Option Text
resolve_path entries entry =
    if entry.is_directory && entry.object_id == entry.parent_id
    then some (0x2f ∷ [])
    else elim (path_loop (suc (length entries)) entries entry.object_id [] []) [
      | none ↦ none
      | some components ↦ some (join_path components)
    ]

module _ {T : Type 0} where
  -- The closure of `to_forensic_model`.
  unfoldable pub place_entry :
      Fat32Investigation → Fat32InvestigationEntry → Result (ForensicEntry T)
  place_entry investigation entry = do
    forensic ←
        to_forensic_entry entry investigation.bytes_per_cluster investigation.sectors_per_cluster
          investigation.first_data_sector
    let with_path = λ (path : Text).
        ok (record forensic { identity = record forensic.identity { path = path } })
    elim (resolve_path investigation.entries entry) [ none ↦ panic | some path ↦ with_path path ]

  unfoldable pub place_entries :
      Fat32Investigation → List Fat32InvestigationEntry → Result (List (ForensicEntry T))
  place_entries investigation [] = ok []
  place_entries investigation (entry ∷ entries) = do
    forensic ← place_entry investigation entry
    others ← place_entries investigation entries
    ok (forensic ∷ others)

  -- `Fat32Investigation::to_forensic_model`
  unfoldable pub to_forensic_model : Option Text → Fat32Investigation → Result (ForensicModel T)
  to_forensic_model image investigation = do
    entries ← place_entries investigation investigation.entries
    ok (record {
      source = record { image = image; filesystem = fat32 };
      records_investigated = investigation.records;
      entries = entries;
    })
