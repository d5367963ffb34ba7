-- ===== src/Exfat/Investigation/Model.antt =====
-- The paths of the entries of an exFAT investigation, and the model that it becomes
-- (crates/forensis-core/src/filesystem/exfat/investigation.rs).
use forensis.Prelude.{
  List, Option, Result, [], if◌then◌else◌, length, none, ok, panic, some, suc, zero, ℕ, ◌&&◌, ◌==◌,
  ◌>>=◌, ◌∷◌,
}
use forensis.Text.{Text}
use forensis.Visited.{contains}
use forensis.Forensic.Model.{ForensicEntry, ForensicModel, exfat}
use forensis.Exfat.Directory.{is_directory}
use forensis.Exfat.InvestigationEntry.{ExfatInvestigationEntry, to_forensic_entry}
use forensis.Exfat.Investigation.{ExfatInvestigation}
use forensis.Ntfs.Investigation.{join_path}

abbrev path_of : Option (List Text) → Option Text
path_of none = none
path_of (some components) = some (join_path components)

module _ {T : Type 0} where
  -- `iter().find(|candidate| candidate.object_id() == current_id)`
  unfoldable pub find_entry :
      ℕ → List (ExfatInvestigationEntry T) → Option (ExfatInvestigationEntry T)
  find_entry current_id [] = none
  find_entry current_id (candidate ∷ candidates) =
      if candidate.object_id == current_id then some candidate else find_entry current_id candidates

  -- The `loop` of `resolve_path`. Both lists have what was pushed last first, so that the components
  -- come out as `components.reverse()` has them. `none` where the fuel is used up.
  unfoldable pub path_loop :
      ℕ → List (ExfatInvestigationEntry T) → ℕ → List ℕ → List Text → Option (List Text)
  path_loop zero entries current_id visited components = none
  path_loop (suc fuel) entries current_id visited components =
      let on = λ (current : ExfatInvestigationEntry T).
        path_loop fuel entries current.parent_id (current_id ∷ visited)
          (current.name ∷ components) in
      if contains current_id visited
      then some components
      else elim (find_entry current_id entries) [
        | none ↦ some components
        | some current ↦
            if current.object_id == current.parent_id then some components else on current
      ]

  -- `resolve_path`, one more than the number of entries being the fuel.
  unfoldable pub resolve_path :
      List (ExfatInvestigationEntry T) → ExfatInvestigationEntry T → Option Text
  resolve_path entries entry =
      if is_directory entry.kind && entry.object_id == entry.parent_id
      then some (0x2f ∷ [])
      else path_of (path_loop (suc (length entries)) entries entry.object_id [] [])

  -- A round of the `map` of `to_forensic_model`.
  unfoldable pub place_entry :
      ExfatInvestigation T → ExfatInvestigationEntry T → Result (ForensicEntry T)
  place_entry investigation entry = do
    forensic ←
        to_forensic_entry entry investigation.bytes_per_cluster investigation.sectors_per_cluster
          investigation.first_data_sector
    let placed = λ (path : Text).
        ok (record forensic { identity = record forensic.identity { path = path } })
    elim (resolve_path investigation.entries entry) [ none ↦ panic | some path ↦ placed path ]

  unfoldable pub place_entries :
      ExfatInvestigation T → List (ExfatInvestigationEntry T) → Result (List (ForensicEntry T))
  place_entries investigation [] = ok []
  place_entries investigation (entry ∷ entries) = do
    forensic ← place_entry investigation entry
    others ← place_entries investigation entries
    ok (forensic ∷ others)

  -- `ExFatInvestigation::to_forensic_model`
  unfoldable pub to_forensic_model : Option Text → ExfatInvestigation T → Result (ForensicModel T)
  to_forensic_model image investigation = do
    entries ← place_entries investigation investigation.entries
    ok (record {
      source = record { image = image; filesystem = exfat };
      records_investigated = investigation.records;
      entries = entries;
    })
