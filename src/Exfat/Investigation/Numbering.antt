-- ===== src/Exfat/Investigation/Numbering.antt =====
-- The identifiers of the entries: they count up, and every parent is a directory that came before.
use forensis.Prelude.{
  All, All-append, Bool-cases, List, [], arith, false, inl, inr, length, length-append, some, true,
  ℕ, ◌++◌, ◌+◌, ◌<◌, ◌==◌, ◌∷◌, ◌≡◌, ◌≤◌, ◌⊎◌,
}
use forensis.Text.{Text}
use forensis.Exfat.Directory.{is_directory}
use forensis.Exfat.InvestigationEntry.{ExfatInvestigationEntry}
use forensis.Exfat.Investigation.{Walk, add_entry}
use forensis.Exfat.Investigation.Model.{find_entry}

module _ {T : Type 0} where
  -- The identifiers count up from a number.
  abbrev pub IsNumbered : ℕ → List (ExfatInvestigationEntry T) → Type 0
  IsNumbered k [] = Unit {0}
  IsNumbered k (entry ∷ entries) = (entry.object_id ≡ k) × IsNumbered (k + 1) entries

  IsNumbered-append :
      (k : ℕ) (entries : List (ExfatInvestigationEntry T)) (entry : ExfatInvestigationEntry T)
      → IsNumbered k entries
      → entry.object_id ≡ k + length entries
      → IsNumbered k (entries ++ (entry ∷ []))
  IsNumbered-append k [] entry n e = (omega (arith, e), tt)
  IsNumbered-append k (first ∷ entries) entry n e =
      (n.0, IsNumbered-append (k + 1) entries entry n.1 (omega (arith, e)))

  -- There is a directory of an identifier.
  abbrev pub HasDirectory : List (ExfatInvestigationEntry T) → ℕ → Type 0
  HasDirectory entries id =
      (found : ExfatInvestigationEntry T) × (find_entry id entries ≡ some found)
      × (is_directory found.kind ≡ true)
      × (found.object_id ≡ id)

  find_entry-append :
      (id : ℕ) (entries : List (ExfatInvestigationEntry T))
      (entry found : ExfatInvestigationEntry T)
      → find_entry id entries ≡ some found
      → find_entry id (entries ++ (entry ∷ [])) ≡ some found
  unfolding find_entry
  find_entry-append id [] entry found e = absurd (cc e)
  find_entry-append id (first ∷ entries) entry found e = elim (Bool-cases (first.object_id == id)) [
    | inl same ↦ rw same (rw same at e)
    | inr other ↦ rw other (find_entry-append id entries entry found (rw other at e))
  ]

  -- An identifier that is not used yet is found at the entry that is added with it.
  pub find_entry-last :
      (k : ℕ) (entries : List (ExfatInvestigationEntry T)) (entry : ExfatInvestigationEntry T)
      → IsNumbered k entries
      → entry.object_id ≡ k + length entries
      → find_entry entry.object_id (entries ++ (entry ∷ [])) ≡ some entry
  unfolding find_entry
  find_entry-last k [] entry n e = ground arith
  find_entry-last k (first ∷ entries) entry n e =
      let other : (first.object_id == entry.object_id) ≡ false = ground (arith, n.0, e) in
      rw other (find_entry-last (k + 1) entries entry n.1 (omega (arith, e)))

  -- Where an entry hangs: at a directory that came before it, or, the first one, at itself.
  abbrev pub IsPlacedAt : List (ExfatInvestigationEntry T) → ℕ → ℕ → Type 0
  IsPlacedAt entries id parent =
      HasDirectory entries parent × (1 ≤ parent) × ((parent < id) ⊎ ((parent ≡ 1) × (id ≡ 1)))

  abbrev pub IsPlaced : List (ExfatInvestigationEntry T) → ExfatInvestigationEntry T → Type 0
  IsPlaced entries entry = IsPlacedAt entries entry.object_id entry.parent_id

  pub IsPlacedAt-move :
      (entries : List (ExfatInvestigationEntry T)) (id parent moved : ℕ)
      → parent ≡ moved
      → IsPlacedAt entries id parent
      → IsPlacedAt entries id moved
  IsPlacedAt-move entries id parent moved e h = rw (← e) h

  -- The entries of an investigation count up from 1, and each has its place.
  pub record IsHierarchy (entries : List (ExfatInvestigationEntry T)) : Type 0 where
    pub numbered : IsNumbered 1 entries
    pub placed : All (IsPlaced entries) entries

  -- A parent for the entries to come.
  abbrev pub IsParent : List (ExfatInvestigationEntry T) → ℕ → Type 0
  IsParent entries parent = HasDirectory entries parent × (1 ≤ parent) × (parent ≤ length entries)

  -- Between two steps of the walk.
  pub record IsSound (walk : Walk T) : Type 0 where
    pub hierarchy : IsHierarchy walk.investigation.entries
    pub next : walk.next_id ≡ 1 + length walk.investigation.entries
    pub queued : All (λ item. IsParent walk.investigation.entries item.1) walk.queue

  HasDirectory-append :
      (entries : List (ExfatInvestigationEntry T)) (entry : ExfatInvestigationEntry T) (id : ℕ)
      → HasDirectory entries id
      → HasDirectory (entries ++ (entry ∷ [])) id
  HasDirectory-append entries entry id (found, e, kind, same) =
      (found, find_entry-append id entries entry found e, kind, same)

  All-IsPlaced :
      (entries : List (ExfatInvestigationEntry T)) (entry : ExfatInvestigationEntry T)
      (some_entries : List (ExfatInvestigationEntry T))
      → All (IsPlaced entries) some_entries
      → All (IsPlaced (entries ++ (entry ∷ []))) some_entries
  All-IsPlaced entries entry [] h = tt
  All-IsPlaced entries entry (e ∷ others) h = (
    (HasDirectory-append entries entry e.parent_id h.0.0, h.0.1, h.0.2),
    All-IsPlaced entries entry others h.1,
  )

  pub IsParent-append :
      (entries : List (ExfatInvestigationEntry T)) (entry : ExfatInvestigationEntry T) (parent : ℕ)
      → IsParent entries parent
      → IsParent (entries ++ (entry ∷ [])) parent
  IsParent-append entries entry parent (directory, low, high) = (
    HasDirectory-append entries entry parent directory,
    low,
    omega (arith, length-append entries (entry ∷ [])),
  )

  All-IsParent :
      (entries : List (ExfatInvestigationEntry T)) (entry : ExfatInvestigationEntry T)
      (queue : List (ℕ × ℕ × Text))
      → All (λ item. IsParent entries item.1) queue
      → All (λ item. IsParent (entries ++ (entry ∷ [])) item.1) queue
  All-IsParent entries entry [] h = tt
  All-IsParent entries entry (item ∷ queue) h =
      (IsParent-append entries entry item.1 h.0, All-IsParent entries entry queue h.1)

  -- An entry is added with the next identifier, at a parent that is there with it.
  pub add_entry-IsSound :
      (entry : ExfatInvestigationEntry T) (walk : Walk T)
      → IsSound walk
      → entry.object_id ≡ walk.next_id
      → IsPlaced (walk.investigation.entries ++ (entry ∷ [])) entry
      → IsSound (add_entry entry walk)
  unfolding add_entry
  add_entry-IsSound entry walk h e place = record {
    hierarchy = record {
      numbered =
          IsNumbered-append 1 walk.investigation.entries entry h.hierarchy.numbered
            (omega (arith, e, h.next));
      placed =
          All-append (IsPlaced (walk.investigation.entries ++ (entry ∷ [])))
            walk.investigation.entries (entry ∷ [])
            (All-IsPlaced walk.investigation.entries entry walk.investigation.entries
              h.hierarchy.placed)
            (place, tt);
    };
    next = omega (arith, h.next, length-append walk.investigation.entries (entry ∷ []));
    queued = All-IsParent walk.investigation.entries entry walk.queue h.queued;
  }
