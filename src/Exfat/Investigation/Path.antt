-- ===== src/Exfat/Investigation/Path.antt =====
-- In a hierarchy every path leads up to the root.
use forensis.Prelude.{
  All, Bool-cases, List, [], ap, arith, false, inl, inr, length, refl, some, suc, sym, true, zero,
  ℕ, ◌&&◌, ◌++◌, ◌+◌, ◌<◌, ◌==◌, ◌∙◌, ◌∷◌, ◌≡◌, ◌≤◌,
}
use mathlib.Core.List.{append_assoc, append-nil}
use forensis.Text.{Text}
use forensis.Visited.{contains}
use forensis.Exfat.Directory.{is_directory}
use forensis.Exfat.InvestigationEntry.{ExfatInvestigationEntry}
use forensis.Exfat.Investigation.Model.{find_entry, path_loop, resolve_path}
use forensis.Exfat.Investigation.Numbering.{IsHierarchy, IsNumbered, IsPlaced}
use forensis.Ntfs.Investigation.{join_path}

-- The names on the way from the first entry down to one, the first one's own left out.
pub data IsChain {T : Type 0} (entries : List (ExfatInvestigationEntry T))
    : ℕ → List Text → Type 0 where
  at_root : (id : ℕ) → id ≡ 1 → IsChain entries id []
  below :
      (id : ℕ) (entry : ExfatInvestigationEntry T) (names : List Text)
      → find_entry id entries ≡ some entry
      → entry.parent_id < id
      → IsChain entries entry.parent_id names
      → IsChain entries id (names ++ (entry.name ∷ []))

abbrev AreAbove : ℕ → List ℕ → Type 0
AreAbove id visited = All (λ other. id < other) visited

fresh : (id : ℕ) (visited : List ℕ) → AreAbove id visited → contains id visited ≡ false
fresh id [] h = refl
fresh id (other ∷ visited) h = ground (arith, fresh id visited h.1, h.0)

above :
    (id lower : ℕ) (visited : List ℕ) → lower < id → AreAbove id visited → AreAbove lower visited
above id lower [] l h = tt
above id lower (other ∷ visited) l h = (omega (arith, h.0), above id lower visited l h.1)

module _ {T : Type 0} where
  -- An identifier in range is that of an entry.
  find_entry-numbered :
      (P : ExfatInvestigationEntry T → Type 0) (k id : ℕ)
      (entries : List (ExfatInvestigationEntry T))
      → IsNumbered k entries
      → All P entries
      → k ≤ id
      → id < k + length entries
      → (entry : ExfatInvestigationEntry T) × (find_entry id entries ≡ some entry)
        × (entry.object_id ≡ id)
        × P entry
  unfolding find_entry
  find_entry-numbered P k id [] n h low high = absurd (omega arith)
  find_entry-numbered P k id (first ∷ entries) n h low high =
      elim (Bool-cases (first.object_id == id)) [
        | inl same ↦ (first, rw same refl, ground (arith, same), h.0)
        | inr other ↦
            let more : k + 1 ≤ id = ground (arith, other, n.0) in
            let (entry, e, i, p) =
              find_entry-numbered P (k + 1) id entries n.1 h.1 more (omega arith) in
            (entry, rw other e, i, p)
      ]

  module _ (entries : List (ExfatInvestigationEntry T)) (hierarchy : IsHierarchy entries) where
    path_loop-IsChain :
        (fuel id : ℕ) (visited : List ℕ) (components : List Text)
        → 1 ≤ id
        → id ≤ length entries
        → id < fuel
        → AreAbove id visited
        → (names : List Text) × IsChain entries id names
          × (path_loop fuel entries id visited components ≡ some (names ++ components))
    unfolding path_loop
    path_loop-IsChain zero id visited components low high f v = absurd (omega arith)
    path_loop-IsChain (suc fuel) id visited components low high f v =
        let (entry, e, same, placed) =
          find_entry-numbered (IsPlaced entries) 1 id entries hierarchy.numbered hierarchy.placed
            low (omega arith) in
        let new = fresh id visited v in
        elim placed.2 [
          | inl earlier ↦
              let lower : entry.parent_id < id = omega (arith, same, earlier) in
              let inner : (entry.object_id == entry.parent_id) ≡ false = ground (arith, earlier) in
              let (names, chain, path) =
                path_loop-IsChain fuel entry.parent_id (id ∷ visited) (entry.name ∷ components)
                  placed.1 (omega arith) (omega arith)
                  (lower, above id entry.parent_id visited lower v) in
              (
                names ++ (entry.name ∷ []),
                below id entry names e lower chain,
                rw (new, e, inner)
                    (path ∙ ap some (sym (append_assoc names (entry.name ∷ []) components))),
              )
          | inr root ↦
              let top : (entry.object_id == entry.parent_id) ≡ true = ground (arith, root) in
              ([], at_root id (omega (arith, same, root.1)), rw (new, e, top) refl)
        ]

    -- In a hierarchy, the path of an entry with an identifier in range, which is no directory at its
    -- own parent, is made of the names on its way down from the first entry.
    pub resolve_exfat_path-IsChain :
        (entry : ExfatInvestigationEntry T)
        → 1 ≤ entry.object_id
        → entry.object_id ≤ length entries
        → (is_directory entry.kind && entry.object_id == entry.parent_id) ≡ false
        → (names : List Text) × IsChain entries entry.object_id names
          × (resolve_path entries entry ≡ some (join_path names))
    unfolding resolve_path
    resolve_exfat_path-IsChain entry low high inner =
        let (names, chain, path) =
          path_loop-IsChain (suc (length entries)) entry.object_id [] [] low high (omega arith)
            tt in
        (names, chain, rw (inner, path, append-nil) refl)
