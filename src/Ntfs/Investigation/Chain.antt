-- ===== src/Ntfs/Investigation/Chain.antt =====
-- The paths of entries that are connected to the root.
use forensis.Prelude.{
  All, Bool-cases, List, [], ap, arith, false, inl, inr, length, length-append, refl, some, suc,
  sym, true, zero, ℕ, ◌++◌, ◌<◌, ◌==◌, ◌∙◌, ◌∷◌, ◌≡◌, ◌≢◌, ◌≤◌,
}
use mathlib.Core.List.{append_assoc, append-nil}
use forensis.Text.{Text}
use forensis.Ntfs.InvestigationEntry.{InvestigationEntry}
use forensis.Ntfs.Investigation.{find_record, path_loop, join_path, resolve_path}
use forensis.Visited.{contains, unvisited, unvisited-lt}
use forensis.Ntfs.Investigation.Path.{records_of, first_fuel, contains-find_record}

-- The names on the way from the root down to a record, the root's own left out.
pub data IsChain (entries : List InvestigationEntry) : ℕ → List Text → Type 0 where
  at_root :
      (current : ℕ) (entry : InvestigationEntry)
      → find_record current entries ≡ some entry
      → entry.mft_record ≡ entry.parent_mft_record
      → IsChain entries current []
  below :
      (current : ℕ) (entry : InvestigationEntry) (names : List Text)
      → find_record current entries ≡ some entry
      → entry.mft_record ≢ entry.parent_mft_record
      → IsChain entries entry.parent_mft_record names
      → IsChain entries current (names ++ (entry.name ∷ []))

module _ (entries : List InvestigationEntry) where
  -- All the chains of a record have the same length.
  chain-length :
      (current : ℕ) (names others : List Text)
      → IsChain entries current names
      → IsChain entries current others
      → length names ≡ length others
  chain-length current names others (at_root _ entry e r) (at_root _ entry' e' r') = refl
  chain-length current names others (at_root _ entry e r) (below _ entry' names' e' r' c') =
      absurd (r' (cc (r, e, e')))
  chain-length current names others (below _ entry names' e r c) (at_root _ entry' e' r') =
      absurd (r (cc (r', e, e')))
  chain-length current names others (below _ entry above e r c) (below _ entry' above' e' r' c') =
      let parent : entry'.parent_mft_record ≡ entry.parent_mft_record = cc (e, e') in
      let same = chain-length entry.parent_mft_record above above' c (rw (← parent) c') in
      omega (
        arith,
        same,
        length-append above (entry.name ∷ []),
        length-append above' (entry'.name ∷ []),
      )

  -- A record with a longer chain.
  abbrev IsLower : ℕ → ℕ → Type 0
  IsLower n record' = (names : List Text) × IsChain entries record' names × (n < length names)

  not_visited :
      (current : ℕ) (names : List Text) (visited : List ℕ)
      → IsChain entries current names
      → All (IsLower (length names)) visited
      → contains current visited ≡ false
  not_visited current names [] c h = refl
  not_visited current names (v ∷ visited) c h = elim (Bool-cases (v == current)) [
    | inl same ↦
        let at : v ≡ current = ground (arith, same) in
        let (others, c', longer) = h.0 in
        let lengths = chain-length current names others c (rw (← at) c') in
        absurd (omega (arith, lengths, longer))
    | inr other ↦ rw other (not_visited current names visited c h.1)
  ]

  weaken_all :
      (n m : ℕ) (visited : List ℕ) → m ≤ n → All (IsLower n) visited → All (IsLower m) visited
  weaken_all n m [] l h = tt
  weaken_all n m (v ∷ visited) l h =
      ((h.0.0, h.0.1, omega (arith, h.0.2)), weaken_all n m visited l h.1)

  path_loop-chain :
      (fuel current : ℕ) (names : List Text) (visited : List ℕ) (components : List Text)
      → IsChain entries current names
      → All (IsLower (length names)) visited
      → unvisited visited (records_of entries) < fuel
      → path_loop fuel entries current visited components ≡ some (names ++ components)
  unfolding path_loop
  path_loop-chain zero current names visited components c h f = absurd (omega arith)
  path_loop-chain (suc fuel) current names visited components (at_root _ entry e r) h f =
      let fresh = not_visited current [] visited (at_root current entry e r) h in
      let root : (entry.mft_record == entry.parent_mft_record) ≡ true = ground (arith, r) in
      rw (fresh, e, root) refl
  path_loop-chain (suc fuel) current names visited components (below _ entry above e r c) h f =
      let whole = above ++ (entry.name ∷ []) in
      let chain = below current entry above e r c in
      let fresh = not_visited current whole visited chain h in
      let inner : (entry.mft_record == entry.parent_mft_record) ≡ false = ground (arith, r) in
      let longer = length-append above (entry.name ∷ []) in
      let rest =
        path_loop-chain fuel entry.parent_mft_record above (current ∷ visited)
          (entry.name ∷ components) c
          (
            (whole, chain, omega (arith, longer)),
            weaken_all (length whole) (length above) visited (omega (arith, longer)) h,
          )
          (omega (
            arith,
            unvisited-lt current visited (records_of entries) fresh
                (contains-find_record current entries entry e),
          )) in
      rw (fresh, e, inner) (rest ∙ ap some (sym (append_assoc above (entry.name ∷ []) components)))

-- For an entry that is not its own parent, and whose record leads up to the root, the path is made
-- of the names on the way, the highest first.
pub resolve_path-chain :
    (entries : List InvestigationEntry) (entry : InvestigationEntry) (names : List Text)
    → entry.mft_record ≢ entry.parent_mft_record
    → IsChain entries entry.mft_record names
    → resolve_path entries entry ≡ some (join_path names)
unfolding resolve_path
resolve_path-chain entries entry names r c =
    let inner : (entry.mft_record == entry.parent_mft_record) ≡ false = ground (arith, r) in
    rw
      (
        inner,
        path_loop-chain entries (suc (length entries)) entry.mft_record names [] [] c tt
            (first_fuel entries),
        append-nil,
      )
      refl
