-- ===== src/Fat32/Investigation/Unique.antt =====
-- The entries of an investigation: no name occurs twice in a directory, and nothing is lost unseen.
use forensis.Prelude.{
  All, All-append, Bool-cases, List, [], arith, false, inl, inr, length, length-append, refl, true,
  ℕ, ◌++◌, ◌+◌, ◌∷◌, ◌≡◌, ◌≢◌,
}
use forensis.Text.{Text}
use forensis.Bytes.{bytes_eq}
use forensis.Fat32.InvestigationEntry.{Fat32InvestigationEntry}
use forensis.Fat32.Investigation.{Fat32Investigation, add_entry, has_key}

-- No two entries have both the parent and the name in common.
abbrev pub AreDistinct : List Fat32InvestigationEntry → Type 0
AreDistinct [] = Unit {0}
AreDistinct (entry ∷ entries) =
    All (λ other. entry.parent_id ≡ other.parent_id → entry.name ≢ other.name) entries
    × AreDistinct entries

AreDistinct-append :
    (entries : List Fat32InvestigationEntry) (entry : Fat32InvestigationEntry)
    → AreDistinct entries
    → All (λ other. other.parent_id ≡ entry.parent_id → other.name ≢ entry.name) entries
    → AreDistinct (entries ++ (entry ∷ []))
AreDistinct-append [] entry d h = (tt, tt)
AreDistinct-append (first ∷ entries) entry d h = (
  All-append (λ other. first.parent_id ≡ other.parent_id → first.name ≢ other.name) entries
      (entry ∷ []) d.0 (h.0, tt),
  AreDistinct-append entries entry d.1 h.1,
)

bytes_eq_same : (name : Text) → bytes_eq name name ≡ true
bytes_eq_same [] = refl
bytes_eq_same (b ∷ name) = ground (arith, bytes_eq_same name)

abbrev IsKnown : List (ℕ × Text) → Fat32InvestigationEntry → Type 0
IsKnown seen entry = has_key entry.parent_id entry.name seen ≡ true

All-IsKnown :
    (key : ℕ × Text) (seen : List (ℕ × Text)) (entries : List Fat32InvestigationEntry)
    → All (IsKnown seen) entries
    → All (IsKnown (key ∷ seen)) entries
unfolding has_key
All-IsKnown key seen [] h = tt
All-IsKnown key seen (entry ∷ entries) h = (ground (arith, h.0), All-IsKnown key seen entries h.1)

-- An entry whose key is new differs from the known ones.
differs :
    (seen : List (ℕ × Text)) (entry : Fat32InvestigationEntry)
    (entries : List Fat32InvestigationEntry)
    → has_key entry.parent_id entry.name seen ≡ false
    → All (IsKnown seen) entries
    → All (λ other. other.parent_id ≡ entry.parent_id → other.name ≢ entry.name) entries
differs seen entry [] fresh h = tt
differs seen entry (other ∷ entries) fresh h =
    (λ p n. absurd (cc (h.0, fresh, p, n)), differs seen entry entries fresh h.1)

-- An investigation to which so many entries were offered.
pub record IsUnique (investigation : Fat32Investigation) (offered : ℕ) : Type 0 where
  pub distinct : AreDistinct investigation.entries
  pub known : All (IsKnown investigation.seen) investigation.entries
  pub counted : length investigation.entries + investigation.noise_discarded ≡ offered

pub add_entry-IsUnique :
    (entry : Fat32InvestigationEntry) (investigation : Fat32Investigation) (offered : ℕ)
    → IsUnique investigation offered
    → IsUnique (add_entry entry investigation) (offered + 1)
unfolding add_entry
add_entry-IsUnique entry investigation offered u =
    elim (Bool-cases (has_key entry.parent_id entry.name investigation.seen)) [
      | inl noise ↦
          rw noise
            (record { distinct = u.distinct; known = u.known; counted = omega (arith, u.counted) })
      | inr fresh ↦ rw fresh (record {
        distinct =
            AreDistinct-append investigation.entries entry u.distinct
              (differs investigation.seen entry investigation.entries fresh u.known);
        known =
            All-append (IsKnown ((entry.parent_id, entry.name) ∷ investigation.seen))
              investigation.entries (entry ∷ [])
              (All-IsKnown (entry.parent_id, entry.name) investigation.seen investigation.entries
                u.known)
              (unfold has_key in ground (arith, bytes_eq_same entry.name), tt);
        counted = omega (arith, u.counted, length-append investigation.entries (entry ∷ []));
      })
    ]
