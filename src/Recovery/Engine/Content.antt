-- ===== src/Recovery/Engine/Content.antt =====
-- What recovery by a logical layout returns: the content that the layout describes, cut to size.
use mathlib.Core.List.{append-nil, append_assoc}
use forensis.Prelude.{
  >>=-eq-ok, Bool-cases, List, Option, Result, String, [], ap, arith, false, inl, inr, leb, length,
  length-append, length-take, ltb, none, not, ok, plumbing, refl, some, suc, sym, take, take-all,
  take_cut, take_full, u64_max, zero, ℕ, ◌&&◌, ◌++◌, ◌-◌, ◌==◌, ◌>>=◌, ◌∙◌, ◌∷◌, ◌≡◌, ◌≢◌, ◌≤◌,
}
use forensis.Source.{Readable}
use forensis.Forensic.Model.{ForensicEntry, ForensicContentSegment, ForensicContentLayout}
use forensis.Recovery.Engine.{
  PhysicalRecoveryEngine, read_content_segment, truncate, layout_loop, target_of,
  recover_logical_layout, conclude, recovered_result, recover_segments, recover,
}

-- The content that a list of segments describes: all of them read, one after the other.
unfoldable pub contents :
    PhysicalRecoveryEngine → Readable → ℕ → List ForensicContentSegment → Result (List ℕ)
contents engine reader bytes_per_cluster [] = ok []
contents engine reader bytes_per_cluster (segment ∷ segments) =
    read_content_segment engine reader bytes_per_cluster segment >>= λ bytes.
    contents engine reader bytes_per_cluster segments >>= λ rest. ok (bytes ++ rest)

-- The cut of a segment is a prefix of what is missing.
pub truncate-ok :
    (target gathered : ℕ) (bytes : List ℕ)
    → target ≢ u64_max
    → gathered ≤ target
    → truncate target gathered bytes ≡ ok (take (target - gathered) bytes)
unfolding truncate plumbing
truncate-ok target gathered bytes k h = ground (arith, take-all (target - gathered) bytes)

module _ (engine : PhysicalRecoveryEngine) (reader : Readable) (bytes_per_cluster : ℕ) where
  layout_loop-contents :
      (target : ℕ) (segments : List ForensicContentSegment) (gathered whole : List ℕ)
      → target ≢ u64_max
      → length gathered ≤ target
      → contents engine reader bytes_per_cluster segments ≡ ok whole
      → layout_loop engine reader bytes_per_cluster target segments gathered
        ≡ ok (take target (gathered ++ whole))
  unfolding layout_loop contents plumbing
  layout_loop-contents target [] gathered whole k h e =
      let w : [] ≡ whole = cc e in rw (← w, append-nil) (ap ok (sym (take-all target gathered h)))
  layout_loop-contents target (segment ∷ segments) gathered whole k h e =
      let (a, read, e') =
        >>=-eq-ok (read_content_segment engine reader bytes_per_cluster segment) _ e in
      let (b, later, e2) = >>=-eq-ok (contents engine reader bytes_per_cluster segments) _ e' in
      let w : a ++ b ≡ whole = cc e2 in
      let missing = target - length gathered in
      elim (Bool-cases (not (target == u64_max) && leb target (length gathered))) [
        | inl enough ↦ rw enough (ap ok (sym (take_full target gathered whole (ground arith))))
        | inr short ↦
            rw (short, read, truncate-ok target (length gathered) a k h)
              (layout_loop-contents target segments (gathered ++ take missing a) b k
                  (omega (arith, length-append gathered (take missing a), length-take missing a))
                  later
                ∙ ap ok (take_cut target gathered a b h)
                ∙ rw w refl)
      ]

  -- Without a known size everything is kept.
  layout_loop-all :
      (segments : List ForensicContentSegment) (gathered whole : List ℕ)
      → contents engine reader bytes_per_cluster segments ≡ ok whole
      → layout_loop engine reader bytes_per_cluster u64_max segments gathered
        ≡ ok (gathered ++ whole)
  unfolding layout_loop contents truncate plumbing
  layout_loop-all [] gathered whole e = let w : [] ≡ whole = cc e in rw (← w, append-nil)
  layout_loop-all (segment ∷ segments) gathered whole e =
      let (a, read, e') =
        >>=-eq-ok (read_content_segment engine reader bytes_per_cluster segment) _ e in
      let (b, later, e2) = >>=-eq-ok (contents engine reader bytes_per_cluster segments) _ e' in
      let w : a ++ b ≡ whole = cc e2 in
      rw read (layout_loop-all segments (gathered ++ a) b later ∙ rw (append_assoc, w) refl)

-- What remains of a content when it is cut to the size of its entry.
abbrev pub cut_to : Option ℕ → List ℕ → List ℕ
cut_to none whole = whole
cut_to (some n) whole = take n whole

sized_layout :
    (engine : PhysicalRecoveryEngine) (reader : Readable) (bytes_per_cluster : ℕ)
    (segments : List ForensicContentSegment) (size : Option ℕ) (whole : List ℕ)
    → size ≢ some u64_max
    → contents engine reader bytes_per_cluster segments ≡ ok whole
    → layout_loop engine reader bytes_per_cluster (target_of size) segments []
      ≡ ok (cut_to size whole)
sized_layout engine reader b segments none whole m e =
    layout_loop-all engine reader b segments [] whole e
sized_layout engine reader b segments (some n) whole m e =
    layout_loop-contents engine reader b n segments [] whole (λ p. m (ap some p)) (omega arith) e

pub nonzero_target : (size : Option ℕ) → size ≢ some 0 → (target_of size == 0) ≡ false
nonzero_target none h = refl
nonzero_target (some zero) h = absurd (h refl)
nonzero_target (some (suc n)) h = ground arith

module _ {T : Type 0} (calculate_sha256 : List ℕ → String) where
  pub logical_path :
      (engine : PhysicalRecoveryEngine) (reader : Readable) (entry : ForensicEntry T)
      (segments : List ForensicContentSegment) (bytes : List ℕ)
      → segments ≢ []
      → recover_logical_layout engine reader entry ≡ ok bytes
      → recover_segments calculate_sha256 engine reader entry segments
        ≡ ok (
            conclude calculate_sha256 entry
              (target_of entry.metadata.real_size)
              "Logical content"
              bytes)
  unfolding recover_segments plumbing
  logical_path engine reader entry [] bytes l e = absurd (l refl)
  logical_path engine reader entry (segment ∷ segments) bytes l e = rw e

  conclude-enough :
      (entry : ForensicEntry T) (target : ℕ) (what : String) (bytes : List ℕ)
      → ltb (length bytes) target ≡ false
      → conclude calculate_sha256 entry target what bytes
        ≡ recovered_result calculate_sha256 entry bytes entry.physical_location
  unfolding conclude
  conclude-enough entry target what bytes e = elim (Bool-cases (target == u64_max)) [
    | inl unknown ↦ rw unknown refl
    | inr known ↦ rw (known, e) refl
  ]

  -- For an entry with a logical layout whose segments can all be read, and whose size is not zero,
  -- recovery concludes with the described content cut to the size of the entry. A stated size of
  -- `u64::MAX` counts as unknown and is left out here.
  pub recover-contents :
      (engine : PhysicalRecoveryEngine) (reader : Readable) (entry : ForensicEntry T)
      (whole : List ℕ)
      → entry.metadata.real_size ≢ some 0
      → entry.metadata.real_size ≢ some u64_max
      → entry.content_layout.segments ≢ []
      → contents engine reader entry.content_layout.bytes_per_cluster entry.content_layout.segments
        ≡ ok whole
      → recover calculate_sha256 engine reader entry
        ≡ ok (
            conclude calculate_sha256 entry
              (target_of entry.metadata.real_size)
              "Logical content"
              (cut_to entry.metadata.real_size whole))
  unfolding recover recover_logical_layout
  recover-contents engine reader entry whole z m l e =
      rw (nonzero_target entry.metadata.real_size z) (
        logical_path engine reader entry entry.content_layout.segments _ l (
          sized_layout engine reader entry.content_layout.bytes_per_cluster
            entry.content_layout.segments entry.metadata.real_size whole m e))

  -- An entry of a known layout whose loop returns bytes enough.
  pub recover-layout :
      (engine : PhysicalRecoveryEngine) (reader : Readable) (entry : ForensicEntry T) (target : ℕ)
      (layout : ForensicContentLayout) (bytes : List ℕ)
      → entry.metadata.real_size ≡ some target
      → entry.content_layout ≡ layout
      → target ≢ 0
      → layout.segments ≢ []
      → layout_loop engine reader layout.bytes_per_cluster target layout.segments [] ≡ ok bytes
      → target ≤ length bytes
      → recover calculate_sha256 engine reader entry
        ≡ ok (recovered_result calculate_sha256 entry bytes entry.physical_location)
  unfolding recover recover_logical_layout conclude
  recover-layout engine reader entry target layout bytes s l z n e enough =
      let size : target_of entry.metadata.real_size ≡ target = ap target_of s in
      let nonzero = nonzero_target entry.metadata.real_size (λ p. z (cc (sym s ∙ p))) in
      let looped : recover_logical_layout engine reader entry ≡ ok bytes =
        ap
          (λ (shape : ForensicContentLayout).
            layout_loop engine reader shape.bytes_per_cluster (target_of entry.metadata.real_size)
              shape.segments [])
          l
        ∙ ap (λ t. layout_loop engine reader layout.bytes_per_cluster t layout.segments []) size
        ∙ e in
      let path =
        logical_path engine reader entry entry.content_layout.segments bytes
          (λ p. n (sym (ap (λ (shape : ForensicContentLayout). shape.segments) l) ∙ p)) looped in
      let short : ltb (length bytes) (target_of entry.metadata.real_size) ≡ false =
        ground (arith, size) in
      rw nonzero (path ∙ ap ok (conclude-enough entry _ "Logical content" bytes short))
