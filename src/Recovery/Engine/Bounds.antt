-- ===== src/Recovery/Engine/Bounds.antt =====
-- The recovery engine neither panics nor reads past the evidence, and a recovered object of known
-- size has that size.
use forensis.Prelude.{
  All, All-append, All-replicate, All-take, Bool, Bool-cases, Holds, Holds-add, Holds-bind,
  Holds-fail_if, Holds-if, Holds-ok, Holds-ok_or, Holds-some, Holds-weaken, IsByte, List, Option,
  String, [], arith, false, if◌then◌else◌, inl, inr, leb, length, length-append, length-take, ltb,
  min, none, not, refl, some, take, true, u64_max, u64_mod, ℕ, ◌&&◌, ◌++◌, ◌-◌, ◌<◌, ◌==◌, ◌∷◌, ◌≡◌,
  ◌≢◌, ◌≤◌,
}
use forensis.Bytes.{AreBytes}
use forensis.Source.{Readable, FillsBuffer, IsTotalWithin}
use forensis.Forensic.Model.{
  ForensicEntry, ForensicPhysicalRegion, ForensicContentSegment, ForensicContentSource, physical,
  sparse, inline, range_count, sector_count,
}
use forensis.Recovery.Engine.{
  PhysicalRecoveryEngine, RecoveryResult, region_size, read_region, segment_size, read_source,
  read_content_segment, truncate, layout_loop, target_of, recover_logical_layout, regions_loop,
  recovered_result, failed_result, conclude, recover_regions, recover_segments, recover,
}

-- A region that ends before the last sector number of a `u64`, so that its length can be counted.
abbrev EndsBelow : Option ℕ → Type 0
EndsBelow none = Unit
EndsBelow (some e) = e < u64_max

abbrev pub RegionFits : ForensicPhysicalRegion → Type 0
RegionFits region = EndsBelow region.sector_end

abbrev pub SourceFits : ForensicContentSource → Type 0
SourceFits (physical region) = RegionFits region
SourceFits sparse = Unit
SourceFits (inline bytes) = AreBytes bytes

abbrev pub EntryFits : {T : Type 0} → ForensicEntry T → Type 0
EntryFits entry =
    All RegionFits entry.physical_location.regions
    × All (λ s. SourceFits s.source) entry.content_layout.segments

range_count-Holds :
    (start end : Option ℕ) → EndsBelow end → Holds (λ _. Unit) (range_count start end)
unfolding range_count
range_count-Holds (some start) (some end) h =
    Holds-if (leb start end) _ _
      (λ ordered.
        Holds-bind _ _ (Holds-add u64_mod (end - start) 1 (ground arith)) (λ n _ _. Holds-ok _ tt))
      (λ _. Holds-ok _ tt)
range_count-Holds (some start) none h = Holds-ok _ tt
range_count-Holds none _ h = Holds-ok _ tt

region_size-Holds :
    (engine : PhysicalRecoveryEngine) (region : ForensicPhysicalRegion)
    → RegionFits region
    → Holds (λ _. Unit) (region_size engine region)
unfolding region_size sector_count
region_size-Holds engine region h =
    Holds-bind _ _ (range_count-Holds region.sector_start region.sector_end h)
      λ n _ _. Holds-ok _ tt

-- A region is read only where it lies within the evidence.
read_region-Holds :
    (engine : PhysicalRecoveryEngine) (reader : Readable) (region : ForensicPhysicalRegion) (n : ℕ)
    → IsTotalWithin reader
    → RegionFits region
    → Holds (FillsBuffer n) (read_region engine reader region n)
unfolding read_region
read_region-Holds engine reader region n t h = Holds-ok_or _ _ _ λ offset _.
    Holds-bind _ _ (region_size-Holds engine region h) λ found _ _. Holds-ok_or _ _ _ λ size _.
      Holds-fail_if _ _ _ λ _. Holds-ok_or _ _ _ λ end e. Holds-fail_if _ _ _ λ inside.
        Holds-if (n == 0) _ _ (λ z. Holds-ok _ (tt, ground arith))
          λ _. t.fills offset n (ground arith)

segment_size-Holds :
    (segment : ForensicContentSegment) (bytes_per_cluster : ℕ)
    → Holds (λ _. Unit) (segment_size segment bytes_per_cluster)
unfolding segment_size
segment_size-Holds segment b = Holds-fail_if _ _ _ λ _. Holds-some _ _ λ n _. tt

clip-AreBytes :
    (b : Bool) (n : ℕ) (bytes : List ℕ)
    → AreBytes bytes
    → AreBytes (if b then take n bytes else bytes)
clip-AreBytes true n bytes h = All-take IsByte n bytes h
clip-AreBytes false n bytes h = h

length-clip :
    (n : ℕ) (bytes : List ℕ) → length (if ltb n (length bytes) then take n bytes else bytes) ≤ n
length-clip n bytes = ground (arith, length-take n bytes)

-- What was gathered is bytes, and never more than a known target.
abbrev Within : ℕ → List ℕ → Type 0
Within target bytes = AreBytes bytes × (target ≢ u64_max → length bytes ≤ target)

module _ (engine : PhysicalRecoveryEngine) (reader : Readable) (t : IsTotalWithin reader)
    (bytes_per_cluster : ℕ) where
  read_source-Holds :
      (segment : ForensicContentSegment) (source : ForensicContentSource)
      → SourceFits source
      → Holds AreBytes (read_source engine reader bytes_per_cluster segment source)
  unfolding read_source
  read_source-Holds segment (inline bytes) h = Holds-ok _ h
  read_source-Holds segment (physical region) h =
      Holds-bind _ _ (segment_size-Holds segment bytes_per_cluster) λ size _ _.
        Holds-weaken _ (λ bytes f. f.0) (read_region-Holds engine reader region size t h)
  read_source-Holds segment sparse h =
      Holds-bind _ _ (segment_size-Holds segment bytes_per_cluster)
        λ size _ _. Holds-ok _ (All-replicate IsByte size 0 (omega arith))

  truncate-Holds :
      (target : ℕ) (gathered bytes : List ℕ)
      → Within target gathered
      → AreBytes bytes
      → Holds (λ kept. Within target (gathered ++ kept)) (truncate target (length gathered) bytes)
  unfolding truncate
  truncate-Holds target gathered bytes w b =
      Holds-if (target == u64_max) _ _
        (λ unknown.
          Holds-ok _ (All-append IsByte gathered bytes w.0 b, λ n. absurd (n (ground arith))))
        (λ known. Holds-ok_or _ _ _ λ remaining r.
          let kept = if ltb remaining (length bytes) then take remaining bytes else bytes in
          Holds-ok _ (
            All-append IsByte gathered kept w.0
                (clip-AreBytes (ltb remaining (length bytes)) remaining bytes b),
            λ n. ground (arith, length-append gathered kept, length-clip remaining bytes, w.1 n),
          ))

  layout_loop-Holds :
      (target : ℕ) (segments : List ForensicContentSegment) (gathered : List ℕ)
      → All (λ s. SourceFits s.source) segments
      → Within target gathered
      → Holds (Within target) (layout_loop engine reader bytes_per_cluster target segments gathered)
  unfolding layout_loop read_content_segment
  layout_loop-Holds target [] gathered h w = Holds-ok _ w
  layout_loop-Holds target (segment ∷ segments) gathered h w =
      Holds-if (not (target == u64_max) && leb target (length gathered)) _ _
        (λ enough. Holds-ok _ w)
        (λ _. Holds-bind _ _ (read_source-Holds segment segment.source h.0) λ bytes b _.
          Holds-bind _ _ (truncate-Holds target gathered bytes w b)
            λ kept k _. layout_loop-Holds target segments (gathered ++ kept) h.1 k)

  regions_loop-Holds :
      (target : ℕ) (regions : List ForensicPhysicalRegion) (gathered : List ℕ)
      → All RegionFits regions
      → AreBytes gathered × (length gathered ≤ target)
      → Holds
          (λ bytes. AreBytes bytes × (length bytes ≤ target))
          (regions_loop engine reader target regions gathered)
  unfolding regions_loop
  regions_loop-Holds target [] gathered h w = Holds-ok _ w
  regions_loop-Holds target (region ∷ regions) gathered h w =
      Holds-if (leb target (length gathered)) _ _ (λ enough. Holds-ok _ w)
        λ _. Holds-bind _ _ (region_size-Holds engine region h.0) λ found _ _.
          Holds-ok_or _ _ _ λ available _. Holds-ok_or _ _ _ λ remaining r.
            Holds-bind _ _ (read_region-Holds engine reader region (min available remaining) t h.0)
              λ bytes f _. regions_loop-Holds target regions (gathered ++ bytes) h.1 (
                All-append IsByte gathered bytes w.0 f.0,
                ground (arith, length-append gathered bytes),
              )

-- A failure carries no content, and a success has the size that the entry states, if it does.
abbrev pub ContentFits : ℕ → Bool → Option (List ℕ) → Type 0
ContentFits target recovered none = recovered ≡ false
ContentFits target recovered (some bytes) =
    (recovered ≡ true) × AreBytes bytes × (target ≢ u64_max → length bytes ≡ target)

pub record IsOutcome {T : Type 0} (entry : ForensicEntry T) (result : RecoveryResult T)
    : Type 0 where
  pub same_entry : result.entry ≡ entry
  pub content : ContentFits (target_of entry.metadata.real_size) result.recovered result.content

module _ {T : Type 0} (calculate_sha256 : List ℕ → String) where
  conclude-IsOutcome :
      (entry : ForensicEntry T) (what : String) (bytes : List ℕ)
      → Within (target_of entry.metadata.real_size) bytes
      → IsOutcome entry
          (conclude calculate_sha256 entry (target_of entry.metadata.real_size) what bytes)
  unfolding conclude recovered_result failed_result
  conclude-IsOutcome entry what bytes w =
      let target = target_of entry.metadata.real_size in
      elim (Bool-cases (not (target == u64_max) && ltb (length bytes) target)) [
        | inl short ↦ rw short (record { same_entry = refl; content = refl })
        | inr enough ↦
            rw enough
              (record { same_entry = refl; content = (refl, w.0, λ n. ground (arith, w.1 n)) })
      ]

  module _ (engine : PhysicalRecoveryEngine) (reader : Readable) (t : IsTotalWithin reader)
      (entry : ForensicEntry T) (f : EntryFits entry) where
    recover_regions-Holds :
        (regions : List ForensicPhysicalRegion)
        → All RegionFits regions
        → Holds (IsOutcome entry) (recover_regions calculate_sha256 engine reader entry regions)
    unfolding recover_regions failed_result
    recover_regions-Holds [] h = Holds-ok _ (record { same_entry = refl; content = refl })
    recover_regions-Holds (region ∷ regions) h =
        Holds-bind _ _
          (regions_loop-Holds engine reader t 0 (target_of entry.metadata.real_size)
            (region ∷ regions) [] h (tt, omega arith))
          λ bytes w _. Holds-ok _ (conclude-IsOutcome entry _ bytes (w.0, λ n. w.1))

    recover_segments-Holds :
        (segments : List ForensicContentSegment)
        → Holds (IsOutcome entry) (recover_segments calculate_sha256 engine reader entry segments)
    unfolding recover_segments recover_logical_layout
    recover_segments-Holds [] = recover_regions-Holds entry.physical_location.regions f.0
    recover_segments-Holds (segment ∷ segments) =
        Holds-bind _ _
          (layout_loop-Holds engine reader t entry.content_layout.bytes_per_cluster
            (target_of entry.metadata.real_size) entry.content_layout.segments [] f.1
            (tt, λ n. omega arith))
          λ bytes w _. Holds-ok _ (conclude-IsOutcome entry _ bytes w)

    -- From a reader that need only serve reads within the evidence, and for an entry whose regions
    -- can be counted and whose inline bytes are bytes, recovery never panics: it fails with an error,
    -- or with a result without content, or returns content of the stated size, where one is stated.
    pub recover-Holds : Holds (IsOutcome entry) (recover calculate_sha256 engine reader entry)
    unfolding recover recovered_result
    recover-Holds =
        Holds-if (target_of entry.metadata.real_size == 0) _ _
          (λ empty.
            Holds-ok _ (record { same_entry = refl; content = (refl, tt, λ n. ground arith) }))
          (λ _. recover_segments-Holds entry.content_layout.segments)
