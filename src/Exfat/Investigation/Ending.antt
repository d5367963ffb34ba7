-- ===== src/Exfat/Investigation/Ending.antt =====
-- The walk over a volume ends, and what it found is a hierarchy.
use forensis.Prelude.{
  All, Holds, Holds-bind, Holds-ok, List, Option, [], ap, arith, inl, inr, length, refl, suc, zero,
  ℕ, ◌+◌, ◌<◌, ◌^◌, ◌∷◌, ◌≡◌, ◌≤◌,
}
use forensis.Text.{Text}
use forensis.Fat32.Reader.{contains}
use forensis.Fat32.Reader.Distinct.{length-le_of_distinct}
use forensis.Exfat.Reader.{ExfatReader}
use forensis.Exfat.Reader.Chain.{IsReady}
use forensis.Exfat.Investigation.{Walk, queue_loop, investigate_filesystem, first_walk}
use forensis.Exfat.Investigation.Numbering.{IsHierarchy, IsParent, IsSound}
use forensis.Exfat.Investigation.Termination.{IsBounded, walk_directory-Holds}

All-move {ℓ κ} : {A : Type ℓ} (P : A → Type κ) (xs ys : List A) → xs ≡ ys → All P xs → All P ys
All-move P xs ys e h = rw (← e) h

module _ {T : Type 0} where
  -- The walk with the queue behind the first item.
  popped-IsSound :
      (walk : Walk T) (item : ℕ × ℕ × Text) (queue : List (ℕ × ℕ × Text))
      → walk.queue ≡ item ∷ queue
      → IsSound walk
      → IsSound (record walk { queue = queue }) × IsParent walk.investigation.entries item.1
  popped-IsSound walk item queue e s =
      let all =
        All-move (λ (q : ℕ × ℕ × Text). IsParent walk.investigation.entries q.1) walk.queue
          (item ∷ queue) e s.queued in
      (record { hierarchy = s.hierarchy; next = s.next; queued = all.1 }, all.0)

  popped-IsBounded :
      (taken : ℕ) (walk : Walk T) (item : ℕ × ℕ × Text) (queue : List (ℕ × ℕ × Text))
      → walk.queue ≡ item ∷ queue
      → IsBounded taken walk
      → IsBounded (taken + 1) (record walk { queue = queue }) × (item.0 < 2 ^ 32)
  popped-IsBounded taken walk item queue e b =
      let all =
        All-move (λ (q : ℕ × ℕ × Text). q.0 < 2 ^ 32) walk.queue (item ∷ queue) e b.queued_small in
      let lengths : length walk.queue ≡ length (item ∷ queue) = ap length e in
      (
        record {
          distinct = b.distinct;
          small = b.small;
          queued_small = all.1;
          balance = omega (arith, b.balance, lengths);
        },
        all.0,
      )

  -- No more clusters are taken out of the queue than there are.
  taken_bound :
      (taken : ℕ) (walk : Walk T) → IsBounded taken walk → length walk.queue + taken ≤ 2 ^ 32
  taken_bound taken walk b =
      omega (arith, b.balance, length-le_of_distinct (2 ^ 32) walk.visited_dirs b.distinct b.small)

module _ {T : Type 0} (date_time : ℕ → ℕ → ℕ → ℕ → ℕ → ℕ → Option T) (reader : ExfatReader)
    (r : IsReady reader) where
  queue_loop-Holds :
      (fuel taken : ℕ) (queue : List (ℕ × ℕ × Text)) (walk : Walk T)
      → walk.queue ≡ queue
      → IsSound walk
      → IsBounded taken walk
      → 2 ^ 32 < fuel + taken
      → Holds
          (λ walked. IsHierarchy walked.investigation.entries)
          (queue_loop date_time reader fuel queue walk)
  unfolding queue_loop
  queue_loop-Holds fuel taken [] walk e s b f = Holds-ok _ s.hierarchy
  queue_loop-Holds zero taken (item ∷ queue) walk e s b f =
      absurd (omega (arith, taken_bound taken walk b))
  queue_loop-Holds (suc fuel) taken ((cluster, parent, name) ∷ queue) walk e s b f =
      let (s', p) = popped-IsSound walk (cluster, parent, name) queue e s in
      let (b', small) = popped-IsBounded taken walk (cluster, parent, name) queue e b in
      Holds-bind _ _
        (walk_directory-Holds date_time reader r (taken + 1) cluster parent name
          (record walk { queue = queue }) small s' b' (inl p))
        λ walked w _.
          queue_loop-Holds fuel (taken + 1) walked.queue walked refl w.sound w.bounded (omega arith)

  -- From a ready reader, with fuel for more rounds than there are numbers of 32 bits, the investigation
  -- of any volume ends, without a panic: with an error, or with entries whose identifiers count up from
  -- 1 and each of which, but the first, has a directory that came before it as its parent.
  pub investigate-IsHierarchy :
      (fuel : ℕ)
      → 2 ^ 32 < fuel
      → Holds
          (λ investigation. IsHierarchy investigation.entries)
          (investigate_filesystem date_time reader fuel)
  unfolding investigate_filesystem queue_loop
  investigate-IsHierarchy zero f = absurd (omega arith)
  investigate-IsHierarchy (suc fuel) f =
      let root : reader.boot.root_directory_cluster < 2 ^ 32 = r.layout.fields.root in
      Holds-bind _ _
        (Holds-bind _ _
          (walk_directory-Holds date_time reader r 1 reader.boot.root_directory_cluster 1
            (0x2f ∷ []) (record (first_walk date_time reader) { queue = [] }) root
            (record { hierarchy = record { numbered = tt; placed = tt }; next = refl; queued = tt })
            (record {
              distinct = unfold contains in (refl, tt);
              small = (root, tt);
              queued_small = tt;
              balance = refl;
            })
            (inr (refl, refl)))
          λ walked w _.
            queue_loop-Holds fuel 1 walked.queue walked refl w.sound w.bounded (omega arith))
        λ walked h _. Holds-ok _ h
