-- ===== src/Exfat/Investigation/Termination.antt =====
-- The walk over one directory of a volume: what it keeps of the queue and of the entries.
use Prim.Native.Nat.{max}
use forensis.Prelude.{
  All, All-append, Bool-cases, Holds, Holds-bind, Holds-fail_if, Holds-if, Holds-ok, Holds-weaken,
  List, Option, Result, [], arith, div_ceil, err, inl, inr, leb, length, length-append, ltb, not,
  ok, panic, refl, sym, ℕ, ◌&&◌, ◌++◌, ◌+◌, ◌<◌, ◌==◌, ◌^◌, ◌||◌, ◌∷◌, ◌≡◌, ◌⊎◌,
}
use forensis.Text.{Text}
use forensis.Fat32.Reader.{contains}
use forensis.Fat32.Reader.Distinct.{IsDistinct}
use forensis.Exfat.Boot.{cluster_size}
use forensis.Exfat.Directory.{ExfatDirectoryEntry, is_directory, is_volume_label, is_system}
use forensis.Exfat.Directory.Bounds.{IsSlotEntry, parse_exfat_entries-Holds}
use forensis.Exfat.InvestigationEntry.{ExfatInvestigationEntry}
use forensis.Exfat.Reader.{ExfatReader, read_directory_cluster}
use forensis.Exfat.Reader.Chain.{IsReady, walk_exfat_chain-Holds}
use forensis.Exfat.Reader.Read.{read_cluster-Holds}
use forensis.Source.{FillsBuffer}
use forensis.Exfat.Investigation.{
  ExfatInvestigation, Walk, unwrap_or_default, add_entry, increment_records, resolve_file_chain,
  enqueue, register_entry, register_entries, clusters_loop, walk_found, walk_directory,
  directory_entry,
}
use forensis.Exfat.Investigation.Numbering.{
  IsParent, IsPlaced, IsSound, HasDirectory, IsParent-append, add_entry-IsSound, find_entry-last,
  IsPlacedAt-move,
}

-- A default in place of an error does not panic where the computation did not.
Holds-unwrap_or_default :
    {P : List ℕ → Type 0} (chain : Result (List ℕ))
    → Holds P chain
    → Holds (λ _. Unit {0}) (unwrap_or_default chain)
unfolding unwrap_or_default
Holds-unwrap_or_default (ok values) h = Holds-ok _ tt
Holds-unwrap_or_default (err error) h = Holds-ok _ tt
Holds-unwrap_or_default panic h = absurd (h.no_panic refl)

read_directory_cluster-Holds :
    (reader : ExfatReader) (cluster : ℕ)
    → IsReady reader
    → Holds (FillsBuffer (cluster_size reader.boot)) (read_directory_cluster reader cluster)
unfolding read_directory_cluster
read_directory_cluster-Holds reader cluster r =
    Holds-fail_if _ _ _ λ _. read_cluster-Holds reader cluster (cluster_size reader.boot) r

-- Every cluster was enqueued once, and is still in the queue or was taken out of it.
pub record IsBounded {T : Type 0} (taken : ℕ) (walk : Walk T) : Type 0 where
  pub distinct : IsDistinct walk.visited_dirs
  pub small : All (λ cluster. cluster < 2 ^ 32) walk.visited_dirs
  pub queued_small : All (λ item. item.0 < 2 ^ 32) walk.queue
  pub balance : length walk.visited_dirs ≡ length walk.queue + taken

record IsGoing {T : Type 0} (taken parent : ℕ) (walk : Walk T) : Type 0 where
  sound : IsSound walk
  bounded : IsBounded taken walk
  parented : IsParent walk.investigation.entries parent

module _ {T : Type 0} (taken parent : ℕ) where
  -- An entry under the directory that is being walked.
  add_entry-IsGoing :
      (entry : ExfatInvestigationEntry T) (walk : Walk T)
      → IsGoing taken parent walk
      → entry.object_id ≡ walk.next_id
      → entry.parent_id ≡ parent
      → IsGoing taken parent (add_entry entry walk)
  unfolding add_entry
  add_entry-IsGoing entry walk g e p =
      let hung = IsParent-append walk.investigation.entries entry parent g.parented in
      record {
        sound = add_entry-IsSound entry walk g.sound e (
            IsPlacedAt-move (walk.investigation.entries ++ (entry ∷ [])) entry.object_id parent
              entry.parent_id (sym p)
              (hung.0, hung.1, inl (omega (arith, e, g.sound.next, g.parented.2))));
        bounded = record {
          distinct = g.bounded.distinct;
          small = g.bounded.small;
          queued_small = g.bounded.queued_small;
          balance = g.bounded.balance;
        };
        parented = hung;
      }

  enqueue-IsGoing :
      (parsed : ExfatDirectoryEntry T) (walk : Walk T)
      → IsSlotEntry parsed
      → IsGoing taken parent walk
      → IsGoing taken parent (enqueue parent parsed walk)
  unfolding enqueue
  enqueue-IsGoing parsed walk s g =
      elim (Bool-cases (leb 2 parsed.cluster && not (contains walk.visited_dirs parsed.cluster))) [
        | inr no_new ↦ rw no_new g
        | inl fresh ↦ rw fresh (record {
          sound = record {
            hierarchy = g.sound.hierarchy;
            next = g.sound.next;
            queued =
                All-append (λ (item : ℕ × ℕ × Text). IsParent walk.investigation.entries item.1)
                  walk.queue ((parsed.cluster, parent, parsed.name) ∷ []) g.sound.queued
                  (g.parented, tt);
          };
          bounded = record {
            distinct = (ground arith, g.bounded.distinct);
            small = (s.0, g.bounded.small);
            queued_small =
                All-append (λ (item : ℕ × ℕ × Text). item.0 < 2 ^ 32) walk.queue
                  ((parsed.cluster, parent, parsed.name) ∷ []) g.bounded.queued_small (s.0, tt);
            balance = omega (
              arith,
              g.bounded.balance,
              length-append walk.queue ((parsed.cluster, parent, parsed.name) ∷ []),
            );
          };
          parented = g.parented;
        })
      ]

  module _ (reader : ExfatReader) (r : IsReady reader) where
    resolve_file_chain-Holds :
        (investigation : ExfatInvestigation T) (parsed : ExfatDirectoryEntry T)
        → IsSlotEntry parsed
        → Holds (λ _. Unit {0}) (resolve_file_chain reader investigation parsed)
    unfolding resolve_file_chain
    resolve_file_chain-Holds investigation parsed s =
        Holds-if (ltb parsed.cluster 2 || parsed.size == 0) _ _ (λ _. Holds-ok _ tt)
          λ _. Holds-unwrap_or_default _ (
            walk_exfat_chain-Holds reader parsed.cluster
              (max (div_ceil parsed.size investigation.bytes_per_cluster) 1) r s.0)

    register_entry-IsGoing :
        (parsed : ExfatDirectoryEntry T) (walk : Walk T)
        → IsSlotEntry parsed
        → IsGoing taken parent walk
        → Holds (IsGoing taken parent) (register_entry reader parent parsed walk)
    unfolding register_entry
    register_entry-IsGoing parsed walk s g =
        Holds-if (is_volume_label parsed.kind) _ _
          (λ _. Holds-ok _ (add_entry-IsGoing _ walk g refl refl))
          (λ _.
            Holds-if (is_system parsed.kind) _ _
              (λ _. Holds-ok _ (add_entry-IsGoing _ walk g refl refl))
              (λ _.
                Holds-if (is_directory parsed.kind) _ _
                  (λ _. Holds-ok _ (enqueue-IsGoing parsed walk s g))
                  (λ _.
                    Holds-bind _ _ (resolve_file_chain-Holds walk.investigation parsed s)
                      λ chain _ _. Holds-ok _ (add_entry-IsGoing _ walk g refl refl))))

    register_entries-IsGoing :
        (entries : List (ExfatDirectoryEntry T)) (walk : Walk T)
        → All IsSlotEntry entries
        → IsGoing taken parent walk
        → Holds (IsGoing taken parent) (register_entries reader parent entries walk)
    unfolding register_entries
    register_entries-IsGoing [] walk s g = Holds-ok _ g
    register_entries-IsGoing (parsed ∷ entries) walk s g =
        Holds-bind _ _ (register_entry-IsGoing parsed walk s.0 g)
          λ next h _. register_entries-IsGoing entries next s.1 h

    clusters_loop-IsGoing :
        (date_time : ℕ → ℕ → ℕ → ℕ → ℕ → ℕ → Option T) (chain : List ℕ) (walk : Walk T)
        → IsGoing taken parent walk
        → Holds (IsGoing taken parent) (clusters_loop date_time reader parent chain walk)
    unfolding clusters_loop
    clusters_loop-IsGoing date_time [] walk g = Holds-ok _ g
    clusters_loop-IsGoing date_time (cluster ∷ chain) walk g =
        Holds-bind _ _ (read_directory_cluster-Holds reader cluster r) λ buffer b _.
          Holds-bind _ _ (parse_exfat_entries-Holds date_time buffer b.0) λ entries s _.
            Holds-bind _ _
              (register_entries-IsGoing entries (increment_records walk) s.0 (record {
                sound = record {
                  hierarchy = g.sound.hierarchy;
                  next = g.sound.next;
                  queued = g.sound.queued;
                };
                bounded = record {
                  distinct = g.bounded.distinct;
                  small = g.bounded.small;
                  queued_small = g.bounded.queued_small;
                  balance = g.bounded.balance;
                };
                parented = g.parented;
              }))
              λ next h _. clusters_loop-IsGoing date_time chain next h

-- Between two rounds of the loop over the queue.
pub record IsReadyWalk {T : Type 0} (taken : ℕ) (walk : Walk T) : Type 0 where
  pub sound : IsSound walk
  pub bounded : IsBounded taken walk

module _ {T : Type 0} (date_time : ℕ → ℕ → ℕ → ℕ → ℕ → ℕ → Option T) (reader : ExfatReader)
    (r : IsReady reader) where
  -- A directory that was taken out of the queue.
  walk_found-Holds :
      (taken cluster parent : ℕ) (name : Text) (chain : List ℕ) (walk : Walk T)
      → IsSound walk
      → IsBounded taken walk
      → IsParent walk.investigation.entries parent
        ⊎ ((parent ≡ 1) × (length walk.investigation.entries ≡ 0))
      → Holds (IsReadyWalk taken) (walk_found date_time reader cluster parent name chain walk)
  unfolding walk_found
  walk_found-Holds taken cluster parent name [] walk s b p =
      Holds-ok _ (record { sound = s; bounded = b })
  walk_found-Holds taken cluster parent name (first ∷ chain) walk s b p =
      let entry = directory_entry walk.next_id parent name cluster (first ∷ chain) in
      let entries = walk.investigation.entries in
      let grown = length-append entries (entry ∷ []) in
      let here : HasDirectory (entries ++ (entry ∷ [])) walk.next_id =
        (entry, find_entry-last 1 entries entry s.hierarchy.numbered s.next, refl, refl) in
      let place : IsPlaced (entries ++ (entry ∷ [])) entry = elim p [
        | inl known ↦
            let hung = IsParent-append entries entry parent known in
            (hung.0, hung.1, inl (omega (arith, s.next, known.2)))
        | inr root ↦
            let one : walk.next_id ≡ parent = omega (arith, s.next, root.0, root.1) in
            IsPlacedAt-move (entries ++ (entry ∷ [])) walk.next_id walk.next_id parent one (
              here,
              omega (arith, s.next),
              inr (omega (arith, s.next, root.1), omega (arith, s.next, root.1)),
            )
      ] in
      Holds-weaken _ (λ found g. record { sound = g.sound; bounded = g.bounded })
        (clusters_loop-IsGoing taken walk.next_id reader r date_time (first ∷ chain)
          (add_entry entry walk)
          (unfold add_entry in
            record {
              sound = add_entry-IsSound entry walk s refl place;
              bounded = record {
                distinct = b.distinct;
                small = b.small;
                queued_small = b.queued_small;
                balance = b.balance;
              };
              parented = (here, omega (arith, s.next), omega (arith, grown, s.next));
            }))

  pub walk_directory-Holds :
      (taken cluster parent : ℕ) (name : Text) (walk : Walk T)
      → cluster < 2 ^ 32
      → IsSound walk
      → IsBounded taken walk
      → IsParent walk.investigation.entries parent
        ⊎ ((parent ≡ 1) × (length walk.investigation.entries ≡ 0))
      → Holds (IsReadyWalk taken) (walk_directory date_time reader cluster parent name walk)
  unfolding walk_directory
  walk_directory-Holds taken cluster parent name walk small s b p =
      Holds-bind _ _ (walk_exfat_chain-Holds reader cluster reader.boot.cluster_count r small)
        λ chain _ _. walk_found-Holds taken cluster parent name chain walk s b p
