-- ===== src/Fat32/Investigation/Ending.antt =====
-- The walk over a volume ends, and every entry that was offered to it is counted.
use Prim.Native.Nat.{max}
use forensis.Prelude.{
  All, All-append, Bool-cases, Holds, Holds-bind, Holds-if, Holds-ok, Holds-weaken, List, Result,
  [], ap, arith, div_ceil, err, inl, inr, leb, length, length-append, ltb, not, ok, panic, refl,
  suc, zero, ℕ, ◌&&◌, ◌+◌, ◌-◌, ◌<◌, ◌==◌, ◌^◌, ◌||◌, ◌∷◌, ◌≡◌, ◌≤◌,
}
use forensis.Text.{Text}
use forensis.Fat32.Directory.{Fat32DirectoryEntry, is_directory, has_directory_markers}
use forensis.Fat32.Directory.Bounds.{IsSlotEntry, parse_directory_entries-Holds}
use forensis.Fat32.InvestigationEntry.{Fat32InvestigationEntry}
use forensis.Fat32.Reader.{Fat32Reader, contains}
use forensis.Fat32.Reader.Chain.{walk_chain-Holds}
use forensis.Fat32.Reader.Distinct.{IsDistinct, length-le_of_distinct}
use forensis.Fat32.Reader.Read.{read_directory_cluster-Holds}
use forensis.Fat32.Reader.Table.{IsReady}
use forensis.Fat32.Investigation.{
  Fat32Investigation, Walk, register, increment_records, chain_or_default, resolve_file_chain,
  is_volume_label, enqueue, register_entry, register_entries, clusters_loop, directory_chain,
  walk_found, walk_directory, queue_loop, first_walk, investigate_filesystem,
}
use forensis.Fat32.Investigation.Unique.{AreDistinct, IsUnique, add_entry-IsUnique}

-- Between two steps of the walk, when so many directories were taken out of the queue.
record IsGoing (taken : ℕ) (walk : Walk) : Type 0 where
  ready : IsReady walk.reader
  unique : IsUnique walk.investigation (walk.next_id - 1)
  low : 1 ≤ walk.next_id
  distinct : IsDistinct walk.visited_dirs
  small : All (λ cluster. cluster < 2 ^ 32) walk.visited_dirs
  queued_small : All (λ item. item.0 < 2 ^ 32) walk.queue
  balance : length walk.visited_dirs ≡ length walk.queue + taken

IsUnique-move :
    (investigation : Fat32Investigation) (m n : ℕ)
    → m ≡ n
    → IsUnique investigation m
    → IsUnique investigation n
IsUnique-move investigation m n e u = rw (← e) u

-- What a chain comes with: 32-bit clusters, and a ready reader.
abbrev IsRead : List ℕ × Fat32Reader → Type 0
IsRead found = All (λ cluster. cluster < 2 ^ 32) found.0 × IsReady found.1

Holds-chain_or_default :
    (reader : Fat32Reader) (walked : Result (List ℕ × Fat32Reader))
    → IsReady reader
    → Holds IsRead walked
    → Holds IsRead (chain_or_default reader walked)
unfolding chain_or_default
Holds-chain_or_default reader (ok found) r h = h
Holds-chain_or_default reader (err error) r h = Holds-ok _ (tt, r)
Holds-chain_or_default reader panic r h = absurd (h.no_panic refl)

resolve_file_chain-Holds :
    (reader : Fat32Reader) (investigation : Fat32Investigation) (parsed : Fat32DirectoryEntry)
    → IsReady reader
    → IsSlotEntry parsed
    → Holds IsRead (resolve_file_chain reader investigation parsed)
unfolding resolve_file_chain
resolve_file_chain-Holds reader investigation parsed r s =
    Holds-if (ltb parsed.cluster 2 || parsed.size == 0) _ _ (λ _. Holds-ok _ (tt, r))
      λ _. Holds-chain_or_default reader _ r (
        Holds-weaken _ (λ found w. (w.3, w.4))
          (walk_chain-Holds reader parsed.cluster
            (max (div_ceil parsed.size investigation.bytes_per_cluster) 1) r s.0))

directory_chain-Holds :
    (reader : Fat32Reader) (cluster : ℕ)
    → IsReady reader
    → cluster < 2 ^ 32
    → Holds IsRead (directory_chain reader cluster)
unfolding directory_chain
directory_chain-Holds reader cluster r small =
    let walked =
      Holds-weaken {P = IsRead} _ (λ found w. (w.3, w.4))
        (walk_chain-Holds reader cluster reader.boot.total_clusters r small) in
    Holds-if (ltb cluster 2 || ltb reader.boot.total_clusters cluster) _ _ (λ _. Holds-ok _ (tt, r))
      λ _.
        Holds-if (cluster == reader.boot.root_cluster) _ _ (λ _. walked)
          λ _.
            Holds-bind _ _ (read_directory_cluster-Holds reader cluster r small).1
              λ first_cluster _ _.
                Holds-if (has_directory_markers first_cluster) _ _ (λ _. walked)
                  λ _. Holds-ok _ (tt, r)

module _ (taken : ℕ) where
  register-IsGoing :
      (entry : Fat32InvestigationEntry) (walk : Walk)
      → IsGoing taken walk
      → IsGoing taken (register entry walk)
  unfolding register
  register-IsGoing entry walk g = record {
    ready = g.ready;
    unique =
        IsUnique-move _ (walk.next_id - 1 + 1) (walk.next_id + 1 - 1) (omega (arith, g.low))
          (add_entry-IsUnique entry walk.investigation (walk.next_id - 1) g.unique);
    low = omega arith;
    distinct = g.distinct;
    small = g.small;
    queued_small = g.queued_small;
    balance = g.balance;
  }

  with_reader :
      (walk : Walk) (reader : Fat32Reader)
      → IsGoing taken walk
      → IsReady reader
      → IsGoing taken (record walk { reader = reader })
  with_reader walk reader g r = record {
    ready = r;
    unique = g.unique;
    low = g.low;
    distinct = g.distinct;
    small = g.small;
    queued_small = g.queued_small;
    balance = g.balance;
  }

  enqueue-IsGoing :
      (parent_id : ℕ) (parsed : Fat32DirectoryEntry) (walk : Walk)
      → IsSlotEntry parsed
      → IsGoing taken walk
      → IsGoing taken (enqueue parent_id parsed walk)
  unfolding enqueue
  enqueue-IsGoing parent_id parsed walk s g =
      elim (Bool-cases (leb 2 parsed.cluster && not (contains walk.visited_dirs parsed.cluster))) [
        | inr no_new ↦ rw no_new g
        | inl fresh ↦ rw fresh (record {
          ready = g.ready;
          unique = g.unique;
          low = g.low;
          distinct = (ground arith, g.distinct);
          small = (s.0, g.small);
          queued_small =
              All-append (λ (item : ℕ × ℕ × Text). item.0 < 2 ^ 32) walk.queue
                ((parsed.cluster, parent_id, parsed.name) ∷ []) g.queued_small (s.0, tt);
          balance = omega (
            arith,
            g.balance,
            length-append walk.queue ((parsed.cluster, parent_id, parsed.name) ∷ []),
          );
        })
      ]

  register_entry-IsGoing :
      (parent_id : ℕ) (parsed : Fat32DirectoryEntry) (walk : Walk)
      → IsSlotEntry parsed
      → IsGoing taken walk
      → Holds (IsGoing taken) (register_entry parent_id parsed walk)
  unfolding register_entry
  register_entry-IsGoing parent_id parsed walk s g =
      Holds-if (is_volume_label parsed) _ _ (λ _. Holds-ok _ (register-IsGoing _ walk g))
        λ _.
          Holds-if (is_directory parsed) _ _
            (λ _. Holds-ok _ (enqueue-IsGoing parent_id parsed walk s g))
            λ _.
              Holds-bind _ _
                (resolve_file_chain-Holds walk.reader walk.investigation parsed g.ready s)
                λ found h _. Holds-ok _ (
                  register-IsGoing _ (record walk { reader = found.1 })
                    (with_reader walk found.1 g h.1))

  register_entries-IsGoing :
      (parent_id : ℕ) (entries : List Fat32DirectoryEntry) (walk : Walk)
      → All IsSlotEntry entries
      → IsGoing taken walk
      → Holds (IsGoing taken) (register_entries parent_id entries walk)
  unfolding register_entries
  register_entries-IsGoing parent_id [] walk s g = Holds-ok _ g
  register_entries-IsGoing parent_id (parsed ∷ entries) walk s g =
      Holds-bind _ _ (register_entry-IsGoing parent_id parsed walk s.0 g)
        λ next h _. register_entries-IsGoing parent_id entries next s.1 h

  increment_records-IsGoing :
      (walk : Walk) → IsGoing taken walk → IsGoing taken (increment_records walk)
  increment_records-IsGoing walk g = record {
    ready = g.ready;
    unique = record {
      distinct = g.unique.distinct;
      known = g.unique.known;
      counted = g.unique.counted;
    };
    low = g.low;
    distinct = g.distinct;
    small = g.small;
    queued_small = g.queued_small;
    balance = g.balance;
  }

  clusters_loop-IsGoing :
      (object_id : ℕ) (chain : List ℕ) (walk : Walk)
      → All (λ cluster. cluster < 2 ^ 32) chain
      → IsGoing taken walk
      → Holds (IsGoing taken) (clusters_loop object_id chain walk)
  unfolding clusters_loop
  clusters_loop-IsGoing object_id [] walk small g = Holds-ok _ g
  clusters_loop-IsGoing object_id (cluster ∷ chain) walk small g =
      Holds-bind _ _ (read_directory_cluster-Holds walk.reader cluster g.ready small.0).1
        λ buffer b _. Holds-bind _ _ (parse_directory_entries-Holds buffer b.0) λ entries s _.
          Holds-bind _ _
            (register_entries-IsGoing object_id entries (increment_records walk) s.0
              (increment_records-IsGoing walk g))
            λ next h _. clusters_loop-IsGoing object_id chain next small.1 h

  walk_found-IsGoing :
      (cluster parent_id : ℕ) (name : Text) (chain : List ℕ) (walk : Walk)
      → All (λ cluster. cluster < 2 ^ 32) chain
      → IsGoing taken walk
      → Holds (IsGoing taken) (walk_found cluster parent_id name chain walk)
  unfolding walk_found
  walk_found-IsGoing cluster parent_id name [] walk small g = Holds-ok _ g
  walk_found-IsGoing cluster parent_id name (first ∷ chain) walk small g =
      clusters_loop-IsGoing walk.next_id (first ∷ chain) _ small (register-IsGoing _ walk g)

  walk_directory-IsGoing :
      (cluster parent_id : ℕ) (name : Text) (walk : Walk)
      → cluster < 2 ^ 32
      → IsGoing taken walk
      → Holds (IsGoing taken) (walk_directory cluster parent_id name walk)
  unfolding walk_directory
  walk_directory-IsGoing cluster parent_id name walk small g =
      Holds-bind _ _ (directory_chain-Holds walk.reader cluster g.ready small) λ found h _.
        walk_found-IsGoing cluster parent_id name found.0 (record walk { reader = found.1 }) h.0
          (with_reader walk found.1 g h.1)

All-move {ℓ κ} : {A : Type ℓ} (P : A → Type κ) (xs ys : List A) → xs ≡ ys → All P xs → All P ys
All-move P xs ys e h = rw (← e) h

-- The walk with the queue behind the first item.
popped-IsGoing :
    (taken : ℕ) (walk : Walk) (item : ℕ × ℕ × Text) (queue : List (ℕ × ℕ × Text))
    → walk.queue ≡ item ∷ queue
    → IsGoing taken walk
    → IsGoing (taken + 1) (record walk { queue = queue }) × (item.0 < 2 ^ 32)
popped-IsGoing taken walk item queue e g =
    let all =
      All-move (λ (q : ℕ × ℕ × Text). q.0 < 2 ^ 32) walk.queue (item ∷ queue) e g.queued_small in
    let lengths : length walk.queue ≡ length (item ∷ queue) = ap length e in
    (
      record {
        ready = g.ready;
        unique = g.unique;
        low = g.low;
        distinct = g.distinct;
        small = g.small;
        queued_small = all.1;
        balance = omega (arith, g.balance, lengths);
      },
      all.0,
    )

-- What the walk found: entries that differ in parent or name, and the number of all that were
-- offered, each of which has taken an identifier.
abbrev IsAccounted : Walk → Type 0
IsAccounted walk = IsUnique walk.investigation (walk.next_id - 1)

queue_loop-IsAccounted :
    (fuel taken : ℕ) (queue : List (ℕ × ℕ × Text)) (walk : Walk)
    → walk.queue ≡ queue
    → IsGoing taken walk
    → 2 ^ 32 ≤ fuel + taken
    → Holds IsAccounted (queue_loop fuel queue walk)
unfolding queue_loop
queue_loop-IsAccounted fuel taken [] walk e g f = Holds-ok _ g.unique
queue_loop-IsAccounted zero taken (item ∷ queue) walk e g f =
    let lengths : length walk.queue ≡ length (item ∷ queue) = ap length e in
    absurd (
      omega (
        arith,
        lengths,
        g.balance,
        length-le_of_distinct (2 ^ 32) walk.visited_dirs g.distinct g.small,
      ))
queue_loop-IsAccounted (suc fuel) taken ((cluster, parent_id, name) ∷ queue) walk e g f =
    let (popped, small) = popped-IsGoing taken walk (cluster, parent_id, name) queue e g in
    Holds-bind _ _
      (walk_directory-IsGoing (taken + 1) cluster parent_id name (record walk { queue = queue })
        small popped)
      λ walked w _. queue_loop-IsAccounted fuel (taken + 1) walked.queue walked refl w (omega arith)

-- From a ready reader, with fuel for as many rounds as there are numbers of 32 bits, the investigation
-- of any FAT32 volume ends, without a panic: with an error, or with entries no two of which have
-- both the parent and the name in common.
pub investigate-AreDistinct :
    (reader : Fat32Reader) (fuel : ℕ)
    → IsReady reader
    → 2 ^ 32 ≤ fuel
    → Holds
        (λ investigation. AreDistinct investigation.entries)
        (investigate_filesystem reader fuel)
unfolding investigate_filesystem
investigate-AreDistinct reader fuel r f =
    Holds-bind _ _
      (queue_loop-IsAccounted fuel 0 (first_walk reader).queue (first_walk reader) refl
        (record {
          ready = r;
          unique = record { distinct = tt; known = tt; counted = refl };
          low = omega arith;
          distinct = unfold contains in (refl, tt);
          small = (r.geometry.root_high, tt);
          queued_small = (r.geometry.root_high, tt);
          balance = refl;
        })
        (omega arith))
      λ walked h _. Holds-ok _ h.distinct
