-- ===== src/Runner/Queue.antt =====
-- memmon_runner.py, the ticket queue: `tickets`, `take_ticket`, `drop_ticket` and `candidate`. The
-- files of queue/ are the list `Queue`; a ticket is live while its owner holds the file's lock, and
-- `free` says whether a resource's lock could be taken right now.
pub mod Turn
pub mod Numbers
use claude_memmon.Prelude.{
  ℕ, suc, ◌+◌, String, Bool, true, false, Option, none, some, List, [], ◌∷◌, ◌++◌, ◌&&◌, ◌||◌, not,
  ltb, leb, ◌==◌, str_eq, if◌then◌else◌, length, keep,
}

abbrev pub queue_max : ℕ
queue_max = 32

pub record Ticket : Type 0 where
  pub seq : ℕ
  pub run_id : String
  pub resource : String
  pub live : Bool

pub record Queue : Type 0 where
  pub files : List Ticket
  pub seq : Option ℕ

module _ (le : String → String → Bool) where
  -- Tickets compare by their number, and by their run id where two have the same one.
  unfoldable pub comes_first : Ticket → Ticket → Bool
  comes_first a b = ltb a.seq b.seq || a.seq == b.seq && le a.run_id b.run_id

  unfoldable pub insert_ticket : Ticket → List Ticket → List Ticket
  insert_ticket t [] = t ∷ []
  insert_ticket t (u ∷ us) = if comes_first t u then t ∷ u ∷ us else u ∷ insert_ticket t us

  unfoldable pub sort_tickets : List Ticket → List Ticket
  sort_tickets [] = []
  sort_tickets (t ∷ ts) = insert_ticket t (sort_tickets ts)

  -- The live tickets, oldest first.
  unfoldable pub tickets : Queue → List Ticket
  tickets q = sort_tickets (keep (λ t. t.live) q.files)

-- `_prune_tickets`
unfoldable pub prune_tickets : Queue → Queue
prune_tickets q = record q { files = keep (λ t. t.live) q.files }

-- The number behind the one in queue/seq; 1 where that file cannot be read.
unfoldable pub next_seq : Option ℕ → ℕ
next_seq none = 1
next_seq (some n) = n + 1

unfoldable pub enqueue : String → String → Queue → Queue
enqueue run_id resource q =
    let n = next_seq q.seq in
    record {
      files = q.files ++ record { seq = n; run_id = run_id; resource = resource; live = true } ∷ [];
      seq = some n;
    }

-- Prune, then refuse a full queue or publish a ticket. The Boolean is what `take_ticket` returns.
unfoldable pub take_ticket : String → String → Queue → Queue × Bool
take_ticket run_id resource q =
    let pruned = prune_tickets q in
    if leb queue_max (length pruned.files)
    then (pruned, false)
    else (enqueue run_id resource pruned, true)

unfoldable pub drop_ticket : String → Queue → Queue
drop_ticket run_id q = record q { files = keep (λ t. not (str_eq t.run_id run_id)) q.files }

-- The place, from `i` on, and the run id of the first ticket whose resource is free.
unfoldable pub first_free : (String → Bool) → ℕ → List Ticket → Option (ℕ × String)
first_free free i [] = none
first_free free i (t ∷ ts) =
    if free t.resource then some (i, t.run_id) else first_free free (suc i) ts

-- The candidate among the live tickets, which are also returned.
unfoldable pub candidate :
    (String → String → Bool) → (String → Bool) → Queue → Option (ℕ × String) × List Ticket
candidate le free q = let live = tickets le q in (first_free free 1 live, live)
