-- ===== src/Runner/Queue/Numbers.antt =====
-- The queue's bound and the numbers of its tickets.
use claude_memmon.Prelude.{
  ℕ, ◌≤◌, ◌<◌, String, Bool, true, false, Option, none, some, List, [], ◌∷◌, ◌++◌, ◌≡◌, refl, arith,
  All, ◌⊎◌, inl, inr, leb, str_eq, not, length, keep, Bool-cases, length-append,
}
use claude_memmon.Runner.Queue.{
  queue_max, Ticket, Queue, prune_tickets, next_seq, enqueue, take_ticket, drop_ticket,
}

-- No ticket has a number above the one in queue/seq.
abbrev pub Numbered : Option ℕ → List Ticket → Type 0
Numbered none ts = All (λ t. ⊥) ts
Numbered (some n) ts = All (λ t. t.seq ≤ n) ts

pub record IsQueue (q : Queue) : Type 0 where
  pub bounded : length q.files ≤ queue_max
  pub numbered : Numbered q.seq q.files

keep-All {ℓ} :
    (P : Ticket → Type ℓ) (p : Ticket → Bool) (ts : List Ticket) → All P ts → All P (keep p ts)
keep-All P p [] all = tt
keep-All P p (t ∷ ts) (h, all) = elim (Bool-cases (p t)) [
  | inl kept ↦ rw kept (h, keep-All P p ts all)
  | inr dropped ↦ rw dropped (keep-All P p ts all)
]

length-keep_le : (p : Ticket → Bool) (ts : List Ticket) → length (keep p ts) ≤ length ts
length-keep_le p [] = omega arith
length-keep_le p (t ∷ ts) = ground (arith, length-keep_le p ts)

keep-Numbered :
    (p : Ticket → Bool) (seq : Option ℕ) (ts : List Ticket)
    → Numbered seq ts
    → Numbered seq (keep p ts)
keep-Numbered p none ts = keep-All (λ t. ⊥) p ts
keep-Numbered p (some n) ts = keep-All (λ t. t.seq ≤ n) p ts

keep-IsQueue :
    (p : Ticket → Bool) (q : Queue) → IsQueue q → IsQueue (record q { files = keep p q.files })
keep-IsQueue p q v = record {
  bounded = omega (arith, length-keep_le p q.files, v.bounded);
  numbered = keep-Numbered p q.seq q.files v.numbered;
}

-- Dropping a ticket keeps the bound and the numbering.
pub drop_ticket-IsQueue : (id : String) (q : Queue) → IsQueue q → IsQueue (drop_ticket id q)
unfolding drop_ticket
drop_ticket-IsQueue id q v = keep-IsQueue (λ t. not (str_eq t.run_id id)) q v

below_next :
    (seq : Option ℕ) (ts : List Ticket) → Numbered seq ts → All (λ t. t.seq < next_seq seq) ts
unfolding next_seq
below_next none [] all = tt
below_next none (t ∷ ts) (h, all) = absurd h
below_next (some n) [] all = tt
below_next (some n) (t ∷ ts) (h, all) = (omega arith, below_next (some n) ts all)

snoc-Numbered :
    (n : ℕ) (t : Ticket) (ts : List Ticket)
    → t.seq ≤ n
    → All (λ u. u.seq < n) ts
    → All (λ u. u.seq ≤ n) (ts ++ t ∷ [])
snoc-Numbered n t [] h all = (h, tt)
snoc-Numbered n t (u ∷ us) h (h', all) = (omega arith, snoc-Numbered n t us h all)

enqueue-IsQueue :
    (id resource : String) (q : Queue)
    → IsQueue q
    → length q.files < queue_max
    → IsQueue (enqueue id resource q)
unfolding enqueue
enqueue-IsQueue id resource q v room =
    let n = next_seq q.seq in
    let t : Ticket = record { seq = n; run_id = id; resource = resource; live = true } in
    record {
      bounded = omega (arith, length-append q.files (t ∷ []));
      numbered = snoc-Numbered n t q.files (omega arith) (below_next q.seq q.files v.numbered);
    }

-- The ticket that a successful `take_ticket` publishes: live, last in the queue, and with a number
-- above those of all tickets before it.
pub record Published (id resource : String) (q : Queue) : Type 0 where
  pub earlier : List Ticket
  pub ticket : Ticket
  pub last : q.files ≡ earlier ++ ticket ∷ []
  pub named : ticket.run_id ≡ id
  pub youngest : All (λ t. t.seq < ticket.seq) earlier

enqueue-Published :
    (id resource : String) (q : Queue)
    → Numbered q.seq q.files
    → Published id resource (enqueue id resource q)
unfolding enqueue
enqueue-Published id resource q numbered = record {
  earlier = q.files;
  ticket = record { seq = next_seq q.seq; run_id = id; resource = resource; live = true };
  last = refl;
  named = refl;
  youngest = below_next q.seq q.files numbered;
}

-- Taking a ticket never lets the queue grow beyond 32 tickets and keeps every number at most the
-- one in queue/seq. It is refused exactly when 32 live tickets are queued. When it succeeds, the new
-- ticket is the last file and its number is above all others.
pub take_ticket-IsQueue :
    (id resource : String) (q : Queue)
    → IsQueue q
    → let (q', taken) = take_ticket id resource q in
      IsQueue q'
      × ((taken ≡ false) × (queue_max ≤ length (keep (λ t. t.live) q.files))
          ⊎ (taken ≡ true)
            × (length (keep (λ t. t.live) q.files) < queue_max)
            × Published id resource q')
unfolding take_ticket prune_tickets
take_ticket-IsQueue id resource q v =
    let pruned = record q { files = keep (λ t. t.live) q.files } in
    let v' = keep-IsQueue (λ t. t.live) q v in
    elim (Bool-cases (leb queue_max (length pruned.files))) [
      | inl full ↦ rw full (v', inl (refl, ground arith))
      | inr room ↦ rw room (
        enqueue-IsQueue id resource pruned v' (ground arith),
        inr (refl, ground arith, enqueue-Published id resource pruned v'.numbered),
      )
    ]
