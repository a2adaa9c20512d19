-- ===== src/Runner/Queue/Turn.antt =====
-- Whose turn it is, and the bounds of the queue.
use claude_memmon.Prelude.{
  Memᴰ, refl, ℕ, suc, ◌≤◌, String, Bool, true, false, none, some, List, [], ◌∷◌, ◌≡◌, arith, All,
  ◌⊎◌, inl, inr, keep, Bool-cases,
}
use claude_memmon.Runner.Queue.{
  Ticket, Queue, comes_first, insert_ticket, sort_tickets, tickets, first_free, candidate,
}

-- `t` is not younger than any ticket of the list.
abbrev Oldest : Ticket → List Ticket → Type 0
Oldest t ts = All (λ u. t.seq ≤ u.seq) ts

abbrev Ordered : List Ticket → Type 0
Ordered [] = Unit
Ordered (t ∷ ts) = Oldest t ts × Ordered ts

module _ (le : String → String → Bool) where
  insert_ticket-All {ℓ} :
      (P : Ticket → Type ℓ) (t : Ticket) (ts : List Ticket)
      → P t
      → All P ts
      → All P (insert_ticket le t ts)
  unfolding insert_ticket
  insert_ticket-All P t [] h all = (h, tt)
  insert_ticket-All P t (u ∷ us) h (h', all) = elim (Bool-cases (comes_first le t u)) [
    | inl first ↦ rw first (h, (h', all))
    | inr later ↦ rw later (h', insert_ticket-All P t us h all)
  ]

  All-insert_ticket {ℓ} :
      (P : Ticket → Type ℓ) (t : Ticket) (ts : List Ticket)
      → All P (insert_ticket le t ts)
      → P t × All P ts
  unfolding insert_ticket
  All-insert_ticket P t [] all = (all.0, tt)
  All-insert_ticket P t (u ∷ us) all = elim (Bool-cases (comes_first le t u)) [
    | inl first ↦ let a = rw first at all in (a.0, a.1)
    | inr later ↦
        let a = rw later at all in let (h, rest) = All-insert_ticket P t us a.1 in (h, (a.0, rest))
  ]

  All-sort_tickets {ℓ} :
      (P : Ticket → Type ℓ) (ts : List Ticket) → All P (sort_tickets le ts) → All P ts
  unfolding sort_tickets
  All-sort_tickets P [] all = tt
  All-sort_tickets P (t ∷ ts) all =
      let (h, rest) = All-insert_ticket P t (sort_tickets le ts) all in
      (h, All-sort_tickets P ts rest)

  insert_ticket-Mem :
      (t u : Ticket) (ts : List Ticket) → Memᴰ t (insert_ticket le u ts) → Memᴰ t (u ∷ ts)
  unfolding insert_ticket
  insert_ticket-Mem t u [] m = m
  insert_ticket-Mem t u (v ∷ vs) m = elim (Bool-cases (comes_first le u v)) [
    | inl first ↦ rw first at m
    | inr later ↦ elim (rw later at m) [
      | Memᴰ.head e ↦ Memᴰ.tail (Memᴰ.head e)
      | Memᴰ.tail m' ↦ elim (insert_ticket-Mem t u vs m') [
        | Memᴰ.head e ↦ Memᴰ.head e
        | Memᴰ.tail m'' ↦ Memᴰ.tail (Memᴰ.tail m'')
      ]
    ]
  ]

  sort_tickets-Mem : (t : Ticket) (ts : List Ticket) → Memᴰ t (sort_tickets le ts) → Memᴰ t ts
  unfolding sort_tickets
  sort_tickets-Mem t [] m = m
  sort_tickets-Mem t (u ∷ us) m = elim (insert_ticket-Mem t u (sort_tickets le us) m) [
    | Memᴰ.head e ↦ Memᴰ.head e
    | Memᴰ.tail m' ↦ Memᴰ.tail (sort_tickets-Mem t us m')
  ]

  Oldest-trans : (t u : Ticket) (ts : List Ticket) → t.seq ≤ u.seq → Oldest u ts → Oldest t ts
  Oldest-trans t u [] h all = tt
  Oldest-trans t u (v ∷ vs) h (h', all) = (omega arith, Oldest-trans t u vs h all)

  first_le : (t u : Ticket) → comes_first le t u ≡ true → t.seq ≤ u.seq
  unfolding comes_first
  first_le t u h = ground arith

  later_le : (t u : Ticket) → comes_first le t u ≡ false → u.seq ≤ t.seq
  unfolding comes_first
  later_le t u h = ground arith

  insert_ticket-Ordered :
      (t : Ticket) (ts : List Ticket) → Ordered ts → Ordered (insert_ticket le t ts)
  unfolding insert_ticket
  insert_ticket-Ordered t [] o = (tt, tt)
  insert_ticket-Ordered t (u ∷ us) (old, o) = elim (Bool-cases (comes_first le t u)) [
    | inl first ↦
        let h : t.seq ≤ u.seq = first_le t u first in
        rw first ((h, Oldest-trans t u us h old), (old, o))
    | inr later ↦ rw later (
      insert_ticket-All (λ v. u.seq ≤ v.seq) t us (later_le t u later) old,
      insert_ticket-Ordered t us o,
    )
  ]

  sort_tickets-Ordered : (ts : List Ticket) → Ordered (sort_tickets le ts)
  unfolding sort_tickets
  sort_tickets-Ordered [] = tt
  sort_tickets-Ordered (t ∷ ts) =
      insert_ticket-Ordered t (sort_tickets le ts) (sort_tickets-Ordered ts)

  -- In an ordered list, the first ticket with a free resource is the oldest of those.
  first_free-oldest :
      (free : String → Bool) (i : ℕ) (ts : List Ticket) {place : ℕ} {id : String}
      → Ordered ts
      → first_free free i ts ≡ some (place, id)
      → (t : Ticket) × Memᴰ t ts
        × (t.run_id ≡ id)
        × (free t.resource ≡ true)
        × All (λ u. (free u.resource ≡ false) ⊎ (t.seq ≤ u.seq)) ts
  unfolding first_free
  first_free-oldest free i [] o h = absurd (ground arith)
  first_free-oldest free i (t ∷ ts) {place} {id} (old, o) h = elim (Bool-cases (free t.resource)) [
    | inl ready ↦
        (t, Memᴰ.head refl, ground arith, ready, (inr (omega arith), Oldest-free t ts old))
    | inr held ↦
        let (u, there, named, ready, oldest) = first_free-oldest free (suc i) ts o (rw held at h) in
        (u, Memᴰ.tail there, named, ready, (inl held, oldest))
  ]
    where
      Oldest-free :
          (t : Ticket) (ts : List Ticket)
          → Oldest t ts
          → All (λ u. (free u.resource ≡ false) ⊎ (t.seq ≤ u.seq)) ts
      Oldest-free t [] all = tt
      Oldest-free t (u ∷ us) (h, all) = (inr h, Oldest-free t us all)

  first_free-none :
      (free : String → Bool) (i : ℕ) (ts : List Ticket)
      → first_free free i ts ≡ none
      → All (λ u. free u.resource ≡ false) ts
  unfolding first_free
  first_free-none free i [] h = tt
  first_free-none free i (t ∷ ts) h = elim (Bool-cases (free t.resource)) [
    | inl ready ↦ absurd (ground arith)
    | inr held ↦ (held, first_free-none free (suc i) ts (rw held at h))
  ]

-- The candidate is the oldest live ticket whose resource is free: it is a live ticket of the queue,
-- its resource is free, and no live ticket with a free resource has a smaller number.
pub candidate-oldest :
    (le : String → String → Bool) (free : String → Bool) (q : Queue) {place : ℕ} {id : String}
    → (candidate le free q).0 ≡ some (place, id)
    → (t : Ticket) × Memᴰ t (keep (λ u. u.live) q.files)
      × (t.run_id ≡ id)
      × (free t.resource ≡ true)
      × All (λ u. (free u.resource ≡ false) ⊎ (t.seq ≤ u.seq)) (keep (λ u. u.live) q.files)
unfolding candidate tickets
candidate-oldest le free q h =
    let live = keep (λ (u : Ticket). u.live) q.files in
    let (t, there, named, ready, oldest) =
      first_free-oldest le free 1 (sort_tickets le live) (sort_tickets-Ordered le live) h in
    (
      t,
      sort_tickets-Mem le t live there,
      named,
      ready,
      All-sort_tickets le (λ u. (free u.resource ≡ false) ⊎ (t.seq ≤ u.seq)) live oldest,
    )

-- There is no candidate only while every live ticket waits for a resource that is held.
pub candidate-none :
    (le : String → String → Bool) (free : String → Bool) (q : Queue)
    → (candidate le free q).0 ≡ none
    → All (λ u. free u.resource ≡ false) (keep (λ u. u.live) q.files)
unfolding candidate tickets
candidate-none le free q h =
    let live = keep (λ (u : Ticket). u.live) q.files in
    All-sort_tickets le (λ u. free u.resource ≡ false) live
      (first_free-none le free 1 (sort_tickets le live) h)
