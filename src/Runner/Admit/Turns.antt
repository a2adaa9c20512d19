-- ===== src/Runner/Admit/Turns.antt =====
-- How the wait for an admission ends.
use claude_memmon.Prelude.{
  Memᴰ, All, ◌≤◌, keep, str_eq, eq_iff, ◌∙◌, ℕ, ◌≡◌, ◌≢◌, String, Bool, true, false, Option, none,
  List, [], ◌∷◌, ◌⊎◌, inl, inr, refl, arith, Bool-cases, Option-cases, ◌&&◌, ◌||◌, not, leb,
}
use claude_memmon.Runner.Queue.Turn.{candidate-oldest}
use claude_memmon.Runner.Decide.Admits.{Admission, decide-Admission}
use claude_memmon.Runner.Queue.{Ticket, Queue, candidate, take_ticket, drop_ticket}
use claude_memmon.Runner.Decide.{HoldCause, decide}
use claude_memmon.Runner.Admit.{
  Entered, opened, too_late, interrupted, Pass, Files, Step, admitted, gave_up, waits, is_turn,
  no_turn, decided, section, pass, started, waiting, loop, admit_protect,
}

-- No ticket of the queue is the run's.
abbrev pub HasNone : String → Queue → Type 0
HasNone run_id q = All (λ t. str_eq t.run_id run_id ≡ false) q.files

-- A pass that admits the run: no signal had come, it is the first pass or its deadline had not
-- passed, the ledger's lock is held, the run has the oldest live ticket whose resource is free, it
-- has locked the resource, and the decision admits it for good reason. The files then have no
-- ticket of the run, and the state that the decision writes.
pub record Admits (le : String → String → Bool) (run_id : String) (hysteresis_s deadline : ℕ)
    (attempted : Bool) (files : Files) (p : Pass) : Type 0 where
  pub no_signal : p.cancelled ≡ none
  pub in_time : (attempted && leb deadline p.mono) ≡ false
  pub under_lock : p.ledger ≡ opened
  pub ticket : Ticket
  pub in_queue : Memᴰ ticket (keep (λ t. t.live) p.queue.files)
  pub own : ticket.run_id ≡ run_id
  pub ready : p.free ticket.resource ≡ true
  pub oldest :
      All
        (λ u. (p.free u.resource ≡ false) ⊎ (ticket.seq ≤ u.seq))
        (keep (λ t. t.live) p.queue.files)
  pub locked : p.locked ≡ true
  pub admission : Admission p.stored p.sensors run_id hysteresis_s p.estimate.bytes
  pub ticket_gone : HasNone run_id files.queue
  pub state_after : files.state ≡ (decide p.stored p.sensors run_id hysteresis_s p.estimate).2

keep-HasNone :
    (run_id : String) (ts : List Ticket)
    → All (λ t. str_eq t.run_id run_id ≡ false) (keep (λ t. not (str_eq t.run_id run_id)) ts)
keep-HasNone run_id [] = tt
keep-HasNone run_id (t ∷ ts) = elim (Bool-cases (str_eq t.run_id run_id)) [
  | inl own ↦ rw own (keep-HasNone run_id ts)
  | inr other ↦ rw other (other, keep-HasNone run_id ts)
]

drop_ticket-HasNone : (run_id : String) (q : Queue) → HasNone run_id (drop_ticket run_id q)
unfolding drop_ticket
drop_ticket-HasNone run_id q = keep-HasNone run_id q.files

-- The ticket of a run whose turn it is.
turn-Oldest :
    (le : String → String → Bool) (run_id : String) (p : Pass)
    → is_turn (candidate le p.free p.queue).0 run_id ≡ true
    → (t : Ticket) × Memᴰ t (keep (λ t. t.live) p.queue.files)
      × (t.run_id ≡ run_id)
      × (p.free t.resource ≡ true)
      × All (λ u. (p.free u.resource ≡ false) ⊎ (t.seq ≤ u.seq)) (keep (λ t. t.live) p.queue.files)
turn-Oldest le run_id p h = elim (Option-cases (candidate le p.free p.queue).0) [
  | inl nobody ↦ absurd (ground arith)
  | inr ((place, id), first) ↦
      let (t, there, named, ready, oldest) = candidate-oldest le p.free p.queue first in
      let same : id ≡ run_id = (eq_iff id run_id).0 (rw first at h) in
      (t, there, named ∙ same, ready, oldest)
]

-- One of the passes admits the run; `attempted` says whether there was a pass before.
pub data Admitting (le : String → String → Bool) (run_id : String) (hysteresis_s deadline : ℕ)
    (files : Files) : Bool → List Pass → Type 0 where
  now :
      {attempted : Bool} {p : Pass} {ps : List Pass}
      → Admits le run_id hysteresis_s deadline attempted files p
      → Admitting le run_id hysteresis_s deadline files attempted (p ∷ ps)
  after :
      {attempted : Bool} {p : Pass} {ps : List Pass}
      → Admitting le run_id hysteresis_s deadline files true ps
      → Admitting le run_id hysteresis_s deadline files attempted (p ∷ ps)

Entered-cases :
    (e : Entered) → (e ≡ opened) ⊎ ((e ≡ too_late) ⊎ ((sig : ℕ) × (e ≡ interrupted sig)))
Entered-cases opened = inl refl
Entered-cases too_late = inr (inl refl)
Entered-cases (interrupted sig) = inr (inr (sig, refl))

section-Admits :
    (le : String → String → Bool) (run_id : String) (hysteresis_s : ℕ) (cause : Option HoldCause)
    (p : Pass) (files : Files)
    → section le run_id hysteresis_s cause p ≡ admitted files
    → (is_turn (candidate le p.free p.queue).0 run_id ≡ true)
      × (p.locked ≡ true)
      × ((decide p.stored p.sensors run_id hysteresis_s p.estimate).0.admit ≡ true)
      × (files.queue ≡ drop_ticket run_id p.queue)
      × (files.state ≡ (decide p.stored p.sensors run_id hysteresis_s p.estimate).2)
unfolding section decided
section-Admits le run_id hysteresis_s cause p files h =
    let turn = (candidate le p.free p.queue).0 in
    let d = decide p.stored p.sensors run_id hysteresis_s p.estimate in
    elim (Bool-cases (is_turn turn run_id && p.locked)) [
      | inr other ↦
          elim (Bool-cases (no_turn turn || (is_turn turn run_id || not p.resource_free))) [
            | inl busy ↦ absurd (ground arith)
            | inr behind ↦ absurd (ground arith)
          ]
      | inl mine ↦ elim (Bool-cases d.0.admit) [
        | inr hold ↦ absurd (ground arith)
        | inl ok' ↦ (ground arith, ground arith, ok', ground arith, ground arith)
      ]
    ]

pass-Admits :
    (le : String → String → Bool) (run_id : String) (hysteresis_s deadline : ℕ) (attempted : Bool)
    (cause : Option HoldCause) (p : Pass) (files : Files)
    → pass le run_id hysteresis_s deadline attempted cause p ≡ admitted files
    → Admits le run_id hysteresis_s deadline attempted files p
unfolding pass
pass-Admits le run_id hysteresis_s deadline attempted cause p files h =
    elim (Option-cases p.cancelled) [
      | inr (sig, stopped) ↦ absurd (ground arith)
      | inl quiet ↦ elim (Bool-cases (attempted && leb deadline p.mono)) [
        | inl late ↦ absurd (ground arith)
        | inr early ↦ elim (Entered-cases p.ledger) [
          | inr (inl late) ↦ absurd (ground arith)
          | inr (inr (sig, stopped)) ↦ absurd (ground arith)
          | inl open' ↦
              let (turn, locked, admit, queue_after, state_after) =
                section-Admits le run_id hysteresis_s cause p files (ground arith) in
              let (t, there, own, ready, oldest) = turn-Oldest le run_id p turn in
              let gone : HasNone run_id files.queue =
                rw queue_after (drop_ticket-HasNone run_id p.queue) in
              record {
                no_signal = quiet;
                in_time = early;
                under_lock = open';
                ticket = t;
                in_queue = there;
                own = own;
                ready = ready;
                oldest = oldest;
                locked = locked;
                admission =
                    decide-Admission p.stored p.sensors run_id hysteresis_s p.estimate admit;
                ticket_gone = gone;
                state_after = state_after;
              }
        ]
      ]
    ]

Step-cases :
    (s : Step)
    → ((files : Files) × (s ≡ admitted files))
      ⊎ (((code : ℕ) × (s ≡ gave_up code)) ⊎ ((cause : Option HoldCause) × (s ≡ waits cause)))
Step-cases (admitted files) = inl (files, refl)
Step-cases (gave_up code) = inr (inl (code, refl))
Step-cases (waits cause) = inr (inr (cause, refl))

loop-Admitting :
    (le : String → String → Bool) (run_id : String) (hysteresis_s deadline : ℕ) (attempted : Bool)
    (cause : Option HoldCause) (ps : List Pass) (files : Files)
    → loop le run_id hysteresis_s deadline attempted cause ps ≡ started files
    → Admitting le run_id hysteresis_s deadline files attempted ps
unfolding loop
loop-Admitting le run_id hysteresis_s deadline attempted cause [] files h = absurd (ground arith)
loop-Admitting le run_id hysteresis_s deadline attempted cause (p ∷ ps) files h =
    elim (Step-cases (pass le run_id hysteresis_s deadline attempted cause p)) [
      | inl (found, eq) ↦
          let same : found ≡ files = ground arith in
          now (pass-Admits le run_id hysteresis_s deadline attempted cause p files (rw same at eq))
      | inr (inl (code, eq)) ↦ absurd (ground arith)
      | inr (inr (cause', eq)) ↦
          after (
            loop-Admitting le run_id hysteresis_s deadline true cause' ps files
              (rw (loop, eq) at h))
    ]

-- A run is started only by a pass that admits it: no signal had come, its deadline had not passed
-- or it was the first pass, and under the ledger's lock the run had the oldest live ticket
-- whose resource is free, held that resource, and was admitted: its estimate is within what is left
-- of the limit, on an accepted reading, the last bad sample older than the window. Then
-- no ticket of the queue is the run's.
pub admit_protect-Admitting :
    (le : String → String → Bool) (run_id res : String) (hysteresis_s deadline : ℕ)
    (ledger : Entered) (q : Queue) (ps : List Pass) (files : Files)
    → admit_protect le run_id res hysteresis_s deadline ledger q ps ≡ started files
    → ((take_ticket run_id res q).1 ≡ true)
      × Admitting le run_id hysteresis_s deadline files false ps
unfolding admit_protect
admit_protect-Admitting le run_id res hysteresis_s deadline too_late q ps files h =
    absurd (ground arith)
admit_protect-Admitting le run_id res hysteresis_s deadline (interrupted sig) q ps files h =
    absurd (ground arith)
admit_protect-Admitting le run_id res hysteresis_s deadline opened q ps files h =
    elim (Bool-cases (take_ticket run_id res q).1) [
      | inr full ↦ absurd (ground arith)
      | inl taken ↦
          (taken, loop-Admitting le run_id hysteresis_s deadline false none ps files (ground arith))
    ]

-- A pass that finds the deadline passed.
unfoldable pub is_over : ℕ → List Pass → Bool
is_over deadline [] = false
is_over deadline (p ∷ ps) = leb deadline p.mono || is_over deadline ps

pass-over :
    (le : String → String → Bool) (run_id : String) (hysteresis_s deadline : ℕ)
    (cause cause' : Option HoldCause) (p : Pass)
    → leb deadline p.mono ≡ true
    → pass le run_id hysteresis_s deadline true cause p ≢ waits cause'
unfolding pass
pass-over le run_id hysteresis_s deadline cause cause' p late h = elim (Option-cases p.cancelled) [
  | inr (sig, stopped) ↦ ground arith
  | inl quiet ↦ ground arith
]

loop-over :
    (le : String → String → Bool) (run_id : String) (hysteresis_s deadline : ℕ)
    (cause c : Option HoldCause) (ps : List Pass)
    → is_over deadline ps ≡ true
    → loop le run_id hysteresis_s deadline true cause ps ≢ waiting c
unfolding loop is_over
loop-over le run_id hysteresis_s deadline cause c [] over h = absurd (ground arith)
loop-over le run_id hysteresis_s deadline cause c (p ∷ ps) over h =
    elim (Step-cases (pass le run_id hysteresis_s deadline true cause p)) [
      | inl (files, eq) ↦ ground arith
      | inr (inl (code, eq)) ↦ ground arith
      | inr (inr (cause', eq)) ↦ elim (Bool-cases (leb deadline p.mono)) [
        | inl late ↦ pass-over le run_id hysteresis_s deadline cause cause' p late eq
        | inr early ↦
            loop-over le run_id hysteresis_s deadline cause' c ps (ground arith)
              (rw (loop, eq) at h)
      ]
    ]

-- A run does not wait for ever: once a pass after the first finds the deadline passed, it has been
-- started or has exited.
pub admit_protect_ends :
    (le : String → String → Bool) (run_id res : String) (hysteresis_s deadline : ℕ)
    (ledger : Entered) (q : Queue) (p : Pass) (ps : List Pass)
    → is_over deadline ps ≡ true
    → (c : Option HoldCause)
    → admit_protect le run_id res hysteresis_s deadline ledger q (p ∷ ps) ≢ waiting c
unfolding admit_protect loop
admit_protect_ends le run_id res hysteresis_s deadline too_late q p ps over c h = ground arith
admit_protect_ends le run_id res hysteresis_s deadline (interrupted sig) q p ps over c h =
    ground arith
admit_protect_ends le run_id res hysteresis_s deadline opened q p ps over c h =
    elim (Bool-cases (take_ticket run_id res q).1) [
      | inr full ↦ ground arith
      | inl taken ↦ elim (Step-cases (pass le run_id hysteresis_s deadline false none p)) [
        | inl (files, eq) ↦ ground arith
        | inr (inl (code, eq)) ↦ ground arith
        | inr (inr (cause', eq)) ↦
            loop-over le run_id hysteresis_s deadline cause' c ps over
              (rw (admit_protect, taken, loop, eq) at h)
      ]
    ]
