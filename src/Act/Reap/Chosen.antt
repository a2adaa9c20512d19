-- ===== src/Act/Reap/Chosen.antt =====
-- What a reap chooses and signals.
use claude_memmon.Prelude.{
  Memᴰ, ℕ, suc, ◌≡◌, ◌≢◌, Bool, true, false, none, some, List, [], ◌∷◌, inl, inr, refl, arith, All,
  Bool-cases, Option-cases, ◌&&◌, not, ◌==◌, contains,
}
use claude_memmon.Procs.Walk.{Proc, find}
use claude_memmon.Act.Engine.{Sent, World, Engine, later, self_tree}
use claude_memmon.Act.Engine.Quiet.{self_tree-quiet}
use claude_memmon.Act.Watch.Lawful.{LawfulStop, Since}
use claude_memmon.Act.Engine.Clock.{Advances}
use claude_memmon.Act.Report.{Request}
use claude_memmon.Act.Entry.{is_orphan}
use claude_memmon.Act.Process.Cleared.{graceful-LawfulStop, LawfulStop-earlier, Since-quiet}
use claude_memmon.Act.Reap.{
  ReapTarget, Reason, no_fuel, reason_of, start_changed, live_row, choose, top_of, none_chosen,
  is_nil, reap_request, reap_once, reap,
}

-- A chosen process: one of the list, with the start it had there where one was given, alive and
-- visible, the user's own, neither pid 1 nor of memmon's own tree, owned by nobody known, and
-- still selected.
pub record Fit (w : World) (still_selected : List Proc → ℕ → Bool) (inv : List Proc) (mine : List ℕ)
    (targets : List ReapTarget) (pid : ℕ) : Type 0 where
  pub row : Proc
  pub given : ReapTarget
  pub listed : Memᴰ given targets
  pub given_pid : given.pid ≡ pid
  pub found : find pid inv ≡ some row
  pub alive : row.zombie ≡ false
  pub unchanged : start_changed row given.start ≡ false
  pub not_init : (pid == 1) ≡ false
  pub not_mine : contains pid mine ≡ false
  pub visible : row.visible ≡ true
  pub own : (row.uid == w.uid) ≡ true
  pub orphan : is_orphan (w.partition_fn inv) pid ≡ true
  pub selected : still_selected inv pid ≡ true

module _ (w : World) (still_selected : List Proc → ℕ → Bool) (inv : List Proc) (mine : List ℕ)
    (targets : List ReapTarget) where
  one-Fit :
      (t : ReapTarget) (p : Proc)
      → Memᴰ t targets
      → live_row inv t.pid ≡ some p
      → reason_of w still_selected inv mine t p ≡ none
      → Fit w still_selected inv mine targets t.pid
  unfolding reason_of
  one-Fit t p m live h = elim (Option-cases (find t.pid inv)) [
    | inl gone ↦ absurd (ground arith)
    | inr (q, found) ↦ elim (Bool-cases q.zombie) [
      | inl dead ↦ absurd (ground arith)
      | inr up ↦
          let eq : q ≡ p = ground arith in
          record {
            row = p;
            given = t;
            listed = m;
            given_pid = refl;
            found = ground arith;
            alive = ground arith;
            unchanged = ground arith;
            not_init = ground arith;
            not_mine = ground arith;
            visible = ground arith;
            own = ground arith;
            orphan = ground arith;
            selected = ground arith;
          }
    ]
  ]

  choose-Fit :
      (ts : List ReapTarget)
      → ((t : ReapTarget) → Memᴰ t ts → Memᴰ t targets)
      → All (Fit w still_selected inv mine targets) (choose w still_selected inv mine ts).chosen
  unfolding choose
  choose-Fit [] sub = tt
  choose-Fit (t ∷ ts) sub =
      let rest = choose-Fit ts (λ u m. sub u (Memᴰ.tail m)) in
      elim (Option-cases (live_row inv t.pid)) [
        | inl gone ↦ rw (choose, gone) rest
        | inr (p, live) ↦ elim (Option-cases (reason_of w still_selected inv mine t p)) [
          | inl clear ↦
              rw (choose, live, clear) (one-Fit t p (sub t (Memᴰ.head refl)) live clear, rest)
          | inr (why, no') ↦ rw (choose, live, no') rest
        ]
      ]

none_chosen-fueled : (rs : List (ℕ × Reason)) → none_chosen rs ≢ no_fuel
unfolding none_chosen
none_chosen-fueled [] h = ground arith
none_chosen-fueled ((pid, why) ∷ rs) h = ground arith

real_only :
    (dry_run : Bool) (P : Sent → Type 0) (ss : List Sent)
    → dry_run ≡ false
    → All P ss
    → All (λ s. (dry_run ≡ false) × P s) ss
real_only dry_run P [] d all = tt
real_only dry_run P (s ∷ ss) d (l, all) = ((d, l), real_only dry_run P ss d all)

reap_once-LawfulStop :
    (w : World) (still_selected : List Proc → ℕ → Bool) (dry_run : Bool) (targets : List ReapTarget)
    (e : Engine)
    → Advances w
    → ((reap_once w (suc w.grace_s) still_selected dry_run targets e).1 ≢ no_fuel)
      × Since
          (λ s.
            (dry_run ≡ false)
            × LawfulStop w
                (self_tree w (later e)).1
                (w.table e.time)
                (w.partition_fn (w.table e.time))
                (top_of
                  (w.table e.time)
                  (choose w still_selected
                    (w.table e.time)
                    (self_tree w (later e)).1
                    targets).chosen)
                e.time
                s)
          e.sent
          (reap_once w (suc w.grace_s) still_selected dry_run targets e).0.sent
unfolding reap_once
reap_once-LawfulStop w still_selected dry_run targets e a =
    let inv = w.table e.time in
    let (e1, mine) = self_tree w (later e) in
    let (quiet, grows) = self_tree-quiet w (later e) in
    let choice = choose w still_selected inv mine targets in
    let q : Request =
      reap_request (w.partition_fn inv) (top_of inv choice.chosen) choice.chosen mine in
    let ((e2, out), ends, (new, eq, lawful)) = graceful-LawfulStop w q inv e1 a in
    elim (Bool-cases (is_nil choice.chosen)) [
      | inl empty ↦ rw (reap_once, empty) (none_chosen-fueled choice.refused, Since-quiet quiet)
      | inr some' ↦ elim (Bool-cases dry_run) [
        | inl dry ↦ rw (reap_once, some', dry) (λ h. ground arith, Since-quiet quiet)
        | inr real ↦
            rw (reap_once, some', real, ends)
              (
                λ h. ground arith,
                (
                  new,
                  ground arith,
                  real_only false
                      (LawfulStop w mine inv (w.partition_fn inv) (top_of inv choice.chosen) e.time)
                      new refl
                      (LawfulStop-earlier w mine inv (w.partition_fn inv) (top_of inv choice.chosen)
                        e.time e1.time new (omega arith) lawful),
                ),
              )
      ]
    ]

-- A reap chooses, out of the list that was shown, only processes that are fit for it in the
-- snapshot it takes first. Every signal it sends is a SIGTERM to a process that it knows from that
-- snapshot, as a chosen one or below one, or that it found later below such a process, and that had
-- the start it is known by in the reading just before; never to memmon's own tree. A dry run sends
-- none. The rounds given are enough where the clock advances between readings.
pub reap-LawfulStop :
    (w : World) (still_selected : List Proc → ℕ → Bool) (degraded lock_free dry_run : Bool)
    (targets : List ReapTarget) (e : Engine)
    → Advances w
    → ((reap w (suc w.grace_s) still_selected degraded lock_free dry_run targets e).1 ≢ no_fuel)
      × All
          (Fit w still_selected (w.table e.time) (self_tree w (later e)).1 targets)
          (choose w still_selected (w.table e.time) (self_tree w (later e)).1 targets).chosen
      × Since
          (λ s.
            (dry_run ≡ false)
            × LawfulStop w
                (self_tree w (later e)).1
                (w.table e.time)
                (w.partition_fn (w.table e.time))
                (top_of
                  (w.table e.time)
                  (choose w still_selected
                    (w.table e.time)
                    (self_tree w (later e)).1
                    targets).chosen)
                e.time
                s)
          e.sent
          (reap w (suc w.grace_s) still_selected degraded lock_free dry_run targets e).0.sent
unfolding reap
reap-LawfulStop w still_selected degraded lock_free dry_run targets e a =
    let fit =
      choose-Fit w still_selected (w.table e.time) (self_tree w (later e)).1 targets targets
        (λ t m. m) in
    let (fueled, sent) = reap_once-LawfulStop w still_selected dry_run targets e a in
    elim (Bool-cases degraded) [
      | inl blind ↦ rw (reap, blind) (λ h. ground arith, fit, Since-quiet refl)
      | inr seen ↦ elim (Bool-cases (not dry_run && not lock_free)) [
        | inl locked ↦ rw (reap, seen, locked) (λ h. ground arith, fit, Since-quiet refl)
        | inr free ↦ rw (reap, seen, free) (fueled, fit, sent)
      ]
    ]
