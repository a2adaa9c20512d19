-- ===== src/Act/Reap.antt =====
-- memmon_act.py, `reap` and `_reap_once`. The selector's name in the token is left out; the lock is
-- held or refused as the caller says.
pub mod Chosen
use claude_memmon.Prelude.{
  ℕ, ◌==◌, String, Bool, true, false, Option, none, some, List, [], ◌∷◌, map, ◌&&◌, ◌||◌, not,
  str_eq, is_some, if◌then◌else◌, keep, contains,
}
use claude_memmon.Procs.Walk.{Proc, find}
use claude_memmon.Procs.Climb.{has_ancestor_in, sort_pids}
use claude_memmon.Runner.Footprint.{same_start}
use claude_memmon.Act.Engine.{Start, Partition, World, Engine, same, later, self_tree}
use claude_memmon.Act.Plan.{Captured, Held, Kept, Plan, plan}
use claude_memmon.Act.Report.{Request, Outcome, graceful}
use claude_memmon.Act.Entry.{Refusal, target_changed, protected, degraded_identity, busy, is_orphan}

-- A pair of the list that was shown; `start` is none where only the pid was given.
pub record ReapTarget : Type 0 where
  pub pid : ℕ
  pub start : Start

-- Why a reap leaves a target alone.
pub data Reason : Type 0 where
  changed is_protected attributed : Reason

abbrev start_changed : Proc → Start → Bool
start_changed p none = false
start_changed p (some s) = not (same_start p.start (some s))

-- The tests of a target that is alive: `none` is chosen.
unfoldable pub reason_of :
    World → (List Proc → ℕ → Bool) → List Proc → List ℕ → ReapTarget → Proc → Option Reason
reason_of w still_selected inv mine t p =
    if start_changed p t.start
    then some changed
    else if (t.pid == 1 || contains t.pid mine) || (not p.visible || not (p.uid == w.uid))
    then some is_protected
    else if not (is_orphan (w.partition_fn inv) t.pid)
    then some attributed
    else if not (still_selected inv t.pid)
    then some changed
    else none

pub record Choice : Type 0 where
  pub chosen : List ℕ
  pub refused : List (ℕ × Reason)

abbrev live_row : List Proc → ℕ → Option Proc
live_row inv pid = elim (find pid inv) [ none ↦ none | some p ↦ if p.zombie then none else some p ]

-- The loop over the targets.
unfoldable pub choose :
    World → (List Proc → ℕ → Bool) → List Proc → List ℕ → List ReapTarget → Choice
choose w still_selected inv mine [] = record { chosen = []; refused = [] }
choose w still_selected inv mine (t ∷ ts) =
    let rest = choose w still_selected inv mine ts in
    elim (live_row inv t.pid) [
      | none ↦ rest
      | some p ↦ elim (reason_of w still_selected inv mine t p) [
        | none ↦ record rest { chosen = t.pid ∷ rest.chosen }
        | some why ↦ record rest { refused = (t.pid, why) ∷ rest.refused }
      ]
    ]

-- Targets nested inside another target are covered by it.
unfoldable pub top_of : List Proc → List ℕ → List ℕ
top_of inv chosen = keep (λ t. not (has_ancestor_in inv t chosen)) chosen

pub record DryRun : Type 0 where
  pub would_signal : List ℕ
  pub would_hold : List ℕ
  pub kept : List String
  pub refused : List (ℕ × Reason)

pub data Reaped : Type 0 where
  unstarted : Refusal → Reaped
  nothing_to_do no_fuel : Reaped
  all_refused : Reason → List (ℕ × Reason) → Reaped
  would_stop : DryRun → Reaped
  reaped : Outcome → List (ℕ × Reason) → Reaped

unfoldable pub none_chosen : List (ℕ × Reason) → Reaped
none_chosen [] = nothing_to_do
none_chosen ((pid, why) ∷ rest) = all_refused why ((pid, why) ∷ rest)

unfoldable pub dry_run_of : Plan → List (ℕ × Reason) → DryRun
dry_run_of p refused = record {
  would_signal = sort_pids (map (λ (c : Captured). c.pid) p.captured);
  would_hold = sort_pids (map (λ (h : Held). h.wrapper) p.held);
  kept = map (λ (k : Kept). k.owner) p.kept;
  refused = refused;
}

abbrev pub reap_request : Partition → List ℕ → List ℕ → List ℕ → Request
reap_request part top chosen mine = record {
  part = part;
  targets = top;
  owner_id = none;
  origin = "reap";
  owner_root = none;
  selected = chosen;
  mine = mine;
}

abbrev pub finish_reap : Engine → List (ℕ × Reason) → Option (Engine × Outcome) → Engine × Reaped
finish_reap e refused none = (e, no_fuel)
finish_reap e refused (some (e', out)) = (e', reaped out refused)

abbrev is_nil : List ℕ → Bool
is_nil [] = true
is_nil (p ∷ ps) = false

-- `_reap_once`
unfoldable pub reap_once :
    World → ℕ → (List Proc → ℕ → Bool) → Bool → List ReapTarget → Engine → Engine × Reaped
reap_once w fuel still_selected dry_run targets e =
    let inv = w.table e.time in
    let part = w.partition_fn inv in
    let (e1, mine) = self_tree w (later e) in
    let choice = choose w still_selected inv mine targets in
    let top = top_of inv choice.chosen in
    if is_nil choice.chosen
    then (e1, none_chosen choice.refused)
    else if dry_run
    then (
      later e1,
      would_stop (dry_run_of (plan inv part (w.leases e1.time) top mine) choice.refused),
    )
    else finish_reap e1 choice.refused
        (graceful w fuel (reap_request part top choice.chosen mine) inv e1)

-- `reap`; a dry run takes no lock.
unfoldable pub reap :
    World
    → ℕ
    → (List Proc → ℕ → Bool)
    → Bool
    → Bool
    → Bool
    → List ReapTarget
    → Engine
    → Engine × Reaped
reap w fuel still_selected degraded lock_free dry_run targets e =
    if degraded
    then (e, unstarted degraded_identity)
    else if not dry_run && not lock_free
    then (e, unstarted busy)
    else reap_once w fuel still_selected dry_run targets e
