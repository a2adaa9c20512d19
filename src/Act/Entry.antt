-- ===== src/Act/Entry.antt =====
-- memmon_act.py, the tests of `_process`, and `_target_gone`: what a token must still match before
-- anything is signalled.
use claude_memmon.Prelude.{
  ℕ, zero, suc, ◌==◌, String, Bool, true, false, Option, none, some, List, [], ◌∷◌, map, ◌&&◌, ◌||◌,
  not, str_eq, is_some, if◌then◌else◌, keep, contains,
}
use claude_memmon.Procs.Walk.{Proc, find}
use claude_memmon.Procs.Climb.{full_climb, sort_pids}
use claude_memmon.Runner.Footprint.{same_start}
use claude_memmon.Act.Engine.{Start, Lease, Partition, World, Engine, self_tree}
use claude_memmon.Act.Plan.{owner_at}
use claude_memmon.Act.Report.{Outcome, ForceBody}

-- The reasons of `Refused`.
pub data Refusal : Type 0 where
  bad_token other_action stale_token degraded_identity busy unknown_action target_changed : Refusal
  ownership_changed protected not_stoppable lease_mismatch : Refusal

-- The body of a token. `target_pgid` is 0 where it is missing.
pub record Body : Type 0 where
  pub action : String
  pub snapshot_ts : ℕ
  pub target_pid : Option ℕ
  pub target_start : Start
  pub target_pgid : ℕ
  pub root_pid : Option ℕ
  pub root_start : Start
  pub run_id : String
  pub force_body : ForceBody

-- `failed` is the result "error", `root_exited` lists the rows that remain.
pub data Done : Type 0 where
  refused : Refusal → Done
  already_exited failed no_fuel : Done
  root_exited : List ℕ → Done
  acted : Outcome → Done

-- `inv.procs.get(body["…"].get("pid"))`
abbrev pub row_at : List Proc → Option ℕ → Option Proc
row_at inv none = none
row_at inv (some pid) = find pid inv

-- The loop that climbs from the target to the owner's root: at most 4096 steps.
unfoldable pub reaches : List Proc → ℕ → ℕ → Proc → Bool
reaches inv zero root cur = cur.pid == root
reaches inv (suc hops) root cur = cur.pid == root || elim (row_at inv cur.ppid) [
  | none ↦ false
  | some p ↦ not p.zombie && reaches inv hops root p
]

-- `_target_gone`, the test of a row but for its owner.
unfoldable pub is_left : World → ℕ → List ℕ → Proc → Bool
is_left w pgid mine p =
    p.pgid == pgid && (p.visible && (not p.zombie && (p.uid == w.uid && not (contains p.pid mine))))

-- `part.owners[part.owner_of[pid]].kind == "unknown"`; false where the pid has no owner.
abbrev pub is_orphan : Partition → ℕ → Bool
is_orphan part pid = elim (part.owner_of pid) [
  | none ↦ false
  | some oid ↦ str_eq (part.kind_of oid) "unknown"
]

unfoldable pub all_owned : Partition → List Proc → Bool
all_owned part [] = true
all_owned part (p ∷ ps) = is_some (part.owner_of p.pid) && all_owned part ps

abbrev pub stops_job : String → Bool
stops_job action = str_eq action "stop-job" || str_eq action "stop-server"

abbrev root_in_group : Option Proc → ℕ → Bool
root_in_group none pgid = false
root_in_group (some p) pgid = p.pgid == pgid

-- A pid without an owner raises.
unfoldable pub left_over : Partition → List Proc → Done
left_over part rows =
    if all_owned part rows
    then elim (sort_pids (map (λ p. p.pid) (keep (λ (p : Proc). is_orphan part p.pid) rows))) [
      | [] ↦ already_exited
      | pid ∷ pids ↦ root_exited (pid ∷ pids)
    ]
    else failed

-- `_target_gone`
unfoldable pub target_gone : World → String → Body → List Proc → Engine → Engine × Done
target_gone w action body inv e =
    let (e', mine) = self_tree w e in
    if not (stops_job action || str_eq action "stop-managed-job")
      || (body.target_pgid == 0 || root_in_group (row_at inv body.root_pid) body.target_pgid)
    then (e, already_exited)
    else (e', left_over (w.partition_fn inv) (keep (is_left w body.target_pgid mine) inv))

-- The first live row of the run.
unfoldable pub lease_at : String → List Lease → Option Lease
lease_at run_id [] = none
lease_at run_id (row ∷ rows) = if str_eq row.id run_id then some row else lease_at run_id rows

abbrev is_child_of : Option Lease → Proc → Bool
is_child_of none tp = false
is_child_of (some row) tp =
    elim row.child_pid [ none ↦ false | some c ↦ c == tp.pid ]
    && same_start row.child_start tp.start

abbrev is_kind : Option String → String → Bool
is_kind none kind = false
is_kind (some k) kind = str_eq k kind

-- `root_kind`
unfoldable pub kind_at : Partition → ℕ → Option String
kind_at part pid = elim (owner_at pid part.root_owner) [
  | none ↦ none
  | some oid ↦ some (part.kind_of oid)
]

-- The root itself, a process of the root's group, or another owner's root.
unfoldable pub is_owned_root : Partition → Proc → Proc → Bool
is_owned_root part tp rp =
    tp.pid == rp.pid || (tp.pgid == rp.pgid || is_some (owner_at tp.pid part.root_owner))

-- The tests that depend on the action.
unfoldable pub refusal_of : String → Body → Partition → List Lease → Proc → Proc → Option Refusal
refusal_of action body part leases tp rp =
    if stops_job action
    then if is_owned_root part tp rp then some protected else none
    else if str_eq action "end-session"
    then if not (tp.pid == rp.pid)
      then some protected
      else if is_kind (kind_at part rp.pid) "claude" || is_kind (kind_at part rp.pid) "codex"
      then none
      else some not_stoppable
    else if str_eq action "stop-managed-job"
    then if not (is_child_of (lease_at body.run_id leases) tp)
      then some lease_mismatch
      else if not (tp.pid == rp.pid && is_kind (kind_at part rp.pid) "job")
          && is_owned_root part tp rp
      then some protected
      else none
    else none

-- The tests of `_process` after both identities are found unchanged.
unfoldable pub guard :
    World
    → String
    → Body
    → List Proc
    → Partition
    → List ℕ
    → List Lease
    → Proc
    → Proc
    → Option Refusal
guard w action body inv part mine leases tp rp =
    if not (reaches inv 4096 rp.pid tp)
    then some ownership_changed
    else if (tp.pid == 1 || not tp.visible) || (not (tp.uid == w.uid) || contains tp.pid mine)
    then some protected
    else if contains tp.pid (full_climb inv rp.ppid)
    then some protected
    else refusal_of action body part leases tp rp
