-- ===== src/Runner/Cancel.antt =====
-- memmon_runner.py, `policy_cancel`: the automatic cancel stops the run's own child through the
-- engine of memmon_act.py. The texts and the record's file are left out.
pub mod Delivered
use claude_memmon.Prelude.{
  ℕ, String, Bool, true, false, Option, none, some, List, [], ◌∷◌, not, if◌then◌else◌,
}
use claude_memmon.Act.Engine.{World, Engine}
use claude_memmon.Act.Report.{ForceBody, Result, partial, Outcome, got_term}
use claude_memmon.Act.Entry.{Body, Done, acted}
use claude_memmon.Act.Run.{Ran, processed, run}
use claude_memmon.Runner.Jobs.{RunState, cancelled_by_policy}
use claude_memmon.Runner.Monitor.{Monitored, Counts}

-- What the factory gives: it raised, it gave no token, or the token's body.
pub data Made : Type 0 where
  raised no_token : Made
  token : Option Body → Made

-- What the two calls of the engine and the polls of the child find. `force_ts` is the time in the
-- token of the forced stop.
pub record Attempt : Type 0 where
  pub exited_before : Bool
  pub made : Made
  pub now : ℕ
  pub lock_free : Bool
  pub force_ts : ℕ
  pub force_now : ℕ
  pub force_lock_free : Bool
  pub degraded : Bool
  pub exited_after : Bool

abbrev is_partial : Result → Bool
is_partial partial = true
is_partial _ = false

-- `out.get("result") == "partial" and out.get("force_token")`
abbrev pub leftover : Ran → Option ForceBody
leftover (processed (acted out)) = if is_partial out.result then out.force_token else none
leftover _ = none

abbrev pub force_token_body : ℕ → ForceBody → Body
force_token_body ts f = record {
  action = "force";
  snapshot_ts = ts;
  target_pid = none;
  target_start = none;
  target_pgid = 0;
  root_pid = f.owner_root;
  root_start = none;
  run_id = "";
  force_body = f;
}

-- `eng.run("stop-managed-job", token)`
abbrev pub first_call : World → ℕ → ℕ → Attempt → Option Body → Engine → Engine × Ran
first_call w rounds waits a body e =
    run w rounds waits a.now a.degraded a.lock_free "stop-managed-job" body none none e

-- `eng.run("force", out["force_token"])`
abbrev pub second_call : World → ℕ → ℕ → Attempt → ForceBody → Engine → Engine × Ran
second_call w rounds waits a f e =
    run w rounds waits a.force_now a.degraded a.force_lock_free "force"
      (some (force_token_body a.force_ts f)) none none e

-- The engine after both calls; a fresh one has sent nothing.
unfoldable pub engine_after : World → ℕ → ℕ → Attempt → Made → Engine → Engine
engine_after w rounds waits a raised e = e
engine_after w rounds waits a no_token e = e
engine_after w rounds waits a (token body) e =
    let (e1, r) = first_call w rounds waits a body e in
    elim (leftover r) [ none ↦ e1 | some f ↦ (second_call w rounds waits a f e1).0 ]

-- The answer "cancelled", or that the run goes on or ends by itself.
pub data Cancel : Type 0 where
  by_itself cancelled refused : Cancel

-- `policy_cancel`, of the child's pid.
unfoldable pub policy_cancel :
    World → ℕ → ℕ → ℕ → Attempt → Monitored → Engine → Engine × Cancel × Monitored
policy_cancel w rounds waits child a m e =
    let e' = engine_after w rounds waits a a.made e in
    if a.exited_before
    then (e, by_itself, m)
    else if a.exited_after
    then if not (got_term child e'.sent)
      then (e', by_itself, m)
      else (e', cancelled, record m { state = cancelled_by_policy })
    else (e', refused, record m { counts = record (m.counts) { critical = 0 } })
