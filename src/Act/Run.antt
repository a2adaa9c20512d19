-- ===== src/Act/Run.antt =====
-- memmon_act.py, `Engine.run` but for the watch that follows a session's end. What a token decodes
-- to, whether the source is degraded and whether the lock is free are the caller's; `now` is the
-- wall clock. Of `verify-app` only the tests before it are modelled.
pub mod Lawful
use claude_memmon.Prelude.{
  ℕ, ◌+◌, String, Bool, true, false, Option, none, some, List, ◌⊎◌, inl, inr, ◌||◌, not, ltb,
  str_eq, if◌then◌else◌,
}
use claude_memmon.Procs.Walk.{Proc}
use claude_memmon.Act.Engine.{World, Engine}
use claude_memmon.Act.Force.{Forced, wrong_action, forced, out_of_fuel, force}
use claude_memmon.Act.Entry.{
  Refusal, bad_token, other_action, stale_token, degraded_identity, busy, unknown_action, Body,
  Done, stops_job,
}
use claude_memmon.Act.Process.{process}

abbrev pub token_ttl : ℕ
token_ttl = 120000000000

abbrev pub future_slack : ℕ
future_slack = 5000000000

-- `PROCESS_ACTIONS`
abbrev pub is_process_action : String → Bool
is_process_action action =
    (stops_job action || str_eq action "stop-managed-job") || str_eq action "end-session"

abbrev pub is_stale : ℕ → ℕ → Bool
is_stale now ts = ltb (ts + token_ttl) now || ltb (now + future_slack) ts

-- `TOKEN_ACTION.get(action, action)`
abbrev pub token_action : String → String
token_action action =
    if str_eq action "verify-app"
    then "quit-app"
    else if str_eq action "force"
    then "force"
    else action

-- How a call of `run` ends.
pub data Ran : Type 0 where
  unstarted : Refusal → Ran
  app_checked : Ran
  killed : Forced → Ran
  processed : Done → Ran

-- The first tests, in their order: `inr` is the decoded body.
unfoldable pub admitted : ℕ → Bool → Bool → String → Option Body → Refusal ⊎ Body
admitted now degraded lock_free action none = inl bad_token
admitted now degraded lock_free action (some body) =
    if not (str_eq body.action (token_action action))
    then inl other_action
    else if is_stale now body.snapshot_ts
    then inl stale_token
    else if degraded
    then inl degraded_identity
    else if not lock_free
    then inl busy
    else inr body

abbrev forced_engine : Engine → Forced → Engine
forced_engine e wrong_action = e
forced_engine e out_of_fuel = e
forced_engine e (forced e' out) = e'

-- The dispatch under the lock: `rounds` is the fuel of a stop's watch, `waits` of a force's.
unfoldable pub dispatch :
    World
    → ℕ
    → ℕ
    → String
    → Option String
    → Option (List Proc → ℕ → Bool)
    → Body
    → Engine
    → Engine × Ran
dispatch w rounds waits action origin still_selected body e =
    let f = force w waits origin still_selected body.force_body e in
    let p = process w rounds action body e in
    if str_eq action "verify-app"
    then (e, app_checked)
    else if str_eq action "force"
    then (forced_engine e f, killed f)
    else if not (is_process_action action)
    then (e, unstarted unknown_action)
    else (p.0, processed p.1)

-- `run`
unfoldable pub run :
    World
    → ℕ
    → ℕ
    → ℕ
    → Bool
    → Bool
    → String
    → Option Body
    → Option String
    → Option (List Proc → ℕ → Bool)
    → Engine
    → Engine × Ran
run w rounds waits now degraded lock_free action token origin still_selected e =
    elim (admitted now degraded lock_free action token) [
      | inl why ↦ (e, unstarted why)
      | inr body ↦ dispatch w rounds waits action origin still_selected body e
    ]
