-- ===== src/Runner/Cancel/Delivered.antt =====
-- What an automatic cancel sends and what it claims.
use claude_memmon.Prelude.{ℕ, suc, ◌≡◌, Option, none, some, List, ◌∷◌, ◌++◌}
use claude_memmon.Act.Engine.{Sent, sigterm, World, Engine}
use claude_memmon.Act.Report.{ForceBody}
use claude_memmon.Act.Force.{force_wait_s}
use claude_memmon.Act.Entry.{Body}
use claude_memmon.Act.Run.{Ran}
use claude_memmon.Act.Run.Lawful.{Admitted, Allowed}
use claude_memmon.Runner.Cancel.{first_call, token, Attempt, leftover, force_token_body, first_call}

-- The call that stops the managed job, from `e`, with the fuel that is enough.
abbrev pub stopping : World → Attempt → Option Body → Engine → Engine × Ran
stopping w a given e = first_call w (suc w.grace_s) (suc force_wait_s) a given e

-- A signal of one of the two calls from `e`: of the stop of the managed job with the token that
-- the factory made, or of the force of what that stop left behind.
pub data Delivered (w : World) (a : Attempt) (e : Engine) (s : Sent) : Type 0 where
  at_first :
      (given : Option Body) (body : Body)
      → a.made ≡ token given
      → Admitted a.now a.degraded a.lock_free "stop-managed-job" given body
      → Allowed w "stop-managed-job" none body e s
      → Delivered w a e s
  by_force :
      (given : Option Body) (f : ForceBody) (body : Body)
      → a.made ≡ token given
      → leftover (stopping w a given e).1 ≡ some f
      → Admitted a.force_now a.degraded a.force_lock_free "force"
          (some (force_token_body a.force_ts f))
          body
      → Allowed w "force" none body (stopping w a given e).0 s
      → Delivered w a e s

-- The child was sent a SIGTERM.
pub record Termed (child : ℕ) (sent : List Sent) : Type 0 where
  pub others : List Sent
  pub newer : List Sent
  pub one : Sent
  pub listed : sent ≡ newer ++ one ∷ others
  pub to_child : one.pid ≡ child
  pub is_term : one.sig ≡ sigterm
