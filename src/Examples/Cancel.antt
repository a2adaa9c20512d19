-- ===== src/Examples/Cancel.antt =====
-- memmon_runner.py: an automatic cancel of the job 11.
use claude_memmon.Prelude.{true, false, none, some}
use claude_memmon.Act.Engine.{Engine}
use claude_memmon.Act.Entry.{Body}
use claude_memmon.Runner.Jobs.{running}
use claude_memmon.Runner.Monitor.{Monitored}
use claude_memmon.Runner.Cancel.{Attempt, token, Cancel, policy_cancel}
use claude_memmon.Runner.Cancel.Delivered.{Delivered}
use claude_memmon.Examples.Act.{world, idle, body}

abbrev own_token : Body
own_token = record body { action = "stop-managed-job"; run_id = "r1" }

abbrev attempt : Attempt
attempt = record {
  exited_before = false;
  made = token (some own_token);
  now = 2000;
  lock_free = true;
  force_ts = 2000;
  force_now = 3000;
  force_lock_free = true;
  degraded = false;
  exited_after = true;
}

abbrev monitored : Monitored
monitored = record {
  state = running;
  intervention = none;
  counts = record { bad = 5; failed = 0; critical = 5; clear_since = none };
  footprint_bytes = none;
  peak = none;
}

abbrev attempted : Engine × Cancel × Monitored
attempted = policy_cancel world 10 3000000001 11 attempt monitored idle
