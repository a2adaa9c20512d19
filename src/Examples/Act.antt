-- ===== src/Examples/Act.antt =====
-- memmon_act.py: a session 10 with a job 11 and its worker 12, and memmon itself, 50.
use claude_memmon.Prelude.{
  ℕ, suc, ltb, if◌then◌else◌, ◌≡◌, ◌≢◌, ◌&&◌, Bool, true, false, none, some, List, [], ◌∷◌, refl,
  arith, All, map,
}
use claude_memmon.Procs.Walk.{Proc, find}
use claude_memmon.Procs.Climb.{sort_pids}
use claude_memmon.Act.Engine.{Partition, World, Engine, later, self_tree, same}
use claude_memmon.Act.Engine.Clock.{Advances}
use claude_memmon.Act.Plan.{plan}
use claude_memmon.Act.Plan.Spares.{Spared, plan-Spared}
use claude_memmon.Act.Watch.{Stop, captured_start, has_held}
use claude_memmon.Act.Watch.Lawful.{LawfulStop, Since}
use claude_memmon.Act.Report.{
  Request, stopped, report, remaining_of, sweep, survivors_of, runners_of, lease_pgids,
  target_ancestors, is_swept, is_grouped, pgid_at, add_pids,
}
use claude_memmon.Act.Report.Claims.{report-stopped}
use claude_memmon.Act.Force.{out_of_fuel, force_wait_s}
use claude_memmon.Act.Entry.{Body, Done}
use claude_memmon.Act.Reap.{ReapTarget, Reaped, choose, reap, top_of}
use claude_memmon.Act.Reap.Chosen.{Fit, reap-LawfulStop}
use claude_memmon.Act.Run.{Ran, killed, processed, run}
use claude_memmon.Act.Run.Lawful.{Admitted, Allowed, run-Allowed}

abbrev proc : ℕ → ℕ → ℕ → Proc
proc pid ppid pgid = record {
  pid = pid;
  start = some (pid, 0);
  ppid = some ppid;
  pgid = pgid;
  uid = 501;
  zombie = false;
  footprint = some 1;
  cpu_ticks = none;
  comm = "node";
  visible = true;
}

abbrev table : List Proc
table = proc 10 1 10 ∷ proc 11 10 11 ∷ proc 12 11 11 ∷ proc 50 10 50 ∷ []

abbrev part : Partition
part = record { owner_of = λ pid. some "s"; root_owner = (10, "s") ∷ []; kind_of = λ oid. "claude" }

-- The job is gone from the tenth reading on.
abbrev tables : ℕ → List Proc
tables n = if ltb n 9 then table else proc 10 1 10 ∷ proc 50 10 50 ∷ []

abbrev pub world : World
world = record {
  table = tables;
  leases = λ n.
      record {
        id = "r1";
        wrapper_pid = none;
        child_pid = some 11;
        child_start = some (11, 0);
        is_waiting = false;
      }
      ∷ [];
  mono = λ n. n;
  kill_works = λ n. true;
  uid = 501;
  own_pid = 50;
  partition_fn = λ procs. part;
  root_rule_fn = λ procs pids. [];
  grace_s = 9;
}

pub world-Advances : Advances world
world-Advances n = omega arith

abbrev pub idle : Engine
idle = record { time = 0; sent = [] }

abbrev pub body : Body
body = record {
  action = "stop-job";
  snapshot_ts = 1000;
  target_pid = some 11;
  target_start = some (11, 0);
  target_pgid = 11;
  root_pid = some 10;
  root_start = some (10, 0);
  run_id = "";
  force_body = record {
    origin = "stop-job";
    owner_root = some 10;
    survivors = [];
    observed = [];
    observed_total = 0;
    observed_pgids = [];
    runners = [];
  };
}

abbrev stop_call : Engine × Ran
stop_call = run world 10 (suc force_wait_s) 2000 false true "stop-job" (some body) none none idle

run-Allowed_example :
    (stop_call.1 ≢ killed out_of_fuel)
    × (stop_call.1 ≢ processed Done.no_fuel)
    × Since
        (λ s.
          (b : Body) × Admitted 2000 false true "stop-job" (some body) b
          × Allowed world "stop-job" none b idle s)
        []
        stop_call.0.sent
run-Allowed_example =
    run-Allowed world 2000 false true "stop-job" (some body) none none idle world-Advances

abbrev shown : List ReapTarget
shown = record { pid = 11; start = some (11, 0) } ∷ record { pid = 99; start = none } ∷ []

abbrev still_selected : List Proc → ℕ → Bool
still_selected procs pid = true

-- The same machine, where nobody owns the job.
abbrev orphans : Partition
orphans = record { owner_of = λ pid. some "u"; root_owner = []; kind_of = λ oid. "unknown" }

abbrev unowned : World
unowned = record world { partition_fn = λ procs. orphans }

unowned-Advances : Advances unowned
unowned-Advances n = omega arith

abbrev own_tree : List ℕ
own_tree = (self_tree unowned (later idle)).1

abbrev reap_call : Engine × Reaped
reap_call = reap unowned 10 still_selected false true false shown idle

reap-LawfulStop_example :
    (reap_call.1 ≢ Reaped.no_fuel)
    × All
        (Fit unowned still_selected table own_tree shown)
        (choose unowned still_selected table own_tree shown).chosen
    × Since
        (λ s.
          (false ≡ false)
          × LawfulStop unowned own_tree table orphans
              (top_of table (choose unowned still_selected table own_tree shown).chosen)
              0
              s)
        []
        reap_call.0.sent
reap-LawfulStop_example =
    reap-LawfulStop unowned still_selected false true false shown idle unowned-Advances

plan-Spared_example :
    All
      (Spared table part [] (11 ∷ []) (50 ∷ 10 ∷ []))
      (plan table part [] (11 ∷ []) (50 ∷ 10 ∷ [])).captured
plan-Spared_example = plan-Spared table part [] (11 ∷ []) (50 ∷ 10 ∷ [])

abbrev asked : Request
asked = record {
  part = part;
  targets = 11 ∷ [];
  owner_id = some "s";
  origin = "stop-job";
  owner_root = some 10;
  selected = [];
  mine = 50 ∷ 10 ∷ [];
}

abbrev ended : Stop
ended = record {
  stop = [];
  captured = record { pid = 11; start = some (11, 0); depth = 0 } ∷ [];
  kept = [];
  held = [];
  ever_held = [];
  child_pgid = [];
  excluded = [];
}

abbrev final : List Proc
final = tables 9

abbrev no_pids : List ℕ
no_pids = []

ended_stopped : (report asked table final ended no_pids []).result ≡ stopped
unfolding report remaining_of sweep survivors_of runners_of lease_pgids is_swept is_grouped add_pids
    sort_pids same find has_held captured_start
ended_stopped = refl

report-stopped_example :
    All (λ c. same (find c.pid final) c.start ≡ false) ended.captured
    × (no_pids ≡ [])
    × All
        (λ p.
          (is_swept asked (target_ancestors table asked.targets []) ended p
            && is_grouped asked
                (map (pgid_at table) asked.targets)
                (lease_pgids ended.captured ended.child_pgid)
                p)
          ≡ false)
        final
report-stopped_example = report-stopped asked table final ended no_pids [] ended_stopped
