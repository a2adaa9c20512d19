-- ===== src/Examples/Suggest.antt =====
-- memmon_pressure.py: a session with a test run of 3 GiB below its shell, and a dev server of 300 MiB.
use claude_memmon.Prelude.{
  ℕ, ◌*◌, ◌≤◌, ◌≡◌, String, true, false, Option, none, some, List, [], ◌∷◌, All, Descending, length,
}
use claude_memmon.Procs.Walk.{Proc}
use claude_memmon.Pressure.History.{
  History, JobId, old_roots, update_job_history, history_max_roots,
}
use claude_memmon.Pressure.History.Largest.{Kept, update_job_history-Kept}
use claude_memmon.Pressure.Suggest.{Setting, Owner, Listed, Row, suggest_max}
use claude_memmon.Pressure.Suggest.Rows.{suggestions}
use claude_memmon.Pressure.Suggest.Rows.Worthy.{Worthy, suggestions-Worthy}

abbrev proc : ℕ → ℕ → ℕ → Proc
proc pid ppid bytes = record {
  pid = pid;
  start = some (pid, 0);
  ppid = some ppid;
  pgid = pid;
  uid = 501;
  zombie = false;
  footprint = some bytes;
  cpu_ticks = some 7;
  comm = "node";
  visible = true;
}

abbrev mib : ℕ
mib = 1048576

abbrev table : List Proc
table = proc 10 1 mib ∷ proc 11 10 (3072 * mib) ∷ proc 12 10 (300 * mib) ∷ proc 50 1 mib ∷ []

abbrev kinds : ℕ → String × String
kinds pid = ("test", "vitest")

abbrev before : History
before = record {
  boot = some "A";
  roots =
      record {
        job = record { pid = 11; sec = 11; usec = 0 };
        kind = "test";
        label = "vitest";
        points = record { awake = 5; footprint = 2048 * mib; cpu = some 1 } ∷ [];
      }
      ∷ [];
}

update_job_history-Kept_example :
    ((update_job_history (1, 1) (some before) table (11 ∷ 12 ∷ []) kinds 60 (some "A")).boot
      ≡ some "A")
    × (length
          (update_job_history (1, 1) (some before) table (11 ∷ 12 ∷ []) kinds 60 (some "A")).roots
        ≤ history_max_roots)
    × All
        (Kept (old_roots (some before) (some "A")) 60)
        (update_job_history (1, 1) (some before) table (11 ∷ 12 ∷ []) kinds 60 (some "A")).roots
update_job_history-Kept_example =
    update_job_history-Kept (1, 1) (some before) table (11 ∷ 12 ∷ []) kinds 60 (some "A")

abbrev setting : Setting
setting = record {
  kind_of = kinds;
  lower = λ s. s;
  uid = 501;
  self_pid = 50;
  ram_bytes = 16384 * mib;
  now = 100000000000;
  snapshot_ts = 100000000000;
  degraded = false;
  mint = true;
}

abbrev session : Owner
session = record {
  owner_id = "s";
  kind = "claude";
  is_self = false;
  root = 10;
  members = 10 ∷ 11 ∷ 12 ∷ [];
}

abbrev unlisted : JobId → Option Listed
unlisted job = none

abbrev roots : List (ℕ × String)
roots = (10, "s") ∷ []

suggestions-Worthy_example :
    (length (suggestions setting table roots [] [] unlisted (session ∷ [])) ≤ suggest_max)
    × Descending
        (λ (r : Row). r.footprint)
        (suggestions setting table roots [] [] unlisted (session ∷ []))
    × All (Worthy setting table []) (suggestions setting table roots [] [] unlisted (session ∷ []))
suggestions-Worthy_example = suggestions-Worthy setting table roots [] [] unlisted (session ∷ [])
