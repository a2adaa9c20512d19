-- ===== src/Act/Report.antt =====
-- memmon_act.py, the end of `_graceful`: what is still there after the rounds, and the token for a
-- forced stop. Program names, memory numbers and the order of the kept owners' names are left out.
pub mod Remains
pub mod Claims
unfoldable pub use Remains.*
use claude_memmon.Prelude.{
  ℕ, zero, suc, ◌+◌, ◌-◌, ◌==◌, String, Bool, true, false, Option, none, some, List, [], ◌∷◌, ◌++◌,
  map, ◌&&◌, ◌||◌, not, str_eq, is_some, if◌then◌else◌, length, keep, contains, take, drop,
}
use claude_memmon.Procs.Walk.{Proc, find}
use claude_memmon.Procs.Climb.{parent_of, climb, sort_pids}
use claude_memmon.Act.Engine.{
  Start, Signal, sigterm, sigkill, Sent, Lease, Partition, World, Engine, same, later,
}
use claude_memmon.Act.Plan.{Captured, Kept, Held, has_captured, has_kept, start_at}
use claude_memmon.Act.Watch.{Stop, Group, captured_start, has_held, dedupe, discover, terminate}

unfoldable pub got_term : ℕ → List Sent → Bool
got_term pid [] = false
got_term pid (s ∷ ss) =
    s.pid == pid && elim s.sig [ sigterm ↦ true | sigkill ↦ false ] || got_term pid ss

unfoldable pub left_row : List Proc → List ℕ → List ℕ → List Sent → ℕ → Left
left_row final forceable runners sent pid = record {
  pid = pid;
  start = start_at final pid;
  forceable = contains pid forceable;
  role =
      if contains pid forceable
      then survivor
      else if contains pid runners
      then runner
      else observed;
  signalled = got_term pid sent;
}

abbrev pub is_observed : Left → Bool
is_observed r = elim r.role [ survivor ↦ false | runner ↦ false | observed ↦ true ]

abbrev named_of : List ℕ → Captured → Named
named_of selected c = record { pid = c.pid; start = c.start; selected = contains c.pid selected }

-- The token, where anything that was signalled survives.
unfoldable pub token_of : Request → List Proc → Stop → List Left → Option ForceBody
token_of q final st rows =
    let seen = keep is_observed rows in
    elim (survivors_of final st.captured) [
      | [] ↦ none
      | c ∷ cs ↦ some (record {
        origin = q.origin;
        owner_root = q.owner_root;
        survivors = map (named_of q.selected) (c ∷ cs);
        observed = map (λ r. (r.pid, r.start)) (take observed_cap seen);
        observed_total = length seen;
        observed_pgids =
            sort_pids (dedupe (map (λ r. pgid_at final r.pid) (drop observed_cap seen)));
        runners = runners_of q final st st.held;
      })
    ]

abbrev is_nil : List Left → Bool
is_nil [] = true
is_nil (r ∷ rs) = false

-- The outcome, of the rows that remain. `sent` are the signals of this stop.
unfoldable pub report : Request → List Proc → List Proc → Stop → List ℕ → List Sent → Outcome
report q inv final st found sent =
    let alive = survivors_of final st.captured in
    let runners = map (λ r. r.pid) (runners_of q final st st.held) in
    let rows =
      map (left_row final (pids_of alive) runners sent)
        (sort_pids (remaining_of q inv final st found)) in
    record {
      result = if is_nil rows then stopped else partial;
      exited = length (keep (λ (c : Captured). not (contains c.pid (pids_of alive))) st.captured);
      remaining = rows;
      kept = map (λ k. k.owner) (keep (λ (k : Kept). same (find k.pid final) k.start) st.kept);
      captured = length st.captured;
      forceable = length alive;
      observed = length (keep is_observed rows);
      force_token = token_of q final st rows;
    }

-- The final snapshot, the last discovery with the leases of that moment, and the report.
unfoldable pub conclude : World → Request → List Proc → List Sent → Engine → Stop → Engine × Outcome
conclude w q inv before e st =
    let final = w.table e.time in
    let alive = pids_of (survivors_of final st.captured) in
    let (st', found) = discover w q.mine final (w.leases (e.time + 1)) alive st in
    let sent = take (length e.sent - length before) e.sent in
    (later (later e), report q inv final st' found sent)

-- `_graceful`; `none` where the fuel of the rounds ran out.
unfoldable pub graceful : World → ℕ → Request → List Proc → Engine → Option (Engine × Outcome)
graceful w fuel q inv e = elim (terminate w q.mine fuel inv q.part q.targets e) [
  | none ↦ none
  | some (e', st) ↦ some (conclude w q inv e.sent e' st)
]
