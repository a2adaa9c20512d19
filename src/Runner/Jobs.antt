-- ===== src/Runner/Jobs.antt =====
-- memmon_runner.py, the run records and what is read from them: `_child_of`, `reservation_of`.
use claude_memmon.Prelude.{
  ℕ, ◌*◌, ◌==◌, max, String, Bool, true, false, Option, none, some, get_or, if◌then◌else◌, List, [],
  ◌∷◌, str_eq,
}

pub data RunState : Type 0 where
  waiting starting running intervention_needed cancelling cancelled_by_policy detached : RunState

abbrev pub is_waiting : RunState → Bool
is_waiting waiting = true
is_waiting _ = false

-- The child process and its (seconds, microseconds) start, which may be unreadable.
pub record Child : Type 0 where
  pub pid : ℕ
  pub start : Option (ℕ × ℕ)

-- The fields of a run record that the runner decides by.
pub record Job : Type 0 where
  pub id : String
  pub resource : String
  pub state : RunState
  pub child : Option Child
  pub child_pid : Option ℕ
  pub child_start : Option (ℕ × ℕ)
  pub reservation_bytes : Option ℕ
  pub footprint_bytes : Option ℕ
  pub footprint_ts : Option ℕ

-- `_child_of`: the child, or the two fields that older runners wrote in its place.
unfoldable pub child_of : Job → Option Child
child_of row = elim row.child [
  | some c ↦ some c
  | none ↦ elim row.child_pid [
    | none ↦ none
    | some pid ↦ if pid == 0 then none else some (record { pid = pid; start = row.child_start })
  ]
]

abbrev pub gib : ℕ
gib = 1073741824

abbrev pub default_estimate : ℕ
default_estimate = 4 * gib

-- A record of an older runner carries no reservation.
unfoldable pub reservation_of : Job → ℕ
reservation_of row = elim row.reservation_bytes [
  | some r ↦ r
  | none ↦ max default_estimate (get_or row.footprint_bytes 0)
]

-- The update of the run's own record when it is admitted.
unfoldable pub start_row : ℕ → Job → Job
start_row est row = record row { state = starting; reservation_bytes = some est }

-- The records after the run `id` was admitted with the estimate `est`.
unfoldable pub start_job : String → ℕ → List Job → List Job
start_job id est [] = []
start_job id est (row ∷ rows) =
    (if str_eq row.id id then start_row est row else row) ∷ start_job id est rows
