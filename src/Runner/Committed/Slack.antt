-- ===== src/Runner/Committed/Slack.antt =====
-- How the slack moves when a job is admitted, and how it compares with the reservations.
use claude_memmon.Prelude.{
  ℕ, suc, ◌+◌, ◌*◌, ◌≤◌, String, Bool, false, none, some, List, [], ◌∷◌, ◌≡◌, arith, str_eq,
  if◌then◌else◌, Bool-cases, inl, inr,
}
use claude_memmon.Runner.Jobs.{Job, start_row, start_job, is_waiting, reservation_of}
use claude_memmon.Runner.Committed.{Scans, slack_of}

-- How many records carry `id`.
unfoldable pub records_of : String → List Job → ℕ
records_of id [] = 0
records_of id (row ∷ rows) =
    let rest = records_of id rows in if str_eq row.id id then suc rest else rest

start_row-reservation : (est : ℕ) (row : Job) → reservation_of (start_row est row) ≡ est
unfolding reservation_of start_row
start_row-reservation est row = ground arith

start_row-state : (est : ℕ) (row : Job) → is_waiting (start_row est row).state ≡ false
unfolding start_row
start_row-state est row = ground arith

-- Admitting a job raises the slack, as it stood without the job, by its estimate at most.
pub slack_of-start_job :
    (id : String) (est : ℕ) (rows : List Job) (scans : Scans) (degraded : Bool)
    → slack_of (start_job id est rows) scans degraded none
      ≤ slack_of rows scans degraded (some id) + est * records_of id rows
unfolding slack_of start_job records_of
slack_of-start_job id est [] scans degraded = ground arith
slack_of-start_job id est (row ∷ rows) scans degraded = elim (Bool-cases (str_eq row.id id)) [
  | inl own ↦
      let ih = slack_of-start_job id est rows scans degraded in
      rw own (rw (start_row-state est row) (rw (start_row-reservation est row) (grind (arith, ih))))
  | inr other ↦
      let ih = slack_of-start_job id est rows scans degraded in rw other (ground (arith, ih))
]
