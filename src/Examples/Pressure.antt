-- ===== src/Examples/Pressure.antt =====
-- memmon_pressure.py: two pressured runs, one of them after a reboot.
use claude_memmon.Prelude.{
  All, Memᴰ, List, ◌+◌, ◌*◌, ◌≤◌, ℕ, String, true, false, some, none, [], ◌∷◌, ◌≡◌, refl, arith,
}
use claude_memmon.Telemetry.Units.{seconds}
use claude_memmon.Telemetry.Reading.{same_boot}
use claude_memmon.Pressure.Episode.{
  notify_floor_s, EpisodeState, Row, Run, new_episode_state, current, forget_calm, start,
  fresh_rows, has_key, mark, notify_first, pressured_step, episode_step, run_episode,
  rollback_notification,
}
use claude_memmon.Pressure.Series.{Point, series_stats, idle_from, is_break, idle_of}
use claude_memmon.Pressure.Series.Idle.{Quiet, series_stats-Quiet}
use claude_memmon.Pressure.Episode.Ahead.{notes}
use claude_memmon.Pressure.Episode.Once.{Distinct, notes-Distinct}
use claude_memmon.Pressure.Episode.Floor.{notify_times, Spaced, notify_times-Spaced}
use claude_memmon.Pressure.Episode.Rollback.{rollback_restores}
use claude_memmon.Pressure.Episode.Reboot.{rollback_stale_floor}

abbrev row : Row
row = record { job_id = "build"; owner_id = "claude"; footprint = 9000000000 }

abbrev run_at : String → ℕ → Run
run_at boot mono = record {
  now_ts = 1700000000;
  mono = seconds mono;
  boot = some boot;
  pressured = true;
  unknown = false;
  gap = false;
  rows = row ∷ [];
}

-- A file of boot "b0" that notified 900 seconds after that boot.
abbrev old_file : EpisodeState
old_file = record (new_episode_state (some "b0")) {
  last_notify_ts = some 1690000000;
  last_notify_mono = some (seconds 900);
}

notify_times-Spaced_example :
    Spaced
      (current none (some "b1")).last_notify_mono
      (notify_times none (run_at "b1" 60 ∷ run_at "b1" 120 ∷ []))
notify_times-Spaced_example =
    notify_times-Spaced none (some "b1") (run_at "b1" 60 ∷ run_at "b1" 120 ∷ []) (refl, (refl, tt))

same_file : current (some old_file) (some "b0") ≡ old_file
unfolding current new_episode_state
same_file = refl

sent_again : (run_episode (some old_file) (run_at "b0" 1300)).1 ≡ row ∷ []
unfolding run_episode episode_step current new_episode_state forget_calm start fresh_rows has_key
    notify_first mark pressured_step
sent_again = refl

rollback_restores_example :
    let (st', out, before) = run_episode (some old_file) (run_at "b0" 1300) in
    rollback_notification (some st') "build" (seconds 1300) before
    ≡ some (episode_step (some old_file) (record (run_at "b0" 1300) { rows = [] })).0
rollback_restores_example = rollback_restores old_file (run_at "b0" 1300) row same_file sent_again

rebooted : same_boot old_file.boot (some "b1") ≡ false
unfolding new_episode_state
rebooted = refl

floor_held : old_file.last_notify_mono ≡ some (seconds 900)
floor_held = refl

sent_new : (run_episode (some old_file) (run_at "b1" 60)).1 ≡ row ∷ []
unfolding run_episode episode_step current new_episode_state forget_calm start fresh_rows has_key
    notify_first mark pressured_step
sent_new = refl

rollback_stale_floor_example :
    let (st', out, before) = run_episode (some old_file) (run_at "b1" 60) in
    All
      (λ t. seconds 900 + notify_floor_s ≤ t)
      (notify_times
        (rollback_notification (some st') "build" (seconds 60) before)
        (run_at "b1" 1100 ∷ run_at "b1" 1300 ∷ []))
rollback_stale_floor_example =
    rollback_stale_floor old_file (run_at "b1" 60) row (seconds 900)
      (run_at "b1" 1100 ∷ run_at "b1" 1300 ∷ []) rebooted floor_held sent_new (refl, (refl, tt))

notes-Distinct_example : Distinct (notes none (run_at "b1" 60 ∷ run_at "b1" 1120 ∷ []))
notes-Distinct_example =
    notes-Distinct none (some "b1") (run_at "b1" 60 ∷ run_at "b1" 1120 ∷ []) (refl, (refl, tt))

-- A job that used one millisecond of CPU time in eleven minutes.
abbrev point : ℕ → ℕ → Point
point minutes cpu_ms = record {
  awake = seconds (60 * minutes);
  footprint = 2000000000;
  cpu = some (cpu_ms * 1000000);
}

abbrev newest_point : Point
newest_point = point 12 5001

abbrev next_point : Point
next_point = point 6 5000

abbrev older_points : List Point
older_points = point 1 5000 ∷ point 0 100 ∷ []

idle_found : (series_stats (newest_point ∷ next_point ∷ older_points)).idle_s ≡ some 660
unfolding series_stats idle_from is_break idle_of
idle_found = refl

series_stats-Quiet_example :
    (from : Point) × Memᴰ from (next_point ∷ older_points)
    × Quiet from newest_point
    × (from.awake + seconds 600 ≤ newest_point.awake)
    × (600 ≤ 660)
series_stats-Quiet_example =
    series_stats-Quiet newest_point next_point older_points {idle = 660} idle_found (omega arith)
