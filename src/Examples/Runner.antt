-- ===== src/Examples/Runner.antt =====
-- memmon_runner.py: an idle machine with 16 GiB, one running job and one that waits.
use claude_memmon.Prelude.{
  ℕ, ◌≤◌, ◌<◌, String, Bool, true, false, Option, some, none, [], ◌∷◌, ◌≡◌, refl, arith, All, ◌⊎◌,
  keep, length, not, Memᴰ, ◌++◌, str_eq,
}
use claude_memmon.Telemetry.Units.{seconds, recovery_s}
use claude_memmon.Telemetry.Reading.{normal, Reading, counters}
use claude_memmon.Telemetry.Rates.{rates_between}
use claude_memmon.Telemetry.Score.{
  score, total_points, level_of, swap_points, thrash_points, free_points, growth_points,
  load_points, headroom, streak_after,
}
use claude_memmon.Telemetry.Cache.{
  fresh_state, note_clocks, woke, strict_verdict, from_baselines, with_baseline, reseed_free,
  is_stale, conclude, adopt, free_trend,
}
use claude_memmon.Telemetry.Recovery.{is_good, apply_hysteresis, restarts, recovery}
use claude_memmon.Runner.Jobs.{RunState, running, waiting, Job, child_of, start_job, reservation_of}
use claude_memmon.Runner.Committed.{committed, slack_of, measured, limit_of}
use claude_memmon.Runner.Committed.Slack.{records_of}
use claude_memmon.Runner.Footprint.{tree_footprint}
use claude_memmon.Runner.Estimate.{
  Estimate, Confidence, PeakRow, Peaks, peaks_keep, peaks_of, last, lookup, spacing, half_even,
  times_margin, estimate_for, record_peak,
}
use claude_memmon.Runner.Estimate.Kept.{estimate_for-record_peak}
use claude_memmon.Runner.Estimate.Bounded.{IsBounded, record_peak_bounds}
use claude_memmon.Runner.Decide.{
  AdmissionState, Sensors, load_state, sample_mono, sampled, committed_now, judge, within_budget,
  decide,
}
use claude_memmon.Runner.Decide.Admits.{Admission, decide-Admission, decide_keeps_limit}
use claude_memmon.Runner.Queue.{
  queue_max, Ticket, Queue, candidate, tickets, sort_tickets, insert_ticket, comes_first,
  first_free, take_ticket,
}
use claude_memmon.Runner.Queue.Turn.{candidate-oldest}
use claude_memmon.Runner.Queue.Numbers.{IsQueue, Published, take_ticket-IsQueue}

abbrev pub idle : ℕ → Reading
idle mono = record {
  pressure_level = normal;
  free_pct = 60;
  ram_total = 17179869184;
  swap_total = 0;
  swap_used = 0;
  load = 2048;
  ncpu = 8;
  boot = some "b1";
  swapins = 0;
  swapouts = 0;
  page_size = 16384;
  used_bytes = 4294967296;
  mono = mono;
}

-- The window has been open since the fiftieth second.
abbrev pub stored : AdmissionState
stored = record {
  cache = record (fresh_state (some "b1")) {
    last_good_mono = some (seconds 98);
    recovery_start_mono = some (seconds 50);
    rate_baseline = some (counters (idle (seconds 90)));
    free_baseline = some (counters (idle (seconds 90)));
  };
  committed = none;
  hold = none;
}

abbrev job : String → RunState → Option ℕ → Job
job id state reserved = record {
  id = id;
  resource = id;
  state = state;
  child = none;
  child_pid = none;
  child_start = none;
  reservation_bytes = reserved;
  footprint_bytes = none;
  footprint_ts = none;
}

abbrev pub sensors : Sensors
sensors = record {
  boot = some "b1";
  mono = seconds 99;
  awake = seconds 99;
  rows = job "r1" running (some 1000000000) ∷ job "r2" waiting none ∷ [];
  scans = record { before = some []; after = some [] };
  reading = some (idle (seconds 100));
  error = none;
  now = seconds 101;
  frac = record { num = 20; den = 100 };
  wall = 1700000000;
}

abbrev pub wanted : Estimate
wanted = record { bytes = 2000000000; confidence = Confidence.reserved; samples = none }

pub admitted : (decide (some stored) sensors "r2" recovery_s wanted).0.admit ≡ true
unfolding decide load_state sampled note_clocks woke strict_verdict from_baselines with_baseline
    reseed_free is_stale conclude adopt free_trend rates_between counters fresh_state score
    total_points level_of swap_points thrash_points free_points growth_points load_points headroom
    streak_after is_good apply_hysteresis restarts recovery sample_mono committed_now committed
    slack_of measured limit_of reservation_of child_of tree_footprint judge within_budget
admitted = refl

decide-Admission_example : Admission (some stored) sensors "r2" recovery_s 2000000000
decide-Admission_example = decide-Admission (some stored) sensors "r2" recovery_s wanted admitted

one_record : records_of "r2" sensors.rows ≤ 1
unfolding records_of
one_record = omega arith

decide_keeps_limit_example :
    (r : Reading) × (some (idle (seconds 100)) ≡ some r)
    × ((committed
          (start_job "r2" 2000000000 sensors.rows)
          r.used_bytes
          r.ram_total
          sensors.frac
          sensors.scans
          false
          none).over
        ≡ false)
decide_keeps_limit_example =
    decide_keeps_limit (some stored) sensors "r2" recovery_s wanted admitted one_record

abbrev peaks : Peaks
peaks = ("npm test", record { peaks = 3000000000 ∷ []; used = 5 }) ∷ []

estimate_for-record_peak_example :
    (row : PeakRow) × (lookup "npm test" (record_peak "npm test" 8000000000 9 peaks) ≡ some row)
    × (row.used ≡ 9)
    × Memᴰ 8000000000 row.peaks
    × (row.peaks ≡ last peaks_keep (peaks_of (lookup "npm test" peaks) ++ 8000000000 ∷ []))
    × (8000000000
        ≤ (estimate_for (record_peak "npm test" 8000000000 9 peaks) "npm test" none).bytes)
estimate_for-record_peak_example =
    estimate_for-record_peak "npm test" 8000000000 9 peaks (omega arith, tt)

-- The float product is below 115.
below : times_margin 100 ≡ 114
unfolding times_margin spacing half_even
below = refl

record_peak_bounds_example :
    (length (record_peak "npm test" 8000000000 9 peaks) ≤ 200)
    × IsBounded (record_peak "npm test" 8000000000 9 peaks)
record_peak_bounds_example = record_peak_bounds "npm test" 8000000000 9 peaks (omega arith, tt)

abbrev ticket : ℕ → String → String → Ticket
ticket seq run_id resource = record { seq = seq; run_id = run_id; resource = resource; live = true }

abbrev queue : Queue
queue = record {
  files = ticket 5 "b" "gpu" ∷ ticket 4 "a" "cpu" ∷ ticket 3 "c" "disk" ∷ [];
  seq = some 5;
}

abbrev all_le : String → String → Bool
all_le a b = true

-- The disk is held.
abbrev free : String → Bool
free resource = not (str_eq resource "disk")

cpu_first : (candidate all_le free queue).0 ≡ some (2, "a")
unfolding candidate tickets sort_tickets insert_ticket comes_first first_free
cpu_first = refl

candidate-oldest_example :
    (t : Ticket) × Memᴰ t (keep (λ u. u.live) queue.files)
    × (t.run_id ≡ "a")
    × (free t.resource ≡ true)
    × All (λ u. (free u.resource ≡ false) ⊎ (t.seq ≤ u.seq)) (keep (λ u. u.live) queue.files)
candidate-oldest_example = candidate-oldest all_le free queue cpu_first

queue-IsQueue : IsQueue queue
queue-IsQueue = record {
  bounded = omega arith;
  numbered = (omega arith, (omega arith, (omega arith, tt)));
}

take_ticket-IsQueue_example :
    let (q', taken) = take_ticket "d" "cpu" queue in
    IsQueue q'
    × ((taken ≡ false) × (queue_max ≤ length (keep (λ t. t.live) queue.files))
        ⊎ (taken ≡ true)
          × (length (keep (λ t. t.live) queue.files) < queue_max)
          × Published "d" "cpu" q')
take_ticket-IsQueue_example = take_ticket-IsQueue "d" "cpu" queue queue-IsQueue
