-- ===== src/Runner/Decide/Admits.antt =====
-- What an admission proves: the memory is there, the reading is fresh and the window is open.
use claude_memmon.Prelude.{
  ℕ, ◌+◌, ◌*◌, ◌≤◌, ◌<◌, String, true, false, Option, none, some, ◌≡◌, refl, arith, not, ◌||◌,
  is_some,
}
use claude_memmon.Telemetry.Reading.{Reading}
use claude_memmon.Telemetry.Cache.{State, Verdict, note_clocks}
use claude_memmon.Telemetry.Cache.Verdicts.{Accepts, strict_verdict-Accepts}
use claude_memmon.Telemetry.Recovery.{Recovery, is_good, recovery}
use claude_memmon.Runner.Estimate.{Estimate}
use claude_memmon.Runner.Jobs.{start_job}
use claude_memmon.Runner.Committed.{Committed, committed}
use claude_memmon.Runner.Committed.Slack.{records_of, slack_of-start_job}
use claude_memmon.Runner.Decide.{
  AdmissionState, Sensors, load_state, sampled, committed_now, within_budget, judge, decide,
}

within_budget-admit :
    (est : ℕ) (c : Option Committed)
    → (within_budget est c).admit ≡ true
    → (k : Committed) × (c ≡ some k) × (k.free.fall ≡ 0) × (est ≤ k.free.rise)
unfolding within_budget
within_budget-admit est none h = absurd (ground arith)
within_budget-admit est (some k) h = (k, refl, ground arith, ground arith)

-- All four tests of the chain passed.
record Passed (v : Verdict) (rec : Recovery) (est : ℕ) (c : Option Committed) : Type 0 where
  ok : v.ok ≡ true
  good : is_good v ≡ true
  open_window : rec.is_open ≡ true
  fits : (within_budget est c).admit ≡ true

judge-Passed :
    (v : Verdict) (rec : Recovery) (est : ℕ) (c : Option Committed)
    → (judge v rec est c).admit ≡ true
    → Passed v rec est c
unfolding judge
judge-Passed v rec est c h = ground arith

-- `t` lies more than `window` before `now`, where it is there at all.
abbrev pub LongBefore : Option ℕ → ℕ → ℕ → Type 0
LongBefore none window now = Unit
LongBefore (some t) window now = t + window < now

open-LongBefore :
    (s : State) (now window : ℕ)
    → (recovery s now window).is_open ≡ true
    → LongBefore s.last_bad_mono window now
unfolding recovery
open-LongBefore s now window h = ground arith

-- What is known when a job is admitted.
pub record Admission (stored : Option AdmissionState) (io : Sensors) (run_id : String)
    (window est : ℕ) : Type 0 where
  pub reading : Reading
  pub taken : io.reading ≡ some reading
  pub accepted :
      Accepts (note_clocks (load_state stored io.boot).cache io.mono io.awake) reading io.now
  pub quiet :
      LongBefore (sampled (load_state stored io.boot).cache io).0.last_bad_mono window io.now
  pub total : Committed
  pub counted : committed_now io run_id ≡ some total
  pub fits : total.used + total.slack + est ≤ total.limit

committed_now-total :
    (io : Sensors) (run_id : String) (c : Committed)
    → committed_now io run_id ≡ some c
    → c.free.fall ≡ 0
    → (est : ℕ) → est ≤ c.free.rise
    → c.used + c.slack + est ≤ c.limit
unfolding committed_now committed
committed_now-total io run_id c h fall est rise = ground arith

sampled-ok :
    (s : State) (io : Sensors)
    → (sampled s io).1.ok ≡ true
    → (r : Reading) × (io.reading ≡ some r) × Accepts (note_clocks s io.mono io.awake) r io.now
unfolding sampled
sampled-ok s io h =
    strict_verdict-Accepts (note_clocks s io.mono io.awake) io.reading io.now io.error h

-- A job is admitted only on a fresh reading of this boot that is newer than the last wake, when no
-- bad sample lies within the recovery window, and when what is in use, what the other admitted
-- jobs have still reserved and the estimate fit under the limit together.
pub decide-Admission :
    (stored : Option AdmissionState) (io : Sensors) (run_id : String) (window : ℕ) (est : Estimate)
    → (decide stored io run_id window est).0.admit ≡ true
    → Admission stored io run_id window est.bytes
unfolding decide
decide-Admission stored io run_id window est h =
    let s = (load_state stored io.boot).cache in
    let (cache, v) = sampled s io in
    let c = committed_now io run_id in
    let passed = judge-Passed v (recovery cache io.now window) est.bytes c h in
    let (r, taken, accepted) = sampled-ok s io passed.ok in
    let (k, counted, fall, rise) = within_budget-admit est.bytes c passed.fits in
    record {
      reading = r;
      taken = taken;
      accepted = accepted;
      quiet = open-LongBefore cache io.now window passed.open_window;
      total = k;
      counted = counted;
      fits = committed_now-total io run_id k counted fall est.bytes rise;
    }

total-start_job :
    (io : Sensors) (run_id : String) (r : Reading) (c : Committed) (est : ℕ)
    → io.reading ≡ some r
    → committed_now io run_id ≡ some c
    → c.used + c.slack + est ≤ c.limit
    → records_of run_id io.rows ≤ 1
    → (committed
        (start_job run_id est io.rows)
        r.used_bytes
        r.ram_total
        io.frac
        io.scans
        (not (is_some io.scans.before) || not (is_some io.scans.after))
        none).over
      ≡ false
unfolding committed_now committed
total-start_job io run_id r c est taken counted fits once =
    let blind = not (is_some io.scans.before) || not (is_some io.scans.after) in
    let more = slack_of-start_job run_id est io.rows io.scans blind in
    let few : est * records_of run_id io.rows ≤ est = grind arith in ground (arith, more, few)

-- Admission keeps the limit: when the job that was admitted is counted too, with its estimate as
-- its reservation, by the same reading and the same process tables, what is committed is still
-- not over the limit. Run ids are unique, so at most one record carries the job's id.
pub decide_keeps_limit :
    (stored : Option AdmissionState) (io : Sensors) (run_id : String) (window : ℕ) (est : Estimate)
    → (decide stored io run_id window est).0.admit ≡ true
    → records_of run_id io.rows ≤ 1
    → (r : Reading) × (io.reading ≡ some r)
      × ((committed
            (start_job run_id est.bytes io.rows)
            r.used_bytes
            r.ram_total
            io.frac
            io.scans
            (not (is_some io.scans.before) || not (is_some io.scans.after))
            none).over
          ≡ false)
decide_keeps_limit stored io run_id window est h once =
    let a = decide-Admission stored io run_id window est h in
    (
      a.reading,
      a.taken,
      total-start_job io run_id a.reading a.total est.bytes a.taken a.counted a.fits once,
    )
