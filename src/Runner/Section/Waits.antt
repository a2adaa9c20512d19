-- ===== src/Runner/Section/Waits.antt =====
-- After a bad sample of any runner, every runner waits for the recovery window.
use claude_memmon.Prelude.{ℕ, String, Bool, true, false, Option, none, some, ◌≡◌, arith, ◌≤◌, ◌+◌}
use claude_memmon.Telemetry.Reading.{Reading}
use claude_memmon.Telemetry.Cache.{
  State, fresh_state, note_clocks, strict_verdict, seed, conclude, adopt, with_baseline,
  from_baselines,
}
use claude_memmon.Telemetry.Recovery.{is_good, apply_hysteresis, recovery}
use claude_memmon.Runner.Estimate.{Estimate}
use claude_memmon.Runner.Decide.{
  AdmissionState, Sensors, load_state, sample_mono, sampled, judge, decide,
}
use claude_memmon.Runner.Monitor.{Monitored}
use claude_memmon.Runner.Section.{TickSensors, Wrapper, tick_section, runner_tick}

-- The reading, where there is one, was taken at `t` or later.
abbrev pub TakenSince : ℕ → Option Reading → Type 0
TakenSince t none = Unit
TakenSince t (some r) = t ≤ r.mono

-- No window that started before `t` is open.
abbrev StartedSince : ℕ → Option ℕ → Type 0
StartedSince t none = Unit
StartedSince t (some start) = t ≤ start

abbrev HeldSince : ℕ → Option AdmissionState → Type 0
HeldSince t none = Unit
HeldSince t (some st) = StartedSince t st.cache.recovery_start_mono

note_clocks-Started :
    (t : ℕ) (s : State) (mono awake : ℕ)
    → StartedSince t s.recovery_start_mono
    → StartedSince t (note_clocks s mono awake).recovery_start_mono
unfolding note_clocks
note_clocks-Started t s mono awake h = ground arith

with_baseline-start :
    (s : State) (r : Reading) (now : ℕ)
    → (from_baselines s r now).0.recovery_start_mono ≡ s.recovery_start_mono
unfolding from_baselines with_baseline conclude adopt
with_baseline-start s r now = ground arith

strict_verdict-Started :
    (t : ℕ) (s : State) (reading : Option Reading) (now : ℕ) (error : Option String)
    → StartedSince t s.recovery_start_mono
    → StartedSince t (strict_verdict s reading now error).0.recovery_start_mono
unfolding strict_verdict seed fresh_state
strict_verdict-Started t s none now error h = h
strict_verdict-Started t s (some r) now error h = ground (arith, with_baseline-start s r now)

-- The verdict carries the time of its reading.
from_baselines-mono :
    (s : State) (r : Reading) (now : ℕ) → (from_baselines s r now).1.mono ≡ some r.mono
unfolding from_baselines with_baseline conclude
from_baselines-mono s r now = ground arith

sample_since :
    (t : ℕ) (s : State) (reading : Option Reading) (now : ℕ) (error : Option String)
    → TakenSince t reading
    → t ≤ now
    → t ≤ sample_mono (strict_verdict s reading now error).1 now
unfolding strict_verdict sample_mono
sample_since t s none now error taken h = h
sample_since t s (some r) now error taken h = ground (arith, from_baselines-mono s r now)

apply_hysteresis-Started :
    (t : ℕ) (s : State) (good : Bool) (mono : ℕ)
    → t ≤ mono
    → StartedSince t s.recovery_start_mono
    → StartedSince t (apply_hysteresis s good mono).recovery_start_mono
unfolding apply_hysteresis
apply_hysteresis-Started t s good mono later h = ground arith

load_state-Started :
    (t : ℕ) (stored : Option AdmissionState) (boot : Option String)
    → HeldSince t stored
    → StartedSince t (load_state stored boot).cache.recovery_start_mono
unfolding load_state fresh_state
load_state-Started t none boot h = tt
load_state-Started t (some st) boot h = ground arith

sampled-Started :
    (t : ℕ) (s : State) (io : Sensors)
    → TakenSince t io.reading
    → t ≤ io.now
    → StartedSince t s.recovery_start_mono
    → StartedSince t (sampled s io).0.recovery_start_mono
unfolding sampled
sampled-Started t s io taken later h =
    let s1 = note_clocks s io.mono io.awake in
    let (s2, v) = strict_verdict s1 io.reading io.now io.error in
    apply_hysteresis-Started t s2 (is_good v) (sample_mono v io.now)
      (sample_since t s1 io.reading io.now io.error taken later)
      (strict_verdict-Started t s1 io.reading io.now io.error
        (note_clocks-Started t s io.mono io.awake h))

tick_section-Started :
    (t : ℕ) (w : Wrapper) (stored : Option AdmissionState) (io : TickSensors)
    → TakenSince t io.reading
    → t ≤ io.now
    → HeldSince t stored
    → StartedSince t (tick_section w stored io).0.cache.recovery_start_mono
unfolding tick_section
tick_section-Started t w stored io taken later h =
    let s = (load_state stored io.boot).cache in
    let s1 = note_clocks s io.mono io.awake in
    let (s2, v) = strict_verdict s1 io.reading io.now io.error in
    apply_hysteresis-Started t s2 (is_good v) (sample_mono v io.now)
      (sample_since t s1 io.reading io.now io.error taken later)
      (strict_verdict-Started t s1 io.reading io.now io.error
        (note_clocks-Started t s io.mono io.awake (load_state-Started t stored io.boot h)))

bad_sample-none :
    (s : State) (good : Bool) (mono : ℕ)
    → good ≡ false
    → (apply_hysteresis s good mono).recovery_start_mono ≡ none
unfolding apply_hysteresis
bad_sample-none s good mono bad = ground arith

Started-none : (t : ℕ) (start : Option ℕ) → start ≡ none → StartedSince t start
Started-none t none h = tt
Started-none t (some start) h = absurd (ground arith)

-- The file after a section of some runner whose verdict was not good, and after any sections that
-- followed it, the file lost or not, whose readings and clocks are not earlier than `t`.
pub data Waiting (t : ℕ) : Option AdmissionState → Type 0 where
  bad_admission :
      (stored : Option AdmissionState)
      → (io : Sensors) (run_id : String) (window : ℕ) (est : Estimate)
      → is_good (sampled (load_state stored io.boot).cache io).1 ≡ false
      → Waiting t (some (decide stored io run_id window est).2)
  bad_tick :
      (stored : Option AdmissionState)
      → (w : Wrapper) (io : TickSensors) (r : Monitored)
      → is_good (tick_section w stored io).1.verdict ≡ false
      → Waiting t (runner_tick w stored (some io) r).0
  admission :
      (stored : Option AdmissionState)
      → Waiting t stored
      → (io : Sensors) (run_id : String) (window : ℕ) (est : Estimate) → TakenSince t io.reading
      → t ≤ io.now
      → Waiting t (some (decide stored io run_id window est).2)
  monitoring :
      (stored : Option AdmissionState)
      → Waiting t stored
      → (w : Wrapper) (io : TickSensors) (r : Monitored) → TakenSince t io.reading
      → t ≤ io.now
      → Waiting t (runner_tick w stored (some io) r).0
  lost : (stored : Option AdmissionState) → Waiting t stored → Waiting t none

bad_sampled-Started :
    (t : ℕ) (s : State) (io : Sensors)
    → is_good (sampled s io).1 ≡ false
    → StartedSince t (sampled s io).0.recovery_start_mono
unfolding sampled
bad_sampled-Started t s io bad =
    let (s2, v) = strict_verdict (note_clocks s io.mono io.awake) io.reading io.now io.error in
    let s3 : State = apply_hysteresis s2 (is_good v) (sample_mono v io.now) in
    Started-none t s3.recovery_start_mono
      (bad_sample-none s2 (is_good v) (sample_mono v io.now) bad)

bad_section-Started :
    (t : ℕ) (w : Wrapper) (stored : Option AdmissionState) (io : TickSensors)
    → is_good (tick_section w stored io).1.verdict ≡ false
    → StartedSince t (tick_section w stored io).0.cache.recovery_start_mono
unfolding tick_section
bad_section-Started t w stored io bad =
    let s1 = note_clocks (load_state stored io.boot).cache io.mono io.awake in
    let (s2, v) = strict_verdict s1 io.reading io.now io.error in
    let s3 : State = apply_hysteresis s2 (is_good v) (sample_mono v io.now) in
    Started-none t s3.recovery_start_mono
      (bad_sample-none s2 (is_good v) (sample_mono v io.now) bad)

Waiting-Held : {t : ℕ} {stored : Option AdmissionState} → Waiting t stored → HeldSince t stored
unfolding decide runner_tick
Waiting-Held {t} (bad_admission stored io run_id window est bad) =
    bad_sampled-Started t (load_state stored io.boot).cache io bad
Waiting-Held {t} (bad_tick stored w io r bad) = bad_section-Started t w stored io bad
Waiting-Held {t} (admission stored before io run_id window est taken later) =
    sampled-Started t (load_state stored io.boot).cache io taken later
      (load_state-Started t stored io.boot (Waiting-Held before))
Waiting-Held {t} (monitoring stored before w io r taken later) =
    tick_section-Started t w stored io taken later (Waiting-Held before)
Waiting-Held (lost stored before) = tt

open_since :
    (t now window : ℕ) (s : State)
    → StartedSince t s.recovery_start_mono
    → (recovery s now window).is_open ≡ true
    → t + window ≤ now
unfolding recovery
open_since t now window s h opened = ground arith

admit-open :
    (stored : Option AdmissionState) (io : Sensors) (run_id : String) (window : ℕ) (est : Estimate)
    → (decide stored io run_id window est).0.admit ≡ true
    → (recovery (sampled (load_state stored io.boot).cache io).0 io.now window).is_open ≡ true
unfolding decide judge
admit-open stored io run_id window est h = ground arith

-- After a verdict that was not good, seen by an admission or a tick of any runner, no runner admits
-- a job before the whole recovery window has passed since `t`, whatever sections come in between
-- and in whatever order, and also when the file is lost meanwhile or the boot changes. `t` is a
-- time before which none of the later readings and clock values lies.
pub Waiting-admit :
    {t : ℕ} {stored : Option AdmissionState}
    → Waiting t stored
    → (io : Sensors) (run_id : String) (window : ℕ) (est : Estimate) → TakenSince t io.reading
    → t ≤ io.now
    → (decide stored io run_id window est).0.admit ≡ true
    → t + window ≤ io.now
Waiting-admit {t} {stored} waiting io run_id window est taken later h =
    let s = (load_state stored io.boot).cache in
    open_since t io.now window (sampled s io).0
      (sampled-Started t s io taken later
        (load_state-Started t stored io.boot (Waiting-Held waiting)))
      (admit-open stored io run_id window est h)
