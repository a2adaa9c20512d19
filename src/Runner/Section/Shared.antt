-- ===== src/Runner/Section/Shared.antt =====
-- admission-state.json under any interleaving of the critical sections of all runners.
use claude_memmon.Prelude.{ℕ, String, Bool, Option, none, some, arith, Bool-cases, inl, inr}
use claude_memmon.Telemetry.Reading.{same_boot}
use claude_memmon.Telemetry.Cache.{State, fresh_state, note_clocks, strict_verdict}
use claude_memmon.Telemetry.Cache.Invariant.{
  IsConsistent, strict_verdict-IsConsistent, note_clocks-IsConsistent,
}
use claude_memmon.Telemetry.Recovery.{is_good, apply_hysteresis}
use claude_memmon.Runner.Estimate.{Estimate}
use claude_memmon.Runner.Decide.{AdmissionState, Sensors, load_state, sample_mono, sampled, decide}
use claude_memmon.Runner.Monitor.{Monitored}
use claude_memmon.Runner.Section.{TickSensors, Wrapper, tick_section, runner_tick}

-- One critical section of some runner: an admission or a tick, or the loss of the file.
pub data Step : Option AdmissionState → Option AdmissionState → Type 0 where
  admission :
      {stored : Option AdmissionState}
      → (io : Sensors) (run_id : String) (window : ℕ) (est : Estimate)
      → Step stored (some (decide stored io run_id window est).2)
  monitoring :
      {stored : Option AdmissionState}
      → (w : Wrapper) (io : Option TickSensors) (r : Monitored)
      → Step stored (runner_tick w stored io r).0
  lost : {stored : Option AdmissionState} → Step stored none

-- The contents of the file after any series of sections, from no file on.
pub data Reachable : Option AdmissionState → Type 0 where
  start : Reachable none
  next :
      {before after : Option AdmissionState}
      → Reachable before
      → Step before after
      → Reachable after

abbrev pub StoredConsistent : Option AdmissionState → Type 0
StoredConsistent none = Unit
StoredConsistent (some st) = IsConsistent st.cache

fresh_state-IsConsistent : (boot : Option String) → IsConsistent (fresh_state boot)
unfolding fresh_state
fresh_state-IsConsistent boot = record {
  rate_boot = tt;
  free_boot = tt;
  rates_span = tt;
  delta_span = tt;
}

apply_hysteresis-IsConsistent :
    (s : State) (good : Bool) (mono : ℕ)
    → IsConsistent s
    → IsConsistent (apply_hysteresis s good mono)
unfolding apply_hysteresis
apply_hysteresis-IsConsistent s good mono v = ground arith

load_state-IsConsistent :
    (stored : Option AdmissionState) (boot : Option String)
    → StoredConsistent stored
    → IsConsistent (load_state stored boot).cache
unfolding load_state
load_state-IsConsistent none boot v = fresh_state-IsConsistent boot
load_state-IsConsistent (some st) boot v = elim (Bool-cases (same_boot st.cache.boot_id boot)) [
  | inl same ↦ rw same v
  | inr other ↦ rw other (fresh_state-IsConsistent boot)
]

sampled-IsConsistent : (s : State) (io : Sensors) → IsConsistent s → IsConsistent (sampled s io).0
unfolding sampled
sampled-IsConsistent s io v =
    let s1 = note_clocks s io.mono io.awake in
    let (s2, verdict) = strict_verdict s1 io.reading io.now io.error in
    apply_hysteresis-IsConsistent s2 (is_good verdict) (sample_mono verdict io.now) (
      strict_verdict-IsConsistent s1 io.reading io.now io.error
        (note_clocks-IsConsistent s io.mono io.awake v))

decide-IsConsistent :
    (stored : Option AdmissionState) (io : Sensors) (run_id : String) (window : ℕ) (est : Estimate)
    → StoredConsistent stored
    → IsConsistent (decide stored io run_id window est).2.cache
unfolding decide
decide-IsConsistent stored io run_id window est v =
    sampled-IsConsistent (load_state stored io.boot).cache io
      (load_state-IsConsistent stored io.boot v)

tick_section-IsConsistent :
    (w : Wrapper) (stored : Option AdmissionState) (io : TickSensors)
    → StoredConsistent stored
    → IsConsistent (tick_section w stored io).0.cache
unfolding tick_section
tick_section-IsConsistent w stored io v =
    let s1 = note_clocks (load_state stored io.boot).cache io.mono io.awake in
    let (s2, verdict) = strict_verdict s1 io.reading io.now io.error in
    apply_hysteresis-IsConsistent s2 (is_good verdict) (sample_mono verdict io.now) (
      strict_verdict-IsConsistent s1 io.reading io.now io.error (
        note_clocks-IsConsistent (load_state stored io.boot).cache io.mono io.awake
          (load_state-IsConsistent stored io.boot v)))

runner_tick-StoredConsistent :
    (w : Wrapper) (stored : Option AdmissionState) (io : Option TickSensors) (r : Monitored)
    → StoredConsistent stored
    → StoredConsistent (runner_tick w stored io r).0
unfolding runner_tick
runner_tick-StoredConsistent w stored none r v = v
runner_tick-StoredConsistent w stored (some io) r v = tick_section-IsConsistent w stored io v

Step-StoredConsistent :
    {before after : Option AdmissionState}
    → Step before after
    → StoredConsistent before
    → StoredConsistent after
Step-StoredConsistent {before} (admission io run_id window est) v =
    decide-IsConsistent before io run_id window est v
Step-StoredConsistent {before} (monitoring w io r) v = runner_tick-StoredConsistent w before io r v
Step-StoredConsistent lost v = tt

-- Whatever series of admissions and ticks of any runners the file has seen, losses of the file
-- included, its baselines are those of the boot that it is for, and the rates and the free trend
-- that it caches were measured over the spans that their use asks for.
pub Reachable-StoredConsistent :
    {stored : Option AdmissionState} → Reachable stored → StoredConsistent stored
Reachable-StoredConsistent start = tt
Reachable-StoredConsistent (next reached step) =
    Step-StoredConsistent step (Reachable-StoredConsistent reached)
