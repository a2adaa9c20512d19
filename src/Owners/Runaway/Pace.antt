-- ===== src/Owners/Runaway/Pace.antt =====
-- What a streak says of the growth behind it.
use claude_memmon.Prelude.{
  ◌+◌, ◌-◌, ◌*◌, ◌≤◌, ◌<◌, true, some, List, [], ◌∷◌, ◌≡◌, arith, Bool-cases, inl, inr, ◌==◌,
}
use claude_memmon.Telemetry.Units.{seconds}
use claude_memmon.Owners.Runaway.{
  max_gap_s, runaway_rate, Sample, is_growing, Streak, streak_from, runaway_streak,
}

-- The growth from the start of the streak to the newest sample.
pub record Grown (s : Sample) (run : Streak) : Type 0 where
  pub earlier : run.since_ts ≤ s.ts
  pub larger : run.since_bytes ≤ s.bytes
  pub no_gap : s.ts ≤ run.since_ts + run.intervals * max_gap_s
  pub rate : runaway_rate * (s.ts - run.since_ts) ≤ (s.bytes - run.since_bytes) * seconds 60

growing :
    (older newer : Sample)
    → is_growing older newer ≡ true
    → (older.ts < newer.ts)
      × (newer.ts ≤ older.ts + max_gap_s)
      × (runaway_rate * (newer.ts - older.ts) ≤ (newer.bytes - older.bytes) * seconds 60)
unfolding is_growing
growing older newer h = ground arith

streak_from-Grown : (s : Sample) (rest : List Sample) → Grown s (streak_from s rest)
unfolding streak_from
streak_from-Grown s [] = record {
  earlier = omega arith;
  larger = omega arith;
  no_gap = omega arith;
  rate = omega arith;
}
streak_from-Grown s (older ∷ rest) = elim (Bool-cases (is_growing older s)) [
  | inl more ↦
      let ih = streak_from-Grown older rest in
      let (later, near, fast) = growing older s more in
      let a = ih.earlier in
      let b = ih.larger in
      let c = ih.no_gap in
      let d = ih.rate in
      rw more (record {
        earlier = omega arith;
        larger = omega arith;
        no_gap = omega arith;
        rate = omega arith;
      })
  | inr less ↦ rw less (record {
    earlier = omega arith;
    larger = omega arith;
    no_gap = omega arith;
    rate = omega arith;
  })
]

-- A streak that is reported has at least one interval, began at most 180 seconds per interval
-- before the newest sample, and from its start to the newest sample the owner grew by at least
-- 1 GiB for every minute.
pub runaway_streak-Grown :
    (s : Sample) (rest : List Sample) {run : Streak}
    → runaway_streak (s ∷ rest) ≡ some run
    → (1 ≤ run.intervals) × Grown s run
unfolding runaway_streak
runaway_streak-Grown s rest {run} h = elim (Bool-cases ((streak_from s rest).intervals == 0)) [
  | inl zero_length ↦ absurd (ground arith)
  | inr long ↦ ground (arith, streak_from-Grown s rest)
]
