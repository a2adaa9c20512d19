-- ===== src/Examples/Gate.antt =====
-- memmon.py: a build while a browser holds the memory.
use claude_memmon.Prelude.{
  String, Bool, true, false, some, none, [], ◌∷◌, ◌≡◌, ◌↔◌, ◌≤◌, arith, str_eq,
}
use claude_memmon.Telemetry.Score.{Level, swap_ratio}
use claude_memmon.Gate.{
  mode_block_critical, mode_block, block, Classification, Pressure, app, Holder, Cached,
  gate_decision,
}
use claude_memmon.Gate.Answers.{Blocks, strictness, gate_decision-Blocks, gate_decision_mono}

abbrev builds : String → Bool
builds tag = str_eq tag "tsc"

abbrev heavy : Classification
heavy = record { matched = true; block_eligible = true }

abbrev at : Level → Pressure
at level = record { level = level; reasons = swap_ratio ∷ []; headroom_min = none }

abbrev browser : Holder
browser = record { name = "Safari"; mem = 6000000000; tag = "Safari"; kind = app }

abbrev row : Cached
row = record {
  worktrees = [];
  apps = browser ∷ [];
  under_pressure = true;
  suggestions_ts = none;
  ts = some 0;
  pressure_suggestions = "vitest" ∷ [];
}

gate_decision-Blocks_example :
    ((gate_decision builds true "Bash" heavy (at Level.danger) row mode_block 0).0 ≡ block) ↔ (
      (str_eq "Bash" "Bash" ≡ true)
      × (true ≡ true)
      × (true ≡ true)
      × Blocks mode_block Level.danger)
gate_decision-Blocks_example =
    gate_decision-Blocks builds true "Bash" heavy (at Level.danger) row mode_block 0

gate_decision_mono_example :
    strictness (gate_decision builds true "Bash" heavy (at Level.watch) row mode_block_critical 0).0
    ≤ strictness (gate_decision builds false "Bash" heavy (at Level.danger) row mode_block 9).0
gate_decision_mono_example =
    gate_decision_mono builds true false "Bash" heavy (at Level.watch) (at Level.danger) row row
      mode_block_critical mode_block 0 9 (omega arith) (omega arith)
