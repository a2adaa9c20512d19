-- ===== src/Gate/Answers.antt =====
-- When the gate blocks, warns or allows, and which holders it names.
use claude_memmon.Prelude.{ℕ, ◌≤◌, String, Bool, true, ◌≡◌, ◌↔◌, ◌⊎◌, arith, str_eq}
use claude_memmon.Telemetry.Score.{Level, danger, critical}
use claude_memmon.Telemetry.Score.Order.{severity}
use claude_memmon.Gate.{
  GateMode, mode_block_critical, mode_block, mode_warn, mode_off, Action, allow, warn, block,
  Classification, Pressure, Cached, blocks_at, gate_decision,
}

-- The mode and the level that a block takes.
abbrev pub Blocks : GateMode → Level → Type 0
Blocks mode_block_critical level = level ≡ critical
Blocks mode_block level = (level ≡ critical) ⊎ (level ≡ danger)
Blocks mode_warn level = ⊥
Blocks mode_off level = ⊥

-- A command is blocked exactly when it is a Bash command that was recognised and may be blocked,
-- and the level is CRITICAL in a blocking mode, or DANGER in the mode that blocks there too: a
-- reading that is unknown or healthy never blocks, and neither do the modes warn and off.
pub gate_decision-Blocks :
    (is_build : String → Bool) (enabled : Bool) (tool : String) (c : Classification)
    (pres : Pressure) (cached : Cached) (mode : GateMode) (now : ℕ)
    → ((gate_decision is_build enabled tool c pres cached mode now).0 ≡ block) ↔ (
        (str_eq tool "Bash" ≡ true)
        × (c.matched ≡ true)
        × (c.block_eligible ≡ true)
        × Blocks mode pres.level)
unfolding gate_decision blocks_at
gate_decision-Blocks is_build enabled tool c pres cached mode now =
    ((λ h. ground arith), λ h. ground arith)

abbrev pub strictness : Action → ℕ
strictness allow = 0
strictness warn = 1
strictness block = 2

abbrev pub rank : GateMode → ℕ
rank mode_off = 0
rank mode_warn = 1
rank mode_block_critical = 2
rank mode_block = 3

-- For the same command, a worse level or a stricter mode never gets a milder answer, whatever the
-- rest of the reading and the sampler's row say.
pub gate_decision_mono :
    (is_build : String → Bool) (enabled enabled' : Bool) (tool : String) (c : Classification)
    (pres pres' : Pressure) (cached cached' : Cached) (mode mode' : GateMode) (now now' : ℕ)
    → severity pres.level ≤ severity pres'.level
    → rank mode ≤ rank mode'
    → strictness (gate_decision is_build enabled tool c pres cached mode now).0
      ≤ strictness (gate_decision is_build enabled' tool c pres' cached' mode' now').0
unfolding gate_decision blocks_at
gate_decision_mono is_build enabled enabled' tool c pres pres' cached cached' mode mode' now now'
      worse stricter =
    ground arith
