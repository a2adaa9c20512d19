-- ===== src/Act/Engine/Clock.antt =====
-- The clock of the readings.
use claude_memmon.Prelude.{ℕ, zero, suc, ◌≤◌, ◌<◌, ◌≡◌, inl, inr, arith, Bool-cases, leb}
use claude_memmon.Act.Engine.{World}

-- Every reading comes later than the one before it.
abbrev pub Advances : World → Type 0
Advances w = (n : ℕ) → w.mono n < w.mono (suc n)

pub mono-le : (w : World) → Advances w → (n m : ℕ) → n ≤ m → w.mono n ≤ w.mono m
mono-le w a n zero h = let eq : n ≡ zero = omega arith in rw eq (omega arith)
mono-le w a n (suc m) h = elim (Bool-cases (leb n m)) [
  | inl le ↦ omega (arith, mono-le w a n m (ground arith), a m)
  | inr gt ↦ let eq : n ≡ suc m = ground arith in rw eq (omega arith)
]
