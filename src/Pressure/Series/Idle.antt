-- ===== src/Pressure/Series/Idle.antt =====
-- What a reported idle time says of the CPU time behind it.
use claude_memmon.Prelude.{
  Memᴰ, ℕ, ◌+◌, ◌-◌, ◌*◌, ◌≤◌, ◌<◌, false, some, List, [], ◌∷◌, ◌≡◌, refl, arith, Bool-cases,
  Option-cases, inl, inr, ◌⊎◌,
}
use claude_memmon.Telemetry.Units.{seconds}
use claude_memmon.Pressure.Series.{Point, is_break, idle_from, idle_of, series_stats}

-- From `start` to `p` less than 2 % of a core was used, with the CPU time known at both ends.
pub record Quiet (start p : Point) : Type 0 where
  pub before : ℕ
  pub after : ℕ
  pub before_eq : start.cpu ≡ some before
  pub after_eq : p.cpu ≡ some after
  pub earlier : start.awake < p.awake
  pub counts : before ≤ after
  pub little : 50 * (after - before) < p.awake - start.awake

step-Quiet : (a b : Point) → is_break a b ≡ false → Quiet a b
unfolding is_break
step-Quiet a b h = elim (Option-cases a.cpu) [
  | inl unread ↦ absurd (ground arith)
  | inr (before, e) ↦ elim (Option-cases b.cpu) [
    | inl unread ↦ absurd (ground arith)
    | inr (after, k) ↦ record {
      before = before;
      after = after;
      before_eq = e;
      after_eq = k;
      earlier = ground arith;
      counts = ground arith;
      little = ground arith;
    }
  ]
]

idle_from-Quiet :
    (p : Point) (older : List Point)
    → (idle_from p older ≡ p) ⊎ Quiet (idle_from p older) p × Memᴰ (idle_from p older) older
unfolding idle_from
idle_from-Quiet p [] = inl refl
idle_from-Quiet p (a ∷ older) = elim (Bool-cases (is_break a p)) [
  | inl stop ↦ inl (rw stop refl)
  | inr more ↦
      let near = step-Quiet a p more in
      rw more (elim (idle_from-Quiet a older) [
        | inl same ↦ inr (rw same near, Memᴰ.head same)
        | inr (far, there) ↦
            let joined : far.after ≡ near.before = ground (arith, far.after_eq, near.before_eq) in
            let x = far.earlier in
            let y = far.counts in
            let z = far.little in
            let u = near.earlier in
            let v = near.counts in
            let w = near.little in
            inr (
              (record {
                before = far.before;
                after = near.after;
                before_eq = far.before_eq;
                after_eq = near.after_eq;
                earlier = omega arith;
                counts = omega arith;
                little = omega arith;
              }),
              Memᴰ.tail there,
            )
      ])
]

-- A job that is reported as idle has been so for at least 600 seconds awake: there is an earlier
-- point of its series, at least that old, since which it used less than 2 % of one core in all.
pub series_stats-Quiet :
    (p q : Point) (older : List Point) {idle : ℕ}
    → (series_stats (p ∷ q ∷ older)).idle_s ≡ some idle
    → 0 < idle
    → (start : Point) × Memᴰ start (q ∷ older)
      × Quiet start p
      × (start.awake + seconds 600 ≤ p.awake)
      × (600 ≤ idle)
unfolding series_stats idle_of
series_stats-Quiet p q older h some_idle = elim (idle_from-Quiet p (q ∷ older)) [
  | inl same ↦ absurd (ground arith)
  | inr (quiet, there) ↦
      (idle_from p (q ∷ older), there, quiet, ground (arith, quiet.earlier), ground arith)
]
