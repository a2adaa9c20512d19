-- ===== src/Telemetry/Gap/Split.antt =====
-- A gap is split into time asleep and time awake.
use claude_memmon.Prelude.{
  ℕ, ◌+◌, ◌-◌, ◌*◌, ◌/◌, ◌%◌, ◌≤◌, ◌<◌, String, true, false, Option, some, ◌≡◌, ◌≢◌, ◌⊎◌, inl, inr,
  arith, Option-cases, Bool-cases, ltb, ◌==◌, ◌||◌, ◌&&◌, min, leb, refl, subst,
}
use claude_memmon.Telemetry.Units.{seconds, gap_s}
use claude_memmon.Telemetry.Reading.{same_boot}
use claude_memmon.Telemetry.Gap.{
  ClockRow, ClockReading, Gap, reboot, sleep, starved, tenth, round_tenth, split_gap, gap_after,
  gap_record, notifiable_gap,
}

-- The time awake between a row and a reading: by how much the uptime grew, at most the whole.
abbrev pub time_awake : ℕ → ℕ → ClockReading → ℕ
time_awake mono uptime cur = min (cur.mono - mono) (cur.uptime - uptime)

-- A reported duration is within 0.05 s of the exact one.
abbrev pub Near : ℕ → ℕ → Type 0
Near shown exact = (2 * shown ≤ 2 * exact + tenth) × (2 * exact ≤ 2 * shown + tenth)

-- A gap within one boot behind a row at `mono` and `uptime`, and what is reported of it.
pub record IsSplit (threshold mono uptime : ℕ) (cur : ClockReading) (gap : Gap) : Type 0 where
  pub total : ℕ
  pub asleep : ℕ
  pub awake : ℕ
  pub gap_eq : gap.gap_s ≡ some total
  pub asleep_eq : gap.asleep_s ≡ some asleep
  pub awake_eq : gap.awake_s ≡ some awake
  pub long : threshold < cur.mono - mono
  pub whole : Near total (cur.mono - mono)
  pub part : Near awake (time_awake mono uptime cur)
  pub sum_le : asleep + awake ≤ total + tenth
  pub sum_ge : total ≤ asleep + awake + tenth
  pub named_by :
      (gap.cause ≡ starved) × (threshold < time_awake mono uptime cur)
      ⊎ (gap.cause ≡ sleep) × (time_awake mono uptime cur ≤ threshold)

-- A rounded duration is a number of tenths, and near the exact one.
abbrev Rounded : ℕ → ℕ → Type 0
Rounded shown exact = (k : ℕ) × (shown ≡ k * tenth) × Near shown exact

round_tenth-Rounded : (n : ℕ) → Rounded (round_tenth n) n
unfolding round_tenth
round_tenth-Rounded n =
    let q = n / tenth in
    let r = n % tenth in
    elim (Bool-cases (ltb (2 * r) tenth || ((2 * r == tenth) && (q % 2 == 0)))) [
      | inl down ↦
          let small : 2 * r ≤ tenth = ground arith in rw down (q, refl, (omega arith, omega arith))
      | inr up ↦
          let large : tenth ≤ 2 * r = ground arith in
          rw up (q + 1, refl, (omega arith, omega arith))
    ]

-- Tenths of two parts and of their sum.
tenths_add :
    (x y z whole asleep awake : ℕ)
    → asleep + awake ≡ whole
    → Rounded x whole
    → Rounded y asleep
    → Rounded z awake
    → (y + z ≤ x + tenth) × (x ≤ y + z + tenth)
tenths_add x y z whole asleep awake parts (i, x_eq, near_x) (j, y_eq, near_y) (k, z_eq, near_z) =
    (omega arith, omega arith)

split_gap-IsSplit :
    (threshold mono uptime : ℕ) (cur : ClockReading)
    → threshold < cur.mono - mono
    → IsSplit threshold mono uptime cur
        (split_gap threshold (cur.mono - mono) (time_awake mono uptime cur))
split_gap-IsSplit threshold mono uptime cur long =
    let dm = cur.mono - mono in
    let du = time_awake mono uptime cur in
    let (sum_le', sum_ge') =
      tenths_add (round_tenth dm) (round_tenth (dm - du)) (round_tenth du) dm (dm - du) du
        (omega arith) (round_tenth-Rounded dm) (round_tenth-Rounded (dm - du))
        (round_tenth-Rounded du) in
    record {
      total = round_tenth dm;
      asleep = round_tenth (dm - du);
      awake = round_tenth du;
      gap_eq = refl;
      asleep_eq = refl;
      awake_eq = refl;
      long = long;
      whole = (round_tenth-Rounded dm).2;
      part = (round_tenth-Rounded du).2;
      sum_le = sum_le';
      sum_ge = sum_ge';
      named_by = ground arith;
    }

abbrev pub Explained : ℕ → ℕ → ℕ → Option String → ClockReading → Gap → Type 0
Explained threshold mono uptime boot cur gap =
    (same_boot boot cur.boot ≡ false) × (gap.cause ≡ reboot)
    ⊎ (same_boot boot cur.boot ≡ true)
      × (gap.cause ≢ reboot)
      × IsSplit threshold mono uptime cur gap

gap_after-Explained :
    (mono uptime : ℕ) (boot : Option String) (cur : ClockReading) (threshold : ℕ) (gap : Gap)
    → gap_after mono uptime boot cur threshold ≡ some gap
    → Explained threshold mono uptime boot cur gap
gap_after-Explained mono uptime boot cur threshold gap h =
    elim (Bool-cases (same_boot boot cur.boot)) [
      | inr other ↦ inl (other, ground arith)
      | inl same ↦ elim (Bool-cases (leb (cur.mono - mono) threshold)) [
        | inl short ↦ cc (rw (same, short) at h)
        | inr long ↦
            let parts = split_gap-IsSplit threshold mono uptime cur (ground arith) in
            let e : split_gap threshold (cur.mono - mono) (time_awake mono uptime cur) ≡ gap =
              ground arith in
            inr (same, ground arith, subst (IsSplit threshold mono uptime cur) e parts)
      ]
    ]

-- A recorded gap lies behind a row whose clock was read, and is a reboot exactly when the boot ids
-- differ. Within one boot it is longer than the threshold, and it is called starved or sleep by
-- whether the time awake, before it is rounded, is over the threshold. The reported whole and the
-- reported time awake are within 0.05 s of the exact ones, and the two reported parts add up to the
-- reported whole to within 0.1 s.
pub gap_record-IsSplit :
    (prev : ClockRow) (cur : ClockReading) (threshold : ℕ) {gap : Gap}
    → gap_record (some prev) cur threshold ≡ some gap
    → (mono : ℕ) × (prev.mono ≡ some mono) × Explained threshold mono prev.uptime prev.boot cur gap
unfolding gap_record
gap_record-IsSplit prev cur threshold {gap} h = elim (Option-cases prev.mono) [
  | inl unread ↦ cc (rw unread at h)
  | inr (mono, read) ↦
      (mono, read, gap_after-Explained mono prev.uptime prev.boot cur threshold gap (rw read at h))
]

-- Only a gap in which the machine was awake for at least five minutes is notified, and never one
-- across a reboot.
pub notifiable_gap_awake :
    (prev : Option ClockRow) (cur : ClockReading) {gap : Gap}
    → gap_record prev cur gap_s ≡ some gap
    → notifiable_gap (some gap) ≡ true
    → (awake : ℕ) × (gap.awake_s ≡ some awake) × (seconds 300 ≤ awake) × (gap.cause ≡ starved)
unfolding notifiable_gap
notifiable_gap_awake prev cur {gap} h n = elim (Option-cases gap.awake_s) [
  | inl unknown ↦ absurd (ground arith)
  | inr (awake, e) ↦ (awake, e, ground arith, ground arith)
]
