-- ===== src/Act/Force/Ends.antt =====
-- A force ends.
use claude_memmon.Prelude.{
  ℕ, zero, suc, ◌+◌, ◌≤◌, ◌≡◌, ◌≢◌, String, Bool, true, Option, some, List, [], ◌∷◌, inl, inr, refl,
  arith, Bool-cases, ◌&&◌, leb, map,
}
use claude_memmon.Procs.Walk.{Proc}
use claude_memmon.Act.Engine.{World, Engine, later, alive, self_tree}
use claude_memmon.Act.Watch.{dedupe}
use claude_memmon.Act.Engine.Clock.{Advances, mono-le}
use claude_memmon.Act.Report.{Named, ForceBody}
use claude_memmon.Act.Force.{
  kill_all, Ident, still_alive, wait, Waiting, out_of_fuel, force, waiting_of, bad_origin,
  force_wait_s, no_ids,
}

still_alive-time :
    (w : World) (ids : List Ident) (e : Engine) → e.time ≤ (still_alive w ids e).0.time
unfolding still_alive alive
still_alive-time w [] e = omega arith
still_alive-time w ((pid, start) ∷ ids) e =
    let rest = still_alive-time w ids (later e) in omega (arith, rest)

step-mono :
    (w : World) (e e' : Engine)
    → Advances w
    → (later e).time ≤ e'.time
    → suc (w.mono e.time) ≤ w.mono e'.time
step-mono w e e' a h =
    let eq : (later e).time ≡ suc e.time = omega arith in
    omega (arith, a e.time, mono-le w a (suc e.time) e'.time (omega (arith, eq)))

-- The wait for the killed processes ends: when the clock advances between readings, as many
-- rounds as the time left has nanoseconds, and one more, are enough.
pub wait-total :
    (w : World) (fuel deadline : ℕ) (live waiting : List Ident) (e : Engine)
    → Advances w
    → deadline ≤ w.mono e.time + fuel
    → (r : Waiting) × (wait w (suc fuel) deadline live waiting e ≡ some r)
unfolding wait
wait-total w zero deadline live waiting e a h = elim (Bool-cases (no_ids live && no_ids waiting)) [
  | inl over ↦ (record { engine = e; live = live; waiting = waiting }, rw (wait, over) refl)
  | inr more ↦
      let late : leb deadline (w.mono e.time) ≡ true = ground arith in
      (record { engine = later e; live = live; waiting = waiting }, rw (wait, more, late) refl)
]
wait-total w (suc fuel) deadline live waiting e a h =
    let s1 = still_alive w live (later e) in
    let s2 = still_alive w waiting s1.0 in
    let t1 = still_alive-time w live (later e) in
    let t2 = still_alive-time w waiting s1.0 in
    elim (Bool-cases (no_ids live && no_ids waiting)) [
      | inl over ↦ (record { engine = e; live = live; waiting = waiting }, rw (wait, over) refl)
      | inr more ↦ elim (Bool-cases (leb deadline (w.mono e.time))) [
        | inl late ↦ (
          record { engine = later e; live = live; waiting = waiting },
          rw (wait, more, late) refl,
        )
        | inr early ↦
            let grown = step-mono w e s2.0 a (omega (arith, t1, t2)) in
            let (r, eq) = wait-total w fuel deadline s1.1 s2.1 s2.0 a (omega (arith, grown, h)) in
            (r, rw (wait, more, early) eq)
      ]
    ]

pub force-fueled :
    (w : World) (origin : Option String) (still_selected : Option (List Proc → ℕ → Bool))
    (body : ForceBody) (e : Engine)
    → Advances w
    → force w (suc force_wait_s) origin still_selected body e ≢ out_of_fuel
unfolding force
force-fueled w origin still_selected body e a h =
    let (e1, mine) = self_tree w e in
    let inv = w.table e1.time in
    let roots = w.root_rule_fn inv (dedupe (map (λ (s : Named). s.pid) body.survivors)) in
    let (e2, kills) = kill_all w still_selected body mine inv roots body.survivors (later e1) in
    let (r, ends) =
      wait-total w force_wait_s (w.mono e2.time + force_wait_s) kills.live
        (waiting_of kills.live body.runners) (later e2) a
        (omega (arith, mono-le w a e2.time (later e2).time (omega arith))) in
    elim (Bool-cases (bad_origin origin body.origin)) [
      | inl wrong ↦ ground arith
      | inr fine ↦ ground arith
    ]
