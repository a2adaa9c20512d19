-- ===== src/Act/Run/Lawful.antt =====
-- What a call of `run` may signal.
use claude_memmon.Prelude.{
  ℕ, suc, ◌≡◌, ◌≢◌, String, Bool, true, false, Option, none, some, List, [], ◌∷◌, ◌⊎◌, inl, inr,
  refl, arith, All, Bool-cases, str_eq, map,
}
use claude_memmon.Procs.Walk.{Proc}
use claude_memmon.Act.Engine.{Sent, World, Engine, later, self_tree}
use claude_memmon.Act.Watch.{dedupe}
use claude_memmon.Act.Watch.Lawful.{Since}
use claude_memmon.Act.Engine.Clock.{Advances}
use claude_memmon.Act.Report.{Named, ForceBody}
use claude_memmon.Act.Force.{
  Forced, wrong_action, forced, out_of_fuel, force, ForceOutcome, force_wait_s,
}
use claude_memmon.Act.Force.Spares.{LawfulKill}
use claude_memmon.Act.Force.Lawful.{force-LawfulKill}
use claude_memmon.Act.Force.Ends.{force-fueled}
use claude_memmon.Act.Entry.{Refusal, Body, no_fuel}
use claude_memmon.Act.Process.Cleared.{Signalled, process-Signalled, Since-quiet}
use claude_memmon.Act.Run.{
  is_stale, token_action, is_process_action, killed, processed, admitted, forced_engine, dispatch,
  run,
}

-- The token was decoded, is for this action and is fresh, the source is not degraded and the lock
-- is held.
pub record Admitted (now : ℕ) (degraded lock_free : Bool) (action : String) (token : Option Body)
    (body : Body) : Type 0 where
  pub decoded : token ≡ some body
  pub same_action : str_eq body.action (token_action action) ≡ true
  pub fresh : is_stale now body.snapshot_ts ≡ false
  pub readable : degraded ≡ false
  pub locked : lock_free ≡ true

admitted-Admitted :
    (now : ℕ) (degraded lock_free : Bool) (action : String) (token : Option Body) (body : Body)
    → admitted now degraded lock_free action token ≡ inr body
    → Admitted now degraded lock_free action token body
unfolding admitted
admitted-Admitted now degraded lock_free action none body h = absurd (ground arith)
admitted-Admitted now degraded lock_free action (some b) body h =
    let eq : b ≡ body = ground arith in
    record {
      decoded = ground arith;
      same_action = ground arith;
      fresh = ground arith;
      readable = ground arith;
      locked = ground arith;
    }

-- A signal of `run`: of a stop, or of a force.
pub data Allowed (w : World) (action : String) (still_selected : Option (List Proc → ℕ → Bool))
    (body : Body) (e : Engine) (s : Sent) : Type 0 where
  by_stop :
      is_process_action action ≡ true
      → Signalled w action body (w.table e.time) (self_tree w (later e)).1 (later e).time s
      → Allowed w action still_selected body e s
  by_force :
      str_eq action "force" ≡ true
      → LawfulKill w still_selected body.force_body
          (self_tree w e).1
          (w.table (self_tree w e).0.time)
          (w.root_rule_fn
            (w.table (self_tree w e).0.time)
            (dedupe (map (λ (s : Named). s.pid) body.force_body.survivors)))
          e.time
          s
      → Allowed w action still_selected body e s

Since-map :
    {P Q : Sent → Type 0} {old now : List Sent}
    → ((s : Sent) → P s → Q s)
    → Since P old now
    → Since Q old now
Since-map {P} {Q} f (new, eq, all) = (new, eq, go new all)
  where
    go : (ss : List Sent) → All P ss → All Q ss
    go [] all = tt
    go (s ∷ ss) (p, all) = (f s p, go ss all)

Refusal-cases :
    (r : Refusal ⊎ Body) → ((why : Refusal) × (r ≡ inl why)) ⊎ ((body : Body) × (r ≡ inr body))
Refusal-cases (inl why) = inl (why, refl)
Refusal-cases (inr body) = inr (body, refl)

Forced-cases :
    (f : Forced)
    → ((e : Engine) × (out : ForceOutcome) × (f ≡ forced e out))
      ⊎ ((f ≡ wrong_action) ⊎ (f ≡ out_of_fuel))
Forced-cases wrong_action = inr (inl refl)
Forced-cases out_of_fuel = inr (inr refl)
Forced-cases (forced e out) = inl (e, out, refl)

forced_engine-LawfulKill :
    (w : World) (origin : Option String) (still_selected : Option (List Proc → ℕ → Bool))
    (body : ForceBody) (e : Engine)
    → Since
        (LawfulKill w still_selected body
          (self_tree w e).1
          (w.table (self_tree w e).0.time)
          (w.root_rule_fn
            (w.table (self_tree w e).0.time)
            (dedupe (map (λ (s : Named). s.pid) body.survivors)))
          e.time)
        e.sent
        (forced_engine e (force w (suc force_wait_s) origin still_selected body e)).sent
forced_engine-LawfulKill w origin still_selected body e =
    elim (Forced-cases (force w (suc force_wait_s) origin still_selected body e)) [
      | inl (e', out, eq) ↦
          rw eq (force-LawfulKill w (suc force_wait_s) origin still_selected body e e' out eq)
      | inr (inl wrong) ↦ rw wrong (Since-quiet refl)
      | inr (inr late) ↦ rw late (Since-quiet refl)
    ]

dispatch-Allowed :
    (w : World) (action : String) (origin : Option String)
    (still_selected : Option (List Proc → ℕ → Bool)) (body : Body) (e : Engine)
    → Advances w
    → ((dispatch w (suc w.grace_s) (suc force_wait_s) action origin still_selected body e).1
        ≢ killed out_of_fuel)
      × ((dispatch w (suc w.grace_s) (suc force_wait_s) action origin still_selected body e).1
          ≢ processed no_fuel)
      × Since
          (Allowed w action still_selected body e)
          e.sent
          (dispatch w (suc w.grace_s) (suc force_wait_s) action origin still_selected body e).0.sent
unfolding dispatch
dispatch-Allowed w action origin still_selected body e a =
    let (fueled, stopped) = process-Signalled w action body e a in
    let ends = force-fueled w origin still_selected body.force_body e a in
    let killed' = forced_engine-LawfulKill w origin still_selected body.force_body e in
    elim (Bool-cases (str_eq action "verify-app")) [
      | inl app ↦ rw (dispatch, app) (λ h. ground arith, λ h. ground arith, Since-quiet refl)
      | inr other ↦ elim (Bool-cases (str_eq action "force")) [
        | inl forcing ↦
            rw (dispatch, other, forcing)
              (
                λ h. ends (ground arith),
                λ h. ground arith,
                Since-map (λ s l. by_force forcing l) killed',
              )
        | inr stop ↦ elim (Bool-cases (is_process_action action)) [
          | inr unknown ↦
              rw (dispatch, other, stop, unknown)
                (λ h. ground arith, λ h. ground arith, Since-quiet refl)
          | inl known ↦
              rw (dispatch, other, stop, known)
                (
                  λ h. ground arith,
                  λ h. fueled (ground arith),
                  Since-map (λ s l. by_stop known l) stopped,
                )
        ]
      ]
    ]

-- Whatever token a call of `run` is given and whatever the engine reads: the rounds are enough
-- where the clock advances between readings, and nothing is signalled unless the token decodes, is
-- for this action and is fresh, the source is not degraded and the lock is held. Then a stop sends
-- nothing but SIGTERM, to processes that its plan names or that it found below one of those later,
-- each with the start it is known by in the reading just before, and never to memmon's own tree;
-- and a force sends nothing but SIGKILL, to the survivors that its token names.
pub run-Allowed :
    (w : World) (now : ℕ) (degraded lock_free : Bool) (action : String) (token : Option Body)
    (origin : Option String) (still_selected : Option (List Proc → ℕ → Bool)) (e : Engine)
    → Advances w
    → ((run w
          (suc w.grace_s)
          (suc force_wait_s)
          now
          degraded
          lock_free
          action
          token
          origin
          still_selected
          e).1
        ≢ killed out_of_fuel)
      × ((run w
            (suc w.grace_s)
            (suc force_wait_s)
            now
            degraded
            lock_free
            action
            token
            origin
            still_selected
            e).1
          ≢ processed no_fuel)
      × Since
          (λ s.
            (body : Body) × Admitted now degraded lock_free action token body
            × Allowed w action still_selected body e s)
          e.sent
          (run w
            (suc w.grace_s)
            (suc force_wait_s)
            now
            degraded
            lock_free
            action
            token
            origin
            still_selected
            e).0.sent
unfolding run
run-Allowed w now degraded lock_free action token origin still_selected e a =
    elim (Refusal-cases (admitted now degraded lock_free action token)) [
      | inl (why, no') ↦ rw (run, no') (λ h. ground arith, λ h. ground arith, Since-quiet refl)
      | inr (body, ok') ↦
          let in' = admitted-Admitted now degraded lock_free action token body ok' in
          let (fueled, fueled', sent) = dispatch-Allowed w action origin still_selected body e a in
          rw (run, ok') (fueled, fueled', Since-map (λ s l. (body, in', l)) sent)
    ]
