-- ===== src/Act/Watch/Ends.antt =====
-- A graceful stop ends, and all it sends is lawful.
use claude_memmon.Prelude.{
  ℕ, zero, suc, ◌+◌, ◌≤◌, ◌≡◌, true, false, some, List, [], ◌∷◌, ◌++◌, inl, inr, refl, subst, arith,
  All, Bool-cases, ◌&&◌, ◌||◌, leb, ◌==◌,
}
use claude_memmon.Procs.Walk.{Proc, find}
use claude_memmon.Act.Engine.{
  Start, Signal, same, sigterm, Sent, Lease, Partition, World, Engine, later, signal, alive,
}
use claude_memmon.Act.Engine.Clock.{Advances, mono-le}
use claude_memmon.Act.Plan.{Captured, Held, Plan, plan, has_captured, start_at, stop_of}
use claude_memmon.Act.Plan.Spares.{Member, Spared, plan-Spared, plan-held_Member}
use claude_memmon.Act.Watch.{
  Stop, captured_start, discover, release, capture_new, signal_new, alive_of, pursue, round, watch,
  sort_deeper, signal_all, begin, terminate, nothing, none_held,
}
use claude_memmon.Act.Watch.Lawful.{
  Known, planned, LawfulStop, Since, Good, Ours, later-Good, signal-Good, signal_all-Good,
  sort_deeper-All, capture_new-All,
}
use claude_memmon.Act.Watch.Rounds.{Free, Free-append, discover-Ours, release-Ours}

module _ (w : World) (mine : List ℕ) (inv : List Proc) (part : Partition) (targets : List ℕ)
    (lo : ℕ) (old : List Sent) where
  abbrev K : ℕ → Start → Type 0
  K = Known w mine inv part targets lo

  alive_of-Good :
      (cs : List Captured) (e : Engine)
      → Good w mine inv part targets lo old e
      → Good w mine inv part targets lo old (alive_of w mine cs e).0
  unfolding alive_of alive
  alive_of-Good [] e g = g
  alive_of-Good (c ∷ cs) e g =
      alive_of-Good cs (later e) (later-Good w mine inv part targets lo old e g)

  has_captured-K :
      (d : ℕ) (cs : List Captured)
      → All (λ c. K c.pid c.start) cs
      → has_captured d cs ≡ true
      → K d (captured_start d cs)
  unfolding has_captured captured_start
  has_captured-K d [] all h = absurd (ground arith)
  has_captured-K d (c ∷ cs) (k, all) h = elim (Bool-cases (c.pid == d)) [
    | inl own ↦ let e : d ≡ c.pid = ground arith in rw own (rw e k)
    | inr other ↦ rw other (has_captured-K d cs all (rw other at h))
  ]

  snoc-K :
      (d : ℕ) (start : Start) (cs : List Captured)
      → has_captured d cs ≡ false
      → captured_start d (cs ++ record { pid = d; start = start; depth = 0 } ∷ []) ≡ start
  unfolding has_captured captured_start
  snoc-K d start [] h = ground arith
  snoc-K d start (c ∷ cs) h = ground (arith, snoc-K d start cs)

  captured_new :
      (snap : List Proc) (d : ℕ) (cs : List Captured)
      → K d (start_at snap d)
      → All (λ c. K c.pid c.start) cs
      → K d (captured_start d (capture_new w mine snap d cs))
  unfolding capture_new
  captured_new snap d cs k all = elim (Bool-cases (has_captured d cs)) [
    | inl old' ↦ rw old' (has_captured-K d cs all old')
    | inr new ↦ rw new (rw (snoc-K d (start_at snap d) cs new) k)
  ]

  signal_new-Good :
      (snap : List Proc) (ds : List ℕ) (e : Engine) (st : Stop)
      → Free K snap ds
      → Ours K st
      → Good w mine inv part targets lo old e
      → let (e', st') = signal_new w mine snap ds e st in
        Good w mine inv part targets lo old e' × Ours K st'
  unfolding signal_new
  signal_new-Good snap [] e st all o g = (g, o)
  signal_new-Good snap (d ∷ ds) e st (f, all) o g =
      let cs = capture_new w mine snap d st.captured in
      signal_new-Good snap ds (signal w d (captured_start d cs) sigterm e).0
        (record st { captured = cs }) all
        (record {
          captured_ok = capture_new-All w mine K snap d st.captured f o.captured_ok;
          held_ok = o.held_ok;
        })
        (signal-Good w mine inv part targets lo old d (captured_start d cs) e
          (captured_new snap d st.captured f o.captured_ok) g)

  pursue-Good :
      (up : List ℕ) (e : Engine) (st : Stop)
      → Ours K st
      → Good w mine inv part targets lo old e
      → Good w mine inv part targets lo old (pursue w mine up e st).engine
        × Ours K (pursue w mine up e st).state
  unfolding pursue
  pursue-Good up e st o g =
      let snap = w.table e.time in
      let rows = w.leases (e.time + 1) in
      let a = discover-Ours w mine inv part targets lo e.time rows up st g.0 o in
      let st1 : Stop = (discover w mine snap rows up st).0 in
      let new : List ℕ = (discover w mine snap rows up st).1 in
      let b = release-Ours w mine K snap rows st1.held st1 a.0.held_ok a.0 in
      let st2 : Stop = (release w mine snap rows st1.held st1).0 in
      let freed : List ℕ = (release w mine snap rows st1.held st1).1 in
      signal_new-Good snap (new ++ freed) (later (later e)) st2
        (Free-append K snap new freed a.1 b.1) b.0
        (later-Good w mine inv part targets lo old (later e)
          (later-Good w mine inv part targets lo old e g))

  round-Good :
      (e : Engine) (st : Stop)
      → Ours K st
      → Good w mine inv part targets lo old e
      → Good w mine inv part targets lo old (round w mine e st).engine
        × Ours K (round w mine e st).state
  unfolding round
  round-Good e st o g =
      let e1 : Engine = (alive_of w mine st.captured e).0 in
      let up : List ℕ = (alive_of w mine st.captured e).1 in
      let g1 = alive_of-Good st.captured e g in
      elim (Bool-cases (nothing up && none_held st.held)) [
        | inl idle ↦ rw idle (g1, o)
        | inr busy ↦ rw busy (pursue-Good up e1 st o g1)
      ]

  watch-Good :
      (fuel deadline : ℕ) (e : Engine) (st : Stop) {r : Engine × Stop}
      → watch w mine fuel deadline e st ≡ some r
      → Ours K st
      → Good w mine inv part targets lo old e
      → Good w mine inv part targets lo old r.0
  unfolding watch
  watch-Good zero deadline e st h o g = absurd (ground arith)
  watch-Good (suc fuel) deadline e st {r} h o g =
      let next = round w mine e st in
      let good = round-Good e st o g in
      elim (Bool-cases (next.is_done || leb deadline (w.mono next.engine.time))) [
        | inl over ↦
            let e' : ((later next.engine, next.state)) ≡ r = ground arith in
            subst (λ (x : Engine × Stop). Good w mine inv part targets lo old x.0) e'
              (later-Good w mine inv part targets lo old next.engine good.0)
        | inr more ↦
            watch-Good fuel deadline (later next.engine) next.state (rw more at h) good.1
              (later-Good w mine inv part targets lo old next.engine good.0)
      ]

begin-Ours :
    (w : World) (mine : List ℕ) (inv : List Proc) (part : Partition) (rows : List Lease)
    (targets : List ℕ) (lo : ℕ)
    → Ours (Known w mine inv part targets lo) (begin w mine inv (plan inv part rows targets mine))
unfolding begin
begin-Ours w mine inv part rows targets lo = record {
  captured_ok =
      spared (plan inv part rows targets mine).captured (plan-Spared inv part rows targets mine);
  held_ok =
      guards (plan inv part rows targets mine).held (plan-held_Member inv part rows targets mine);
}
  where
    spared :
        (cs : List Captured)
        → All (Spared inv part rows targets mine) cs
        → All (λ c. Known w mine inv part targets lo c.pid c.start) cs
    spared [] all = tt
    spared (c ∷ cs) (s, all) = (planned c.depth s.member, spared cs all)

    guards :
        (hs : List Held)
        → All
            (λ h.
              (d : ℕ) × Member inv targets mine
                (stop_of part targets)
                (record { pid = h.wrapper; start = h.start; depth = d }))
            hs
        → All (λ h. Known w mine inv part targets lo h.wrapper h.start) hs
    guards [] all = tt
    guards (h ∷ hs) ((d, m), all) = (planned d m, guards hs all)

-- The engine as it enters the rounds of a stop.
abbrev entered : World → List ℕ → List Proc → Partition → List ℕ → Engine → Engine
entered w mine inv part targets e = later (
    signal_all w mine (sort_deeper w mine (plan inv part (w.leases e.time) targets mine).captured)
      (later (later e)))

entered-Good :
    (w : World) (mine : List ℕ) (inv : List Proc) (part : Partition) (targets : List ℕ) (e : Engine)
    → Good w mine inv part targets e.time e.sent (entered w mine inv part targets e)
entered-Good w mine inv part targets e =
    let p : Plan = plan inv part (w.leases e.time) targets mine in
    let ours = begin-Ours w mine inv part (w.leases e.time) targets e.time in
    let e0 : Engine = later (later e) in
    later-Good w mine inv part targets e.time e.sent
      (signal_all w mine (sort_deeper w mine p.captured) e0)
      (signal_all-Good w mine inv part targets e.time e.sent (sort_deeper w mine p.captured) e0
        (sort_deeper-All w mine (Known w mine inv part targets e.time) p.captured
          (unfold begin in ours.captured_ok))
        (omega arith, ([], refl, tt)))

-- Whatever processes, leases and owners the engine finds at each reading, a graceful stop sends
-- SIGTERM and nothing else, never to memmon or one of its ancestors, and each time to a process
-- that was found alive, in the reading just before, with the start that the stop knows it by.
pub terminate-LawfulStop :
    (w : World) (mine : List ℕ) (fuel : ℕ) (inv : List Proc) (part : Partition) (targets : List ℕ)
    (e : Engine) {r : Engine × Stop}
    → terminate w mine fuel inv part targets e ≡ some r
    → Since (LawfulStop w mine inv part targets e.time) e.sent r.0.sent
unfolding terminate
terminate-LawfulStop w mine fuel inv part targets e {r} h =
    let p : Plan = plan inv part (w.leases e.time) targets mine in
    let ours = begin-Ours w mine inv part (w.leases e.time) targets e.time in
    let e1 : Engine = entered w mine inv part targets e in
    (watch-Good w mine inv part targets e.time e.sent fuel
      (w.mono (signal_all w mine (sort_deeper w mine p.captured) (later (later e))).time
        + w.grace_s)
      e1 (begin w mine inv p) h ours (entered-Good w mine inv part targets e)).1

signal-time :
    (w : World) (pid : ℕ) (start : Start) (sig : Signal) (e : Engine)
    → e.time ≤ (signal w pid start sig e).0.time
unfolding signal
signal-time w pid start sig e =
    elim (Bool-cases (same (find pid (w.table e.time)) start && w.kill_works e.time)) [
      | inl sent ↦ rw sent (omega arith)
      | inr quiet ↦ rw quiet (omega arith)
    ]

alive_of-time :
    (w : World) (mine : List ℕ) (cs : List Captured) (e : Engine)
    → e.time ≤ (alive_of w mine cs e).0.time
unfolding alive_of alive
alive_of-time w mine [] e = omega arith
alive_of-time w mine (c ∷ cs) e =
    let rest = alive_of-time w mine cs (later e) in omega (arith, rest)

signal_new-time :
    (w : World) (mine : List ℕ) (snap : List Proc) (ds : List ℕ) (e : Engine) (st : Stop)
    → e.time ≤ (signal_new w mine snap ds e st).0.time
unfolding signal_new
signal_new-time w mine snap [] e st = omega arith
signal_new-time w mine snap (d ∷ ds) e st =
    let cs = capture_new w mine snap d st.captured in
    let e1 : Engine = (signal w d (captured_start d cs) sigterm e).0 in
    let first = signal-time w d (captured_start d cs) sigterm e in
    let rest = signal_new-time w mine snap ds e1 (record st { captured = cs }) in
    omega (arith, first, rest)

round-time :
    (w : World) (mine : List ℕ) (e : Engine) (st : Stop) → e.time ≤ (round w mine e st).engine.time
unfolding round pursue
round-time w mine e st =
    let e1 : Engine = (alive_of w mine st.captured e).0 in
    let up : List ℕ = (alive_of w mine st.captured e).1 in
    let snap = w.table e1.time in
    let rows = w.leases (e1.time + 1) in
    let (st1, new) = discover w mine snap rows up st in
    let (st2, freed) = release w mine snap rows st1.held st1 in
    let read = alive_of-time w mine st.captured e in
    let sent = signal_new-time w mine snap (new ++ freed) (later (later e1)) st2 in
    elim (Bool-cases (nothing up && none_held st.held)) [
      | inl idle ↦ rw idle read
      | inr busy ↦ rw busy (omega (arith, read, sent))
    ]

round-mono :
    (w : World) (mine : List ℕ) (e : Engine) (st : Stop)
    → Advances w
    → w.mono e.time ≤ w.mono (round w mine e st).engine.time
round-mono w mine e st a =
    mono-le w a e.time (round w mine e st).engine.time (round-time w mine e st)

later-enough :
    (w : World) (mine : List ℕ) (fuel deadline : ℕ) (e : Engine) (st : Stop)
    → Advances w
    → deadline ≤ w.mono e.time + suc fuel
    → deadline ≤ w.mono ((round w mine e st).engine.time + 1) + fuel
later-enough w mine fuel deadline e st a h =
    let t : ℕ = (round w mine e st).engine.time in
    let e' : t + 1 ≡ suc t = omega arith in rw e' (omega (arith, round-mono w mine e st a, a t))

watch-total :
    (w : World) (mine : List ℕ) (fuel deadline : ℕ) (e : Engine) (st : Stop)
    → Advances w
    → deadline ≤ w.mono e.time + fuel
    → (r : Engine × Stop) × (watch w mine (suc fuel) deadline e st ≡ some r)
unfolding watch
watch-total w mine zero deadline e st a h =
    let next = round w mine e st in
    let grown = round-mono w mine e st a in
    let over : (next.is_done || leb deadline (w.mono next.engine.time)) ≡ true = ground arith in
    ((later next.engine, next.state), rw over refl)
watch-total w mine (suc fuel) deadline e st a h =
    let next = round w mine e st in
    elim (Bool-cases (next.is_done || leb deadline (w.mono next.engine.time))) [
      | inl over ↦ ((later next.engine, next.state), rw over refl)
      | inr more ↦ rw more (
          watch-total w mine fuel deadline (later next.engine) next.state a
            (later-enough w mine fuel deadline e st a h))
    ]

-- A graceful stop ends: when the clock advances between readings, as many rounds as the grace
-- period has nanoseconds, and one more, are enough for it to return.
pub terminate-total :
    (w : World) (mine : List ℕ) (inv : List Proc) (part : Partition) (targets : List ℕ) (e : Engine)
    → Advances w
    → (r : Engine × Stop) × (terminate w mine (suc w.grace_s) inv part targets e ≡ some r)
unfolding terminate
terminate-total w mine inv part targets e a =
    let p : Plan = plan inv part (w.leases e.time) targets mine in
    let e1 : Engine = signal_all w mine (sort_deeper w mine p.captured) (later (later e)) in
    watch-total w mine w.grace_s (w.mono e1.time + w.grace_s) (later e1) (begin w mine inv p) a
      (omega (arith, mono-le w a e1.time (e1.time + 1) (omega arith)))
