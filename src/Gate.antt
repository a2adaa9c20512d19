-- ===== src/Gate.antt =====
-- memmon.py, `top_suggestion` and `gate_decision`: what the hook answers before a command is run.
-- The message is the list of its sentences by their kind.
pub mod Answers
use claude_memmon.Prelude.{
  ℕ, ◌+◌, ◌*◌, String, Bool, true, false, Option, none, some, List, [], ◌∷◌, ◌++◌, ◌&&◌, ◌||◌, not,
  leb, ltb, str_eq, get_or, if◌then◌else◌, take,
}
use claude_memmon.Telemetry.Units.{seconds, mb}
use claude_memmon.Telemetry.Score.{Level, Reason, Ratio, unknown, healthy, watch, danger, critical}

abbrev pub gb : ℕ
gb = 1024 * mb

abbrev pub stale_display_s : ℕ
stale_display_s = seconds 180

-- The values of `GATE_MODES`.
pub data GateMode : Type 0 where
  mode_block_critical mode_block mode_warn mode_off : GateMode

pub data Action : Type 0 where
  allow warn block : Action

-- What `classify_command` says of the command.
pub record Classification : Type 0 where
  pub matched : Bool
  pub block_eligible : Bool

pub record Pressure : Type 0 where
  pub level : Level
  pub reasons : List Reason
  pub headroom_min : Option Ratio

pub data HolderKind : Type 0 where
  worktree app : HolderKind

pub record Holder : Type 0 where
  pub name : String
  pub mem : ℕ
  pub tag : String
  pub kind : HolderKind

-- The sampler's row. The worktrees are given by their names without "build:", with their tags.
pub record Cached : Type 0 where
  pub worktrees : List Holder
  pub apps : List Holder
  pub under_pressure : Bool
  pub suggestions_ts : Option ℕ
  pub ts : Option ℕ
  pub pressure_suggestions : List String

-- The sentences of the message.
pub data Sentence : Type 0 where
  pressure_is : Level → List Reason → Sentence
  is_holding : Holder → Sentence
  is_running : Holder → Sentence
  has_resident : Holder → Sentence
  ask_before_stopping : String → Sentence
  minutes_left : Ratio → Sentence
  do_not_start prefer_scoped consider_need : Sentence

abbrev first_of : Option ℕ → Option ℕ → ℕ
first_of none ts = get_or ts 0
first_of (some made) ts = made

unfoldable pub top_suggestion : Bool → Cached → ℕ → Option String
top_suggestion enabled cached now =
    let made = first_of cached.suggestions_ts cached.ts in
    if not enabled || not cached.under_pressure
    then none
    else if not (leb made now && leb now (made + stale_display_s))
    then none
    else elim cached.pressure_suggestions [ [] ↦ none | row ∷ rows ↦ some row ]

-- `holders.sort(key=lambda h: -h[1])`: stable, the largest first.
unfoldable pub insert_holder : Holder → List Holder → List Holder
insert_holder h [] = h ∷ []
insert_holder h (g ∷ gs) = if leb g.mem h.mem then h ∷ g ∷ gs else g ∷ insert_holder h gs

unfoldable pub sort_holders : List Holder → List Holder
sort_holders [] = []
sort_holders (h ∷ hs) = insert_holder h (sort_holders hs)

unfoldable pub hot : Cached → List Holder
hot cached = take 2 (sort_holders (cached.worktrees ++ cached.apps))

-- `is_build` stands for `is_build_tag`, a search of the tag's text.
module _ (is_build : String → Bool) where
  abbrev is_building : Holder → Bool
  is_building h = elim h.kind [ worktree ↦ is_build h.tag | app ↦ false ]

  abbrev sentence_of : Holder → Sentence
  sentence_of h = if is_building h then is_running h else elim h.kind [
    | worktree ↦ if str_eq h.tag "" then is_holding h else has_resident h
    | app ↦ is_holding h
  ]

  unfoldable pub named : List Holder → List Sentence
  named [] = []
  named (h ∷ hs) = if leb h.mem (2 * gb) then named hs else sentence_of h ∷ named hs

  unfoldable pub any_build : List Holder → Bool
  any_build [] = false
  any_build (h ∷ hs) = not (leb h.mem (2 * gb)) && is_building h || any_build hs

abbrev ask : Option String → List Sentence
ask none = []
ask (some row) = ask_before_stopping row ∷ []

-- `room is not None and room < 30`
abbrev room_left : Option Ratio → List Sentence
room_left none = []
room_left (some r) = if ltb r.num (30 * r.den) then minutes_left r ∷ [] else []

-- The modes that block at a level.
unfoldable pub blocks_at : GateMode → Level → Bool
blocks_at mode_block critical = true
blocks_at mode_block danger = true
blocks_at mode_block_critical critical = true
blocks_at _ _ = false

abbrev is_silent : Level → Bool
is_silent healthy = true
is_silent unknown = true
is_silent _ = false

abbrev is_off : GateMode → Bool
is_off mode_off = true
is_off _ = false

abbrev is_empty : List Holder → Bool
is_empty [] = true
is_empty (h ∷ hs) = false

abbrev advice : Bool → Bool → Sentence
advice builds nothing_hot = if builds || nothing_hot then prefer_scoped else consider_need

-- The sentences that name the level, the holders, a suggestion and the time that is left.
unfoldable pub explanation : (String → Bool) → Pressure → Cached → Option String → List Sentence
explanation is_build pres cached top =
    pressure_is pres.level pres.reasons
    ∷ (named is_build (hot cached) ++ (ask top ++ room_left pres.headroom_min))

unfoldable pub gate_decision :
    (String → Bool)
    → Bool
    → String
    → Classification
    → Pressure
    → Cached
    → GateMode
    → ℕ
    → Action × List Sentence
gate_decision is_build enabled tool c pres cached mode now =
    let bits = explanation is_build pres cached (top_suggestion enabled cached now) in
    if is_off mode || not (str_eq tool "Bash") || not c.matched
    then (allow, [])
    else if is_silent pres.level
    then (allow, [])
    else if c.block_eligible && blocks_at mode pres.level
    then (block, bits ++ do_not_start ∷ [])
    else (warn, bits ++ advice (any_build is_build (hot cached)) (is_empty (hot cached)) ∷ [])
