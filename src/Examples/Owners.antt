-- ===== src/Examples/Owners.antt =====
-- memmon_owners.py: an owner that grows by 2 GiB a minute.
use claude_memmon.Prelude.{
  ℕ, String, some, List, [], ◌∷◌, ◌≡◌, ◌≤◌, ◌*◌, refl, All, arith, length, take, Option, none, ◌⊎◌,
}
use claude_memmon.Telemetry.Units.{seconds}
use claude_memmon.Owners.Runaway.{
  Sample, Streak, is_growing, streak_from, runaway_streak, update_runaways,
}
use claude_memmon.Owners.History.{Seen, note_owners, by_recency, update_history, history_max_owners}
use claude_memmon.Owners.History.Recent.{IsShort, LeavesOlder, update_history-Recent}
use claude_memmon.Owners.Runaway.Pace.{Grown, runaway_streak-Grown}
use claude_memmon.Owners.Runaway.Reasons.{Explained, Current, update_runaways-Explained}

abbrev gib : ℕ
gib = 1073741824

abbrev sample : ℕ → ℕ → Sample
sample minutes gibs = record { ts = seconds (60 * minutes); bytes = gibs * gib }

abbrev newest : Sample
newest = sample 13 7

abbrev before : List Sample
before = sample 12 5 ∷ sample 11 3 ∷ sample 10 1 ∷ sample 2 1 ∷ []

abbrev growth : Streak
growth = record { since_ts = seconds 600; since_bytes = gib; intervals = 3 }

growth_found : runaway_streak (newest ∷ before) ≡ some growth
unfolding runaway_streak streak_from is_growing
growth_found = refl

runaway_streak-Grown_example : (1 ≤ 3) × Grown newest growth
runaway_streak-Grown_example = runaway_streak-Grown newest before {run = growth} growth_found

abbrev history : String → List Sample
history oid = newest ∷ before

update_runaways-Explained_example :
    All
      (λ e. Explained [] history e × Current ("claude" ∷ []) (seconds 790) e)
      (update_runaways [] history ("claude" ∷ []) (seconds 790))
update_runaways-Explained_example =
    update_runaways-Explained [] history ("claude" ∷ []) (seconds 790)

abbrev seen : List Seen
seen = record { owner_id = "claude"; last_seen = seconds 720; samples = before } ∷ []

seen-IsShort : All IsShort seen
seen-IsShort = (omega arith, tt)

abbrev measured : List (String × Option ℕ)
measured = ("claude", some (7 * gib)) ∷ ("codex", none) ∷ ("app", some gib) ∷ []

update_history-Recent_example :
    (length (update_history seen measured (seconds 780)) ≤ history_max_owners)
    × All IsShort (update_history seen measured (seconds 780))
    × ((update_history seen measured (seconds 780) ≡ note_owners (seconds 780) measured seen)
        ⊎ (update_history seen measured (seconds 780)
            ≡ take history_max_owners (by_recency (note_owners (seconds 780) measured seen)))
          × LeavesOlder (note_owners (seconds 780) measured seen))
update_history-Recent_example = update_history-Recent seen measured (seconds 780) seen-IsShort
