-- ===== src/Examples/Admit.antt =====
-- memmon_runner.py: a run whose first pass finds its resource taken and whose second one starts it.
use claude_memmon.Prelude.{ℕ, String, Bool, true, false, some, none, [], ◌∷◌, ◌≡◌, ◌≢◌, refl}
use claude_memmon.Telemetry.Units.{seconds, recovery_s}
use claude_memmon.Runner.Queue.{
  Queue, candidate, tickets, sort_tickets, insert_ticket, first_free, take_ticket, prune_tickets,
  enqueue, next_seq, drop_ticket,
}
use claude_memmon.Runner.Decide.{HoldCause, decide}
use claude_memmon.Runner.Admit.{
  Pass, Files, opened, started, waiting, admit_protect, loop, pass, section, decided,
}
use claude_memmon.Runner.Admit.Turns.{
  Admitting, is_over, admit_protect-Admitting, admit_protect_ends,
}
use claude_memmon.Examples.Runner.{stored, sensors, wanted, admitted}

abbrev before : Queue
before = record { files = []; seq = some 4 }

abbrev queue : Queue
queue = record {
  files = record { seq = 5; run_id = "r2"; resource = "cpu"; live = true } ∷ [];
  seq = some 5;
}

abbrev at : ℕ → Bool → Pass
at mono free = record {
  cancelled = none;
  mono = mono;
  ledger = opened;
  queue = queue;
  free = λ res. free;
  locked = free;
  resource_free = free;
  estimate = wanted;
  stored = some stored;
  sensors = sensors;
}

abbrev le : String → String → Bool
le a b = true

abbrev after : Files
after = record {
  queue = drop_ticket "r2" queue;
  state = (decide (some stored) sensors "r2" recovery_s wanted).2;
}

second_starts :
    admit_protect le "r2" "cpu" recovery_s
      (seconds 120)
      opened
      before
      (at (seconds 99) false ∷ at (seconds 100) true ∷ [])
    ≡ started after
unfolding admit_protect loop pass section decided candidate tickets sort_tickets insert_ticket
    first_free take_ticket prune_tickets enqueue next_seq
second_starts = rw (admit_protect, loop, pass, section, decided, admitted) refl

admit_protect-Admitting_example :
    ((take_ticket "r2" "cpu" before).1 ≡ true)
    × Admitting le "r2" recovery_s
        (seconds 120)
        after
        false
        (at (seconds 99) false ∷ at (seconds 100) true ∷ [])
admit_protect-Admitting_example =
    admit_protect-Admitting le "r2" "cpu" recovery_s (seconds 120) opened before
      (at (seconds 99) false ∷ at (seconds 100) true ∷ []) after second_starts

comes_late : is_over (seconds 120) (at (seconds 121) false ∷ []) ≡ true
unfolding is_over
comes_late = refl

admit_protect_ends_example :
    admit_protect le "r2" "cpu" recovery_s
      (seconds 120)
      opened
      before
      (at (seconds 99) false ∷ at (seconds 121) false ∷ [])
    ≢ waiting (some HoldCause.resource)
admit_protect_ends_example =
    admit_protect_ends le "r2" "cpu" recovery_s (seconds 120) opened before (at (seconds 99) false)
      (at (seconds 121) false ∷ []) comes_late (some HoldCause.resource)
