-- ===== src/Runner/Mode/Written.antt =====
-- What is written to runner.json is what the runner reads back.
use claude_memmon.Prelude.{Bool, false, Option, ◌≡◌, refl, get_or}
use claude_memmon.Runner.Mode.{Mode, ModeFile, read_mode, write_mode}

-- After a write the runner reads the values given; a value that was not given stays what it was
-- read as before, and the warning about an unreadable file is gone.
pub read_mode-write_mode :
    (mode : Option Mode) (auto : Option Bool) (f : ModeFile)
    → read_mode (write_mode mode auto f) ≡ record {
      mode = get_or mode (read_mode f).mode;
      warned = false;
      auto_cancel = get_or auto (read_mode f).auto_cancel;
    }
unfolding write_mode read_mode
read_mode-write_mode mode auto f = refl
