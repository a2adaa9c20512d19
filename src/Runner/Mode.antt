-- ===== src/Runner/Mode.antt =====
-- memmon_runner.py, `read_mode`, `write_mode` and `headroom_frac`: the settings of the runner.
pub mod Written
use claude_memmon.Prelude.{
  String, Bool, true, false, Option, none, some, ltb, is_some, get_or, if◌then◌else◌,
}
use claude_memmon.Telemetry.Score.{Ratio}

pub data Mode : Type 0 where
  protect observe paused : Mode

abbrev pub default_mode : Mode
default_mode = protect

-- A value in runner.json: missing, one of MODES, or anything else.
pub data ModeField : Type 0 where
  missing : ModeField
  known : Mode → ModeField
  other : ModeField

-- runner.json. `auto` is true only where the field is the JSON value true.
pub data ModeFile : Type 0 where
  absent unreadable : ModeFile
  file : (mode : ModeField) (auto : Bool) → ModeFile

-- The mode, whether there is a warning, and auto_cancel_interruptible.
pub record ModeReading : Type 0 where
  pub mode : Mode
  pub warned : Bool
  pub auto_cancel : Bool

unfoldable pub read_mode : ModeFile → ModeReading
read_mode absent = record { mode = default_mode; warned = false; auto_cancel = false }
read_mode unreadable = record { mode = protect; warned = true; auto_cancel = false }
read_mode (file missing auto) = record { mode = protect; warned = false; auto_cancel = auto }
read_mode (file (known m) auto) = record { mode = m; warned = false; auto_cancel = auto }
read_mode (file other auto) = record { mode = protect; warned = true; auto_cancel = false }

-- The update under ledger.lock; what is not given keeps the value that was read.
unfoldable pub write_mode : Option Mode → Option Bool → ModeFile → ModeFile
write_mode mode auto_cancel f =
    let cur = read_mode f in
    file (known (get_or mode cur.mode)) (get_or auto_cancel cur.auto_cancel)

-- config.json's headroom_frac where it is a number from 0 up to 1, else HEADROOM_FRAC. A number
-- is given as its exact quotient.
unfoldable pub headroom_frac : Option Ratio → Ratio
headroom_frac none = record { num = 20; den = 100 }
headroom_frac (some v) = if ltb v.num v.den then v else record { num = 20; den = 100 }
