-- ===== src/Logging.antt =====
-- log/logging.go: the levels, and the file of the log over its rotations. The standard logger
-- writes each entry to its output; what it writes to a closed file is lost.
pub mod Rotation
pub mod Levels
use inbucket.Common.{
  ℕ, Bool, true, false, ◌||◌, List, [], ◌∷◌, leb, if◌then◌else◌, Unicode, Bytes, codes, equal,
  to_upper,
}

pub data Level : Type 0 where
  error_level warn_level info_level trace_level : Level

abbrev pub rank : Level → ℕ
rank error_level = 0
rank warn_level = 1
rank info_level = 2
rank trace_level = 3

pub data Output : Type 0 where
  stderr stdout open_file closed_file : Output

-- An entry, its text with the arguments filled in.
pub record Entry : Type 0 where
  pub level : Level
  pub text : Bytes
  pub to : Output

-- The variables of the package, whether `logf` is not nil, the output of the standard logger, and
-- the entries written, the latest first.
pub record Logger : Type 0 where
  pub max_level : Level
  pub log_name : Bytes
  pub has_file : Bool
  pub output : Output
  pub entries : List Entry

-- `Printf` of the standard logger.
unfoldable pub print : Level → Bytes → Logger → Logger
print level text lg = elim lg.output [
  | closed_file ↦ lg
  | stderr ↦ record lg { entries = record { level = level; text = text; to = stderr } ∷ lg.entries }
  | stdout ↦ record lg { entries = record { level = level; text = text; to = stdout } ∷ lg.entries }
  | open_file ↦ record lg {
    entries = record { level = level; text = text; to = open_file } ∷ lg.entries;
  }
]

-- `Errorf`, `Warnf`, `Infof` and `Tracef`; an error is of the lowest level.
unfoldable pub log_at : Level → Bytes → Logger → Logger
unfolding print
log_at level text lg = if leb (rank level) (rank lg.max_level) then print level text lg else lg

-- `SetLogLevel`
unfoldable pub set_log_level : Unicode → Bytes → Logger → Bool × Logger
unfolding log_at
set_log_level unicode level lg =
    let upper = to_upper unicode level in
    if equal upper (codes "ERROR")
    then (true, record lg { max_level = error_level })
    else if equal upper (codes "WARN")
    then (true, record lg { max_level = warn_level })
    else if equal upper (codes "INFO")
    then (true, record lg { max_level = info_level })
    else if equal upper (codes "TRACE")
    then (true, record lg { max_level = trace_level })
    else (false, log_at error_level (codes "Unknown log level requested") lg)

-- `openLogFile`, where the file can be opened or not: `OpenFile` that fails returns nil.
unfoldable pub open_log_file : Bool → Logger → Bool × Logger
unfolding log_at
open_log_file opens lg =
    if opens
    then (
      true,
      log_at trace_level (codes "Opened new logfile")
          (record lg { has_file = true; output = open_file }),
    )
    else (false, record lg { has_file = false })

unfoldable pub close_log_file : Logger → Logger
unfolding log_at
close_log_file lg = record (log_at trace_level (codes "Closing logfile") lg) {
  output = closed_file;
}

-- `Initialize`
unfoldable pub initialize : Bytes → Bool → Logger → Bool × Logger
unfolding open_log_file
initialize logfile opens lg =
    if equal logfile (codes "stderr")
    then (true, lg)
    else if equal logfile (codes "stdout")
    then (true, record lg { output = stdout })
    else open_log_file opens (record lg { log_name = logfile })

abbrev pub ignoring : Bytes
ignoring = codes "Ignoring SIGHUP, logfile not configured"

-- `Rotate`
unfoldable pub rotate : Bool → Logger → Logger
unfolding open_log_file close_log_file log_at
rotate opens lg =
    if lg.has_file
    then (open_log_file opens (close_log_file lg)).1
    else log_at info_level ignoring lg

-- `Close`
unfoldable pub close : Logger → Logger
unfolding close_log_file
close lg = if lg.has_file then close_log_file lg else lg
