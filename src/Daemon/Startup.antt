-- ===== src/Daemon/Startup.antt =====
-- inbucket.go: `main` in front of the servers, with the configuration and the log that it sets up,
-- and the PID file, which the two ways out of `main` remove. What is printed on the standard streams
-- is not modelled.
pub mod Checked
use inbucket.Common.{
  Bool, true, false, ℕ, Option, List, [], ◌∷◌, ◌++◌, if◌then◌else◌, Unicode, Bytes, codes, equal,
}
use inbucket.Config.{File, Net, Settings, load_config}
use inbucket.Daemon.{Main, exited, forced}
use inbucket.Logging.{Logger, error_level, info_level, log_at, set_log_level, initialize, close}

-- The flags and arguments of the command line.
pub record Flags : Type 0 where
  pub help : Bool
  pub arguments : List Bytes
  pub pidfile : Bytes
  pub logfile : Bytes

-- What the operating system and robfig/config answer.
pub record World : Type 0 where
  pub read_file : Bytes → Option File
  pub log_opens : Bool
  pub pid_opens : Bool
  pub pid_closes : Bool
  pub pid_removes : Bool

-- The variables of the configuration and of the log, and whether the program's PID file is there.
pub record Host (Ip : Type 0) : Type 0 where
  pub settings : Settings Ip
  pub logger : Logger
  pub pid_file : Bool

-- `main` returns, exits with a status, or has the servers to start.
pub data Start : Type 0 where
  returns : Start
  exits : ℕ → Start
  serves : Start

abbrev pub version : Bytes
version = codes "1.2.0-rc1"

abbrev pub build_date : Bytes
build_date = codes "undefined"

abbrev pub starting : Bytes
starting = codes "Inbucket " ++ version ++ codes " (" ++ build_date ++ codes ") starting..."

module _ (unicode : Unicode) (net : Net) (flags : Flags) (w : World) where
  abbrev pub with_log : (Logger → Logger) → Host net.Ip → Host net.Ip
  with_log f h = record h { logger = f h.logger }

  -- `Write pidfile if requested`
  unfoldable pub write_pid_file : Host net.Ip → Start × Host net.Ip
  unfolding log_at
  write_pid_file h =
      if equal flags.pidfile (codes "none")
      then (serves, h)
      else if w.pid_opens
      then (
        serves,
        (if w.pid_closes
            then record h { pid_file = true }
            else with_log (log_at error_level (codes "Failed to close PID file"))
                (record h { pid_file = true })),
      )
      else (exits 1, with_log (log_at error_level (codes "Failed to create the PID file")) h)

  -- `Initialize logging`
  unfoldable pub start_logging : Host net.Ip → Start × Host net.Ip
  unfolding write_pid_file set_log_level initialize log_at
  start_logging h =
      let (known, levelled) = set_log_level unicode h.settings.log_level h.logger in
      let (opened, logger) = initialize flags.logfile w.log_opens levelled in
      if opened
      then write_pid_file (record h { logger = log_at info_level starting logger })
      else (exits 1, record h { logger = logger })

  -- `Load & Parse config`
  unfoldable pub start_config : Bytes → Host net.Ip → Start × Host net.Ip
  unfolding start_logging load_config
  start_config path h =
      let (loaded, loading) = load_config unicode net (w.read_file path) h.settings in
      let h' = record h { settings = loading.settings } in
      if loaded then start_logging h' else (exits 1, h')

  -- `main` up to the start of the servers.
  unfoldable pub start : Host net.Ip → Start × Host net.Ip
  unfolding start_config
  start h = if flags.help then (returns, h) else elim flags.arguments [
    | [] ↦ (exits 1, h)
    | path ∷ more ↦ elim more [ [] ↦ start_config path h | _ ∷ _ ↦ (exits 1, h) ]
  ]

  -- `removePIDFile`
  unfoldable pub remove_pid_file : Host net.Ip → Host net.Ip
  unfolding log_at
  remove_pid_file h =
      if equal flags.pidfile (codes "none")
      then h
      else if w.pid_removes
      then record h { pid_file = false }
      else with_log (log_at error_level (codes "Failed to remove the PID file")) h

  -- The end of `main` behind the drains, or of `timedExit`, which does not run what is deferred.
  unfoldable pub leave_main : Main → Host net.Ip → Host net.Ip
  unfolding remove_pid_file log_at close
  leave_main exited h = with_log close (remove_pid_file h)
  leave_main forced h =
      remove_pid_file
        (with_log (log_at error_level (codes "Clean shutdown took too long, forcing exit")) h)
  leave_main _ h = h
