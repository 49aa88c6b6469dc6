-- ===== src/Daemon/Startup/Checked.antt =====
-- inbucket.go: what `main` checks in front of the servers.
use inbucket.Common.{
  ◌≡◌, refl, ap, sym, ◌∙◌, Bool, true, false, not, ◌&&◌, ◌||◌, ◌⊎◌, inl, inr, Option, none, some,
  List, [], ◌∷◌, is_nil, if◌then◌else◌, Unicode, Bytes, codes, equal, to_upper, arith, Bool-cases,
  Option-cases,
}
use inbucket.Config.{File, Net, Settings, load_config}
use inbucket.Config.Accepted.{is_valid, settings_of, load_config-is_valid, valid-level}
use inbucket.Daemon.{exited, forced}
use inbucket.Daemon.Startup.{
  Flags, World, Host, Start, exits, serves, starting, write_pid_file, start_logging, start_config,
  start, remove_pid_file, leave_main,
}
use inbucket.Logging.{
  Logger, Level, error_level, warn_level, info_level, trace_level, print, log_at, set_log_level,
  open_file, open_log_file, initialize,
}
use inbucket.Logging.Levels.{set_log_level-is_level}

-- The name of a level in a configuration.
abbrev pub level_name : Level → Bytes
level_name error_level = codes "ERROR"
level_name warn_level = codes "WARN"
level_name info_level = codes "INFO"
level_name trace_level = codes "TRACE"

log_at-max_level :
    (level : Level) (text : Bytes) (lg : Logger) → (log_at level text lg).max_level ≡ lg.max_level
unfolding log_at print
log_at-max_level level text lg = ground arith

initialize-max_level :
    (logfile : Bytes) (opens : Bool) (lg : Logger)
    → (initialize logfile opens lg).1.max_level ≡ lg.max_level
unfolding initialize open_log_file
initialize-max_level logfile opens lg = ground (
  arith,
  log_at-max_level trace_level (codes "Opened new logfile")
      (record (record lg { log_name = logfile }) { has_file = true; output = open_file }),
)

initialize-ok :
    (logfile : Bytes) (opens : Bool) (lg : Logger)
    → (initialize logfile opens lg).0
      ≡ (equal logfile (codes "stderr") || equal logfile (codes "stdout") || opens)
unfolding initialize open_log_file
initialize-ok logfile opens lg = ground arith

set_log_level-named :
    (unicode : Unicode) (level : Bytes) (lg : Logger)
    → (set_log_level unicode level lg).0 ≡ true
    → equal (to_upper unicode level) (level_name (set_log_level unicode level lg).1.max_level)
      ≡ true
unfolding set_log_level
set_log_level-named unicode level lg e = ground (arith, e)

module _ (unicode : Unicode) (net : Net) (flags : Flags) (w : World) where
  abbrev pub log_ok : Bool
  log_ok =
      equal flags.logfile (codes "stderr") || equal flags.logfile (codes "stdout") || w.log_opens

  abbrev pub pid_ok : Bool
  pid_ok = equal flags.pidfile (codes "none") || w.pid_opens

  write_pid_file-start :
      (h : Host net.Ip)
      → (write_pid_file unicode net flags w h).0 ≡ (if pid_ok then serves else exits 1)
  unfolding write_pid_file
  write_pid_file-start h = ground arith

  write_pid_file-pid_file :
      (h : Host net.Ip)
      → (write_pid_file unicode net flags w h).1.pid_file
        ≡ (h.pid_file || not (equal flags.pidfile (codes "none")) && w.pid_opens)
  unfolding write_pid_file
  write_pid_file-pid_file h = ground arith

  write_pid_file-settings :
      (h : Host net.Ip) → (write_pid_file unicode net flags w h).1.settings ≡ h.settings
  unfolding write_pid_file
  write_pid_file-settings h = ground arith

  write_pid_file-max_level :
      (h : Host net.Ip)
      → (write_pid_file unicode net flags w h).1.logger.max_level ≡ h.logger.max_level
  unfolding write_pid_file
  write_pid_file-max_level h = ground (
    arith,
    log_at-max_level error_level (codes "Failed to close PID file") h.logger,
    log_at-max_level error_level (codes "Failed to create the PID file") h.logger,
  )

  -- The file that the command line names, where it names one and the file can be parsed.
  abbrev pub chosen : Option File
  chosen = elim flags.arguments [
    | [] ↦ none
    | path ∷ more ↦ elim more [ [] ↦ w.read_file path | _ ∷ _ ↦ none ]
  ]

  abbrev pub accepted : Option File → Bool
  accepted none = false
  accepted (some file) = is_valid unicode net file

  -- What `main` needs to start the servers.
  abbrev pub may_serve : Bool
  may_serve = accepted chosen && (log_ok && pid_ok)

  -- The servers start with the variables of the file and with a level of the log that they name,
  -- and the PID file is there if one is asked for.
  pub record Serving (h : Host net.Ip) : Type 0 where
    pub file : File
    pub of_arguments : chosen ≡ some file
    pub settings : h.settings ≡ settings_of unicode net file
    pub level : equal (to_upper unicode h.settings.log_level) (level_name h.logger.max_level) ≡ true
    pub pid_file : h.pid_file ≡ not (equal flags.pidfile (codes "none"))

  -- What `main` answers.
  abbrev pub Checked : Start × Host net.Ip → Type 0
  Checked r =
      ((may_serve ≡ true) × (r.0 ≡ serves) × Serving r.1)
      ⊎ ((may_serve ≡ false) × (r.0 ≡ exits 1) × (r.1.pid_file ≡ false))

  -- The log, as `Initialize` leaves it.
  abbrev log_of : Host net.Ip → Bool × Logger
  log_of h =
      initialize flags.logfile w.log_opens (set_log_level unicode h.settings.log_level h.logger).1

  abbrev logging : Host net.Ip → Host net.Ip
  logging h = record h { logger = log_at info_level starting (log_of h).1 }

  logging-max_level :
      (h : Host net.Ip)
      → (logging h).logger.max_level
        ≡ (set_log_level unicode h.settings.log_level h.logger).1.max_level
  logging-max_level h =
      log_at-max_level info_level starting (log_of h).1
      ∙ initialize-max_level flags.logfile w.log_opens
          (set_log_level unicode h.settings.log_level h.logger).1

  start_logging-start :
      (h : Host net.Ip)
      → (start_logging unicode net flags w h).0 ≡ (if log_ok && pid_ok then serves else exits 1)
  unfolding start_logging
  start_logging-start h = ground (
    arith,
    write_pid_file-start (logging h),
    initialize-ok flags.logfile w.log_opens (set_log_level unicode h.settings.log_level h.logger).1,
  )

  start_logging-pid_file :
      (h : Host net.Ip)
      → (start_logging unicode net flags w h).1.pid_file
        ≡ (h.pid_file || log_ok && not (equal flags.pidfile (codes "none")) && w.pid_opens)
  unfolding start_logging
  start_logging-pid_file h = ground (
    arith,
    write_pid_file-pid_file (logging h),
    initialize-ok flags.logfile w.log_opens (set_log_level unicode h.settings.log_level h.logger).1,
  )

  start_logging-settings :
      (h : Host net.Ip) → (start_logging unicode net flags w h).1.settings ≡ h.settings
  unfolding start_logging
  start_logging-settings h = ground (arith, write_pid_file-settings (logging h))

  start_logging-max_level :
      (h : Host net.Ip)
      → (start_logging unicode net flags w h).1.logger.max_level
        ≡ (set_log_level unicode h.settings.log_level h.logger).1.max_level
  unfolding start_logging
  start_logging-max_level h = ground (
    arith,
    write_pid_file-max_level (logging h),
    logging-max_level h,
    initialize-max_level flags.logfile w.log_opens
        (set_log_level unicode h.settings.log_level h.logger).1,
  )

  -- What `main` does behind `LoadConfig`.
  abbrev loaded_in : Host net.Ip → Bool → Settings net.Ip → Start × Host net.Ip
  loaded_in h ok settings =
      if ok
      then start_logging unicode net flags w (record h { settings = settings })
      else (exits 1, record h { settings = settings })

  start_config-loaded :
      (path : Bytes) (h : Host net.Ip)
      → let r = load_config unicode net (w.read_file path) h.settings in
        start_config unicode net flags w path h ≡ loaded_in h r.0 r.1.settings
  unfolding start_config
  start_config-loaded path h = refl

  module _ (upper : (s : Bytes) → is_nil (unicode.upper s) ≡ is_nil s) where
    to_upper-is_nil : (s : Bytes) → is_nil (to_upper unicode s) ≡ is_nil s
    unfolding to_upper
    to_upper-is_nil [] = refl
    to_upper-is_nil (c ∷ s) = ground (arith, upper (c ∷ s))

    level_known :
        (file : File) (lg : Logger)
        → is_valid unicode net file ≡ true
        → let level = (settings_of unicode net file).log_level in
          equal (to_upper unicode level) (level_name (set_log_level unicode level lg).1.max_level)
          ≡ true
    level_known file lg v =
        let level = (settings_of unicode net file).log_level in
        let valid = valid-level unicode net file v in
        set_log_level-named unicode level lg
          (set_log_level-is_level unicode level lg (to_upper-is_nil level ∙ valid.1) ∙ valid.0)

    start_logging-Serving :
        (file : File) (h : Host net.Ip)
        → chosen ≡ some file
        → is_valid unicode net file ≡ true
        → (log_ok && pid_ok) ≡ true
        → h.pid_file ≡ false
        → h.settings ≡ settings_of unicode net file
        → Serving (start_logging unicode net flags w h).1
    start_logging-Serving file h c v ok p e = record {
      file = file;
      of_arguments = c;
      settings = start_logging-settings h ∙ e;
      level =
          rw (start_logging-max_level h, start_logging-settings h, e) (level_known file h.logger v);
      pid_file = start_logging-pid_file h ∙ ground (arith, ok, p);
    }

    refused :
        (h : Host net.Ip) → accepted chosen ≡ false → h.pid_file ≡ false → Checked (exits 1, h)
    refused h e p = inr (rw e refl, refl, p)

    proceeds :
        (file : File) (h : Host net.Ip)
        → chosen ≡ some file
        → is_valid unicode net file ≡ true
        → h.pid_file ≡ false
        → h.settings ≡ settings_of unicode net file
        → Checked (start_logging unicode net flags w h)
    proceeds file h c v p e = elim (Bool-cases (log_ok && pid_ok)) [
      | inl ok ↦ inl (
        rw (c, v, ok) refl,
        start_logging-start h ∙ rw ok refl,
        start_logging-Serving file h c v ok p e,
      )
      | inr ko ↦ inr (
        rw (c, v, ko) refl,
        start_logging-start h ∙ rw ko refl,
        start_logging-pid_file h ∙ ground (arith, ko, p),
      )
    ]

    behind_load :
        (file : File) (ok : Bool) (settings : Settings net.Ip) (h : Host net.Ip)
        → chosen ≡ some file
        → h.pid_file ≡ false
        → ok ≡ is_valid unicode net file
        → (is_valid unicode net file ≡ true → settings ≡ settings_of unicode net file)
        → Checked (loaded_in h ok settings)
    behind_load file true settings h c p e f =
        proceeds file (record h { settings = settings }) c (sym e) p (f (sym e))
    behind_load file false settings h c p e f =
        refused (record h { settings = settings }) (ap accepted c ∙ sym e) p

    start_config-Checked :
        (path : Bytes) (h : Host net.Ip)
        → chosen ≡ w.read_file path
        → h.pid_file ≡ false
        → Checked (start_config unicode net flags w path h)
    unfolding load_config
    start_config-Checked path h c p = elim (Option-cases (w.read_file path)) [
      | inl e ↦ rw (start_config-loaded path h, e) (refused h (ap accepted (c ∙ e)) p)
      | inr (file, e) ↦
          let loads = load_config-is_valid unicode net file h.settings in
          rw (start_config-loaded path h, e)
            (behind_load file (load_config unicode net (some file) h.settings).0
              (load_config unicode net (some file) h.settings).1.settings h (c ∙ e) p loads.0
              loads.1)
    ]

    with_arguments :
        (words : List Bytes) (h : Host net.Ip)
        → flags.arguments ≡ words
        → flags.help ≡ false
        → h.pid_file ≡ false
        → Checked (start unicode net flags w h)
    unfolding start
    with_arguments [] h e help p =
        let unread : start unicode net flags w h ≡ (exits 1, h) = rw (help, e) refl in
        rw unread (refused h (rw e refl) p)
    with_arguments (path ∷ []) h e help p =
        let read : start unicode net flags w h ≡ start_config unicode net flags w path h =
          rw (help, e) refl in
        rw read (start_config-Checked path h (rw e refl) p)
    with_arguments (path ∷ more ∷ words) h e help p =
        let unread : start unicode net flags w h ≡ (exits 1, h) = rw (help, e) refl in
        rw unread (refused h (rw e refl) p)

    -- `main` without `-help`, where no PID file is there and the upper case of a text is empty only
    -- if the text is, starts the servers exactly if it is given one argument, a file that can be
    -- parsed and is valid, and the log's file and the PID file can be opened where they are asked
    -- for. Then the variables are those of the file, the level of the log is the one that they
    -- name, and the PID file is there exactly if one was asked for. Otherwise it exits with status
    -- 1 and leaves no PID file.
    pub start-Checked :
        (h : Host net.Ip)
        → flags.help ≡ false
        → h.pid_file ≡ false
        → Checked (start unicode net flags w h)
    start-Checked h help p = with_arguments flags.arguments h refl help p

    -- A program that served leaves no PID file where it can be removed, whether `main` returns or
    -- `timedExit` forces the end.
    pub leave_main-Serving :
        (h : Host net.Ip)
        → Serving h
        → w.pid_removes ≡ true
        → ((leave_main unicode net flags w exited h).pid_file ≡ false)
          × ((leave_main unicode net flags w forced h).pid_file ≡ false)
    unfolding leave_main remove_pid_file
    leave_main-Serving h s e = ground (arith, e, s.pid_file)
