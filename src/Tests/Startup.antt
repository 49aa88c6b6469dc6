-- ===== src/Tests/Startup.antt =====
-- The start of the program at a concrete command line.
use inbucket.Common.{refl, true, false, some, [], ◌∷◌, codes}
use inbucket.Daemon.Startup.{Flags, World, Host, start}
use inbucket.Daemon.Startup.Checked.{Checked, start-Checked}
use inbucket.Tests.FileStore.{plain}
use inbucket.Tests.Program.{plain_file, texts, blank, logger}

-- `inbucket -pidfile pid -logfile log etc/inbucket.conf`
abbrev command_line : Flags
command_line = record {
  help = false;
  arguments = codes "etc/inbucket.conf" ∷ [];
  pidfile = codes "pid";
  logfile = codes "log";
}

abbrev willing : World
willing = record {
  read_file = λ path. some plain_file;
  log_opens = true;
  pid_opens = true;
  pid_closes = true;
  pid_removes = true;
}

abbrev host : Host texts.Ip
host = record { settings = blank; logger = logger; pid_file = false }

start-Checked_example :
    Checked plain.unicode texts command_line willing
      (start plain.unicode texts command_line willing host)
start-Checked_example =
    start-Checked plain.unicode texts command_line willing (λ s. refl) host refl refl
