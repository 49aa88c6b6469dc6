-- ===== src/Tests/Program.antt =====
-- The program as a whole, its configuration and its log at concrete inputs.
use inbucket.Common.{
  ℕ, ◌≡◌, ◌≢◌, ◌≤◌, ◌⊎◌, ◌++◌, refl, true, false, some, List, [], ◌∷◌, map, Bytes, codes, equal,
  to_upper, upper_byte, pos,
}
use inbucket.Config.{File, Net, Settings, load_config}
use inbucket.Config.Accepted.{is_valid, settings_of, load_config-is_valid}
use inbucket.Daemon.{
  System, is_running, Reach, here, next, own, event, signal, started, interrupted, close_channel,
  running, returned, joining, main_closes, main_cancels, smtp_moves, smtp_drained, scanner_joined,
  pop3_drained, listens, listen_fails, scanner_ends, start_scanner, starter_gives_up, finds_open,
  closes, exited, testing, ended, scanning,
}
use inbucket.Daemon.Ending.{Runs, Ahead, shutdown-ends}
use inbucket.Daemon.Joining.{exited-ended, listen_fails-hangs}
use inbucket.Daemon.Requests.{requests, closes_count, closed_twice-requests}
use inbucket.Hub.{HubMessage}
use inbucket.Logging.{Logger, info_level, trace_level, open_file, rotate}
use inbucket.Logging.Rotation.{Use, entry, hang_up, use_all, rotate-lost}
use inbucket.Socket.Closing.{monitored}
use inbucket.Socket.Order.{arrivals, headers, socket_run-monitored}
use inbucket.Socket.Writer.{
  SocketEvent, arrives, takes, ticks, json_header, socket_event, socket_run, open_socket,
  take_message, write_frame,
}
use inbucket.Socket.{receive, new_msg_listener}
use inbucket.Tests.FileStore.{plain}

-- SIGINT, and the close of the channel behind it.
abbrev shut : System
shut = record started { shared = record started.shared { closed = true } }

told : Reach true started (record started { main = interrupted })
told = next here (event refl (signal refl))

shut_reached : Reach true started shut
unfolding close_channel
shut_reached = next told (own refl (main_closes refl))

closed_twice-requests_example :
    (requests shut_reached ≡ closes_count shut)
    × (shut.shared.closed_twice ≡ true → 2 ≤ requests shut_reached)
closed_twice-requests_example = closed_twice-requests shut_reached

shutdown-ends_example :
    ((bound : ℕ) × ((n : ℕ) (t : System) → Runs true shut n t → n ≤ bound))
    × ((n : ℕ) (t : System) → Runs true shut n t → (is_running t ≡ false) ⊎ Ahead true t)
shutdown-ends_example = shutdown-ends shut_reached refl

-- The SMTP server listens, a signal arrives, and the program drains.
abbrev listening : System
listening = record started {
  shared = record started.shared { scanner = scanning };
  smtp = record started.smtp { starter = running; acceptor = running; listening = true };
}

abbrev drained : System
drained = record listening {
  shared = record {
    closed = true;
    cancelled = true;
    panicked = false;
    closed_twice = false;
    scanner = ended;
  };
  main = exited;
}

drained_reached : Reach true started drained
unfolding close_channel start_scanner
drained_reached =
    let served : Reach true started listening = next here (own refl (smtp_moves (listens refl))) in
    let closed = next (next served (event refl (signal refl))) (own refl (main_closes refl)) in
    let cancelled = next closed (own refl (main_cancels refl refl)) in
    let joining =
      next (next cancelled (own refl (scanner_ends refl refl)))
        (own refl (smtp_drained refl refl refl)) in
    next (next joining (own refl (scanner_joined refl refl))) (own refl (pop3_drained refl refl))

exited-ended_example :
    (drained.shared.closed ≡ true)
    × (drained.shared.cancelled ≡ true)
    × (drained.shared.scanner ≡ ended)
exited-ended_example = exited-ended drained_reached refl

-- The address of the SMTP server is taken: it asks for the shutdown, and `main` drains.
abbrev refused : System
refused = record started { smtp = record started.smtp { starter = testing } }

abbrev waiting : System
waiting = record refused {
  shared = record started.shared { closed = true; cancelled = true };
  main = joining;
  smtp = record started.smtp { starter = returned };
}

refused_reached : Reach true started refused
refused_reached = next here (own refl (smtp_moves (listen_fails refl)))

waiting_reached : Reach true refused waiting
unfolding close_channel
waiting_reached =
    let decided = next here (own refl (smtp_moves (starter_gives_up (finds_open refl)))) in
    let closed = next decided (own refl (smtp_moves (starter_gives_up closes))) in
    next (next closed (own refl (main_cancels refl refl))) (own refl (smtp_drained refl refl refl))

listen_fails-hangs_example : waiting.main ≢ exited
listen_fails-hangs_example = listen_fails-hangs refused_reached refl waiting_reached

abbrev pub logger : Logger
logger = record {
  max_level = trace_level;
  log_name = codes "inbucket.log";
  has_file = true;
  output = open_file;
  entries = [];
}

abbrev uses : List Use
uses = entry info_level (codes "hello") ∷ hang_up true ∷ entry info_level (codes "again") ∷ []

rotate-lost_example : use_all uses (rotate false logger) ≡ rotate false logger
rotate-lost_example = rotate-lost logger uses refl

abbrev news : HubMessage
news = record { mailbox = codes "a"; id = []; from = []; to = []; subject = []; date = 1; size = 2 }

abbrev socket_events : List SocketEvent
socket_events =
    arrives news
    ∷ arrives (record news { mailbox = codes "b" })
    ∷ ticks true
    ∷ takes true
    ∷ arrives (record news { size = 3 })
    ∷ []

socket_run-monitored_example :
    let sk = socket_run 0 socket_events (open_socket 0 (codes "a")) in
    headers sk.sent ++ map json_header sk.listener.queue
    ≡ map json_header (monitored (codes "a") (arrivals socket_events))
unfolding socket_run socket_event open_socket take_message write_frame receive equal
    new_msg_listener
socket_run-monitored_example = socket_run-monitored 0 (codes "a") socket_events refl refl

-- A file of which each option is there: a text is the name of its option, and any text an address.
abbrev pub plain_file : File
plain_file = record {
  has_section = λ s. true;
  has_option = λ s o. true;
  string = λ s o. record { value = codes "info"; ok = true };
  flag = λ s o. record { value = true; ok = true };
  number = λ s o. record { value = pos 25; ok = true };
}

abbrev pub texts : Net
texts = record { Ip = Bytes; parse_ip = λ s. some s; to4 = λ ip. some ip }

-- The variables before: those of a file of empty texts.
abbrev pub blank : Settings Bytes
blank =
    settings_of plain.unicode texts
      (record plain_file { string = λ s o. record { value = []; ok = true } })

load_config-is_valid_example :
    let loaded = load_config plain.unicode texts (some plain_file) blank in
    (loaded.0 ≡ is_valid plain.unicode texts plain_file)
    × (is_valid plain.unicode texts plain_file ≡ true
        → loaded.1.settings ≡ settings_of plain.unicode texts plain_file)
load_config-is_valid_example = load_config-is_valid plain.unicode texts plain_file blank

-- The file is accepted.
plain_file_accepted : is_valid plain.unicode texts plain_file ≡ true
unfolding equal to_upper upper_byte
plain_file_accepted = refl
