-- ===== src/Daemon.antt =====
-- inbucket.go, and the goroutines that it starts: `Start`, `serve` and `emergencyShutdown` of
-- smtpd/listener.go, pop3d/listener.go and httpd/server.go, and the retention scanner as `Join` sees
-- it. A step is one that no other goroutine can come between; a test of a channel and its close are
-- two. The hub of msghub/hub.go is its queue and whether it takes operations; websockets queue theirs. A message of the log, and SIGHUP, which cycles the log, change nothing here.
pub mod Requests
pub mod Moves
pub mod Order
pub mod Weight
pub mod Ending
pub mod Joining
pub mod Startup
use inbucket.Common.{ℕ, suc, ◌+◌, ◌<◌, ◌≡◌, Bool, true, false, not, ◌&&◌, if◌then◌else◌}

-- The retention scanner; it has ended once its channel is closed.
pub data Scanner : Type 0 where
  unstarted scanning ended : Scanner

-- What the goroutines share: whether the shutdown channel is closed, whether the root context is
-- cancelled, whether one has panicked, and whether that was by the second close of the channel.
pub record Shared : Type 0 where
  pub closed : Bool
  pub cancelled : Bool
  pub panicked : Bool
  pub closed_twice : Bool
  pub scanner : Scanner

-- `close(shutdownChan)`
unfoldable pub close_channel : Shared → Shared
close_channel m =
    if m.closed
    then record m { panicked = true; closed_twice = true }
    else record m { closed = true }

-- `Start` of the scanner, with a retention period or without.
unfoldable pub start_scanner : Bool → Shared → Shared
start_scanner period m = record m { scanner = if period then scanning else ended }

-- A goroutine in front of its work, at it, at the test of `emergencyShutdown`, at its close, or behind.
pub data Thread : Type 0 where
  ready running testing closing returned : Thread

-- `emergencyShutdown`
pub data Emergency (m : Shared) : Thread → Shared → Thread → Type 0 where
  finds_closed : m.closed ≡ true → Emergency m testing m returned
  finds_open : m.closed ≡ false → Emergency m testing m closing
  closes : Emergency m closing (close_channel m) returned

-- A server: the goroutines of `Start` and `serve`, whether the listener is open, and the sessions of
-- the wait group, less those that are at a `Dispatch`.
pub record Server : Type 0 where
  pub starter : Thread
  pub acceptor : Thread
  pub listening : Bool
  pub sessions : ℕ

-- `serve` behind an error of `Accept` that is not temporary.
unfoldable pub accept_failed : Shared → Server → Server
accept_failed m sv = record sv { acceptor = if m.cancelled then returned else testing }

-- The steps of a server on its own, with what else starts as it listens.
pub data ServerMove (start : Shared → Shared) (m : Shared) (sv : Server)
    : Shared → Server → Type 0 where
  listen_fails : sv.starter ≡ ready → ServerMove start m sv m (record sv { starter = testing })
  listens :
      sv.starter ≡ ready
      → ServerMove start m sv
          (start m)
          (record sv { starter = running; acceptor = running; listening = true })
  stops :
      sv.starter ≡ running
      → m.cancelled ≡ true
      → ServerMove start m sv m (record sv { starter = returned; listening = false })
  starter_gives_up :
      {m' : Shared} {t : Thread}
      → Emergency m sv.starter m' t
      → ServerMove start m sv m' (record sv { starter = t })
  accepts_no_more :
      sv.acceptor ≡ running → sv.listening ≡ false → ServerMove start m sv m (accept_failed m sv)
  acceptor_gives_up :
      {m' : Shared} {t : Thread}
      → Emergency m sv.acceptor m' t
      → ServerMove start m sv m' (record sv { acceptor = t })
  session_ends :
      {n : ℕ} → sv.sessions ≡ suc n → ServerMove start m sv m (record sv { sessions = n })

-- What the network does to a server: a connection, or an error of the listener.
pub data ServerEvent (m : Shared) (sv : Server) : Server → Type 0 where
  connects :
      sv.acceptor ≡ running
      → sv.listening ≡ true
      → ServerEvent m sv (record sv { sessions = suc sv.sessions })
  breaks : sv.acceptor ≡ running → ServerEvent m sv (accept_failed m sv)

-- `main`: at its select, at the close behind a signal, at the drains of the servers with `Join`
-- between them, or behind them; `timedExit` leaves it forced.
pub data Main : Type 0 where
  selecting interrupted drain_smtp joining drain_pop3 exited forced : Main

-- The hub's goroutine: at its select, in a `Receive` that waits for room in the channel of a
-- websocket, or behind the close of its queue.
pub data HubState : Type 0 where
  taking waiting hub_closed : HubState

abbrev pub is_open : HubState → Bool
is_open hub_closed = false
is_open _ = true

abbrev pub op_chan_len : ℕ
op_chan_len = 100

-- `queue` is the number of operations in the hub's queue, and `sending` that of the sessions of SMTP
-- that are at a `Dispatch`.
pub record System : Type 0 where
  pub hub : HubState
  pub queue : ℕ
  pub sending : ℕ
  pub shared : Shared
  pub main : Main
  pub smtp : Server
  pub pop3 : Server
  pub http : Server

abbrev pub at_work : Main → Bool
at_work exited = false
at_work forced = false
at_work _ = true

abbrev pub is_draining : Main → Bool
is_draining drain_smtp = true
is_draining joining = true
is_draining drain_pop3 = true
is_draining _ = false

-- Whether the program runs: a panic, and the return of `main`, end every goroutine.
abbrev pub is_running : System → Bool
is_running s = not s.shared.panicked && at_work s.main

-- The steps of the program, with a retention period or without.
pub data Own (period : Bool) (s : System) : System → Type 0 where
  smtp_moves :
      {m : Shared} {sv : Server}
      → ServerMove (start_scanner period) s.shared s.smtp m sv
      → Own period s (record s { shared = m; smtp = sv })
  pop3_moves :
      {m : Shared} {sv : Server}
      → ServerMove (λ m. m) s.shared s.pop3 m sv
      → Own period s (record s { shared = m; pop3 = sv })
  http_moves :
      {m : Shared} {sv : Server}
      → ServerMove (λ m. m) s.shared s.http m sv
      → Own period s (record s { shared = m; http = sv })
  scanner_ends :
      s.shared.scanner ≡ scanning
      → s.shared.closed ≡ true
      → Own period s (record s { shared = record s.shared { scanner = ended } })
  main_closes :
      s.main ≡ interrupted
      → Own period s (record s { shared = close_channel s.shared; main = selecting })
  main_cancels :
      s.main ≡ selecting
      → s.shared.closed ≡ true
      → Own period s (record s { shared = record s.shared { cancelled = true }; main = drain_smtp })
  smtp_drained :
      s.main ≡ drain_smtp
      → s.smtp.sessions ≡ 0
      → s.sending ≡ 0
      → Own period s (record s { main = joining })
  scanner_joined :
      s.main ≡ joining → s.shared.scanner ≡ ended → Own period s (record s { main = drain_pop3 })
  pop3_drained :
      s.main ≡ drain_pop3 → s.pop3.sessions ≡ 0 → Own period s (record s { main = exited })
  session_sends :
      {n : ℕ}
      → s.sending ≡ suc n
      → is_open s.hub ≡ true
      → s.queue < op_chan_len
      → Own period s (record s {
        queue = suc s.queue;
        sending = n;
        smtp = record s.smtp { sessions = suc s.smtp.sessions };
      })
  session_panics :
      {n : ℕ}
      → s.sending ≡ suc n
      → s.hub ≡ hub_closed
      → Own period s (record s { sending = n; shared = record s.shared { panicked = true } })
  hub_takes : {n : ℕ} → s.hub ≡ taking → s.queue ≡ suc n → Own period s (record s { queue = n })
  hub_closes :
      s.hub ≡ taking → s.shared.cancelled ≡ true → Own period s (record s { hub = hub_closed })

-- What happens to the program: SIGINT or SIGTERM, the end of the time to exit, the network, the
-- deliveries, and the websockets, of which one may leave the hub waiting, or be met by a `Receive`
-- behind the close of its channel, or leave the hub once its queue is closed.
pub data Event (s : System) : System → Type 0 where
  signal : s.main ≡ selecting → Event s (record s { main = interrupted })
  times_out : is_draining s.main ≡ true → Event s (record s { main = forced })
  smtp_event : {sv : Server} → ServerEvent s.shared s.smtp sv → Event s (record s { smtp = sv })
  pop3_event : {sv : Server} → ServerEvent s.shared s.pop3 sv → Event s (record s { pop3 = sv })
  http_event : {sv : Server} → ServerEvent s.shared s.http sv → Event s (record s { http = sv })
  dispatches :
      {n : ℕ}
      → s.smtp.sessions ≡ suc n
      → Event s (record s { sending = suc s.sending; smtp = record s.smtp { sessions = n } })
  hub_waits : s.hub ≡ taking → Event s (record s { hub = waiting })
  hub_resumes : s.hub ≡ waiting → Event s (record s { hub = taking })
  hub_panics :
      is_open s.hub ≡ true → Event s (record s { shared = record s.shared { panicked = true } })
  socket_sends :
      is_open s.hub ≡ true → s.queue < op_chan_len → Event s (record s { queue = suc s.queue })
  socket_panics :
      s.hub ≡ hub_closed → Event s (record s { shared = record s.shared { panicked = true } })

pub data Step (period : Bool) (s t : System) : Type 0 where
  own : is_running s ≡ true → Own period s t → Step period s t
  event : is_running s ≡ true → Event s t → Step period s t

abbrev pub new_server : Server
new_server = record { starter = ready; acceptor = ready; listening = false; sessions = 0 }

-- `main` behind the start of its goroutines.
abbrev pub started : System
started = record {
  shared = record {
    closed = false;
    cancelled = false;
    panicked = false;
    closed_twice = false;
    scanner = unstarted;
  };
  hub = taking;
  queue = 0;
  sending = 0;
  main = selecting;
  smtp = new_server;
  pop3 = new_server;
  http = new_server;
}

pub data Reach (period : Bool) (s : System) : System → Type 0 where
  here : Reach period s s
  next : {t u : System} → Reach period s t → Step period t u → Reach period s u
