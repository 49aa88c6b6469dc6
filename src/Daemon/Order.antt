-- ===== src/Daemon/Order.antt =====
-- The order in which the program shuts down.
use inbucket.Common.{ℕ, ◌≡◌, refl, sym, ap, ◌∙◌, arith, Bool, true, false}
use inbucket.Daemon.{
  HubState, session_sends, session_panics, hub_takes, hub_closes, dispatches, hub_waits,
  hub_resumes, hub_panics, socket_sends, socket_panics, Shared, Server, Main, interrupted,
  selecting, System, Own, smtp_moves, pop3_moves, http_moves, scanner_ends, main_closes,
  main_cancels, smtp_drained, scanner_joined, pop3_drained, Event, signal, times_out, smtp_event,
  pop3_event, http_event, Step, own, event, started, Reach, here, next,
}
use inbucket.Daemon.Moves.{
  is_ready, is_unstarted, ServerInv, Grows, Grows-close_channel, Grows-same, move-ServerInv,
  event-ServerInv, still-ServerInv, move-Grows, move-scanned, move-same_scanner,
  Grows-start_scanner, close_channel-scanner, event-scanned,
}

-- Whether `main` has left its loop.
abbrev pub has_stopped : Main → Bool
has_stopped selecting = false
has_stopped interrupted = false
has_stopped _ = true

-- The context is done only behind the close of the channel, `main` leaves its loop only with the
-- context done, and the scanner starts as the SMTP server listens. The second close of the channel
-- comes behind the first, and panics.
pub record Inv (s : System) : Type 0 where
  pub smtp : ServerInv s.shared s.smtp
  pub pop3 : ServerInv s.shared s.pop3
  pub http : ServerInv s.shared s.http
  pub cancels : s.shared.cancelled ≡ true → s.shared.closed ≡ true
  pub twice : s.shared.closed_twice ≡ true → s.shared.closed ≡ true
  pub panics : s.shared.closed_twice ≡ true → s.shared.panicked ≡ true
  pub stops : has_stopped s.main ≡ true → s.shared.cancelled ≡ true
  pub scanned : is_unstarted s.shared.scanner ≡ is_ready s.smtp.acceptor

-- A system whose servers are well formed again, behind a step that keeps `main`.
assemble :
    {s : System} {m : Shared} {smtp pop3 http : Server}
    → Inv s
    → Grows s.shared m
    → ServerInv m smtp
    → ServerInv m pop3
    → ServerInv m http
    → is_unstarted m.scanner ≡ is_ready smtp.acceptor
    → Inv (record s { shared = m; smtp = smtp; pop3 = pop3; http = http })
assemble i g a b c k = record {
  smtp = a;
  pop3 = b;
  http = c;
  cancels = λ e. g.closed (i.cancels (sym g.cancelled ∙ e));
  twice = g.twice i.twice;
  panics = g.panicked i.panics;
  stops = λ e. g.cancelled ∙ i.stops e;
  scanned = k;
}

drained :
    {s : System} {main : Main} → Inv s → s.shared.cancelled ≡ true → Inv (record s { main = main })
drained i c = record {
  smtp = i.smtp;
  pop3 = i.pop3;
  http = i.http;
  cancels = i.cancels;
  twice = i.twice;
  panics = i.panics;
  stops = λ e. c;
  scanned = i.scanned;
}

-- What the invariant does not read: the hub, and the sessions that send to it.
other_hub :
    {s : System} {hub : HubState} {queue sending : ℕ}
    → Inv s
    → Inv (record s { hub = hub; queue = queue; sending = sending })
other_hub i = record {
  smtp = i.smtp;
  pop3 = i.pop3;
  http = i.http;
  cancels = i.cancels;
  twice = i.twice;
  panics = i.panics;
  stops = i.stops;
  scanned = i.scanned;
}

panicking :
    {s : System} {sending : ℕ}
    → Inv s
    → Inv (record s { sending = sending; shared = record s.shared { panicked = true } })
panicking i = record {
  smtp = still-ServerInv (λ e. e) i.smtp;
  pop3 = still-ServerInv (λ e. e) i.pop3;
  http = still-ServerInv (λ e. e) i.http;
  cancels = i.cancels;
  twice = i.twice;
  panics = λ e. refl;
  stops = i.stops;
  scanned = i.scanned;
}

Own-Inv : {period : Bool} {s t : System} → Own period s t → Inv s → Inv t
Own-Inv {period} {s} (smtp_moves mv) i =
    let g = move-Grows mv (Grows-start_scanner period s.shared) in
    let k = λ (e : s.shared.cancelled ≡ true). g.cancelled ∙ e in
    assemble i g (move-ServerInv mv (Grows-start_scanner period s.shared).cancelled i.smtp)
      (still-ServerInv k i.pop3) (still-ServerInv k i.http) (move-scanned period mv i.scanned)
Own-Inv {s} (pop3_moves mv) i =
    let g = move-Grows mv (Grows-same s.shared) in
    let k = λ (e : s.shared.cancelled ≡ true). g.cancelled ∙ e in
    assemble i g (still-ServerInv k i.smtp) (move-ServerInv mv refl i.pop3)
      (still-ServerInv k i.http) (ap is_unstarted (move-same_scanner mv) ∙ i.scanned)
Own-Inv {s} (http_moves mv) i =
    let g = move-Grows mv (Grows-same s.shared) in
    let k = λ (e : s.shared.cancelled ≡ true). g.cancelled ∙ e in
    assemble i g (still-ServerInv k i.smtp) (still-ServerInv k i.pop3)
      (move-ServerInv mv refl i.http) (ap is_unstarted (move-same_scanner mv) ∙ i.scanned)
Own-Inv {s} (scanner_ends e f) i =
    assemble i (record { cancelled = refl; closed = λ e. e; twice = λ h. h; panicked = λ h. h })
      (still-ServerInv (λ e. e) i.smtp) (still-ServerInv (λ e. e) i.pop3)
      (still-ServerInv (λ e. e) i.http) (ground (arith, i.scanned))
Own-Inv {s} (main_closes e) i =
    let g = Grows-close_channel s.shared in
    let k = λ (e : s.shared.cancelled ≡ true). g.cancelled ∙ e in
    record {
      smtp = still-ServerInv k i.smtp;
      pop3 = still-ServerInv k i.pop3;
      http = still-ServerInv k i.http;
      cancels = λ e. g.closed (i.cancels (sym g.cancelled ∙ e));
      twice = g.twice i.twice;
      panics = g.panicked i.panics;
      stops = λ e. cc;
      scanned = close_channel-scanner s.shared ∙ i.scanned;
    }
Own-Inv (main_cancels e f) i = record {
  smtp = still-ServerInv (λ g. refl) i.smtp;
  pop3 = still-ServerInv (λ g. refl) i.pop3;
  http = still-ServerInv (λ g. refl) i.http;
  cancels = λ g. f;
  twice = i.twice;
  panics = i.panics;
  stops = λ g. refl;
  scanned = i.scanned;
}
Own-Inv (smtp_drained e f n) i = drained i (i.stops (ap has_stopped e))
Own-Inv (scanner_joined e f) i = drained i (i.stops (ap has_stopped e))
Own-Inv (pop3_drained e f) i = drained i (i.stops (ap has_stopped e))
Own-Inv {s} (session_sends e o q) i = record {
  smtp = record { fresh = i.smtp.fresh; opened = i.smtp.opened; stopped = i.smtp.stopped };
  pop3 = i.pop3;
  http = i.http;
  cancels = i.cancels;
  twice = i.twice;
  panics = i.panics;
  stops = i.stops;
  scanned = i.scanned;
}
Own-Inv {s} (session_panics e c) i = panicking i
Own-Inv {s} (hub_takes e q) i = other_hub i
Own-Inv {s} (hub_closes e c) i = other_hub i

event-Inv : {s t : System} → Event s t → Inv s → Inv t
event-Inv {s} (signal e) i = record {
  smtp = i.smtp;
  pop3 = i.pop3;
  http = i.http;
  cancels = i.cancels;
  twice = i.twice;
  panics = i.panics;
  stops = λ f. cc;
  scanned = i.scanned;
}
event-Inv {s} (times_out e) i = drained i (i.stops (ground arith))
event-Inv {s} (smtp_event v) i =
    assemble i (Grows-same s.shared) (event-ServerInv v i.smtp) i.pop3 i.http
      (event-scanned v i.scanned)
event-Inv {s} (pop3_event v) i =
    assemble i (Grows-same s.shared) i.smtp (event-ServerInv v i.pop3) i.http i.scanned
event-Inv {s} (http_event v) i =
    assemble i (Grows-same s.shared) i.smtp i.pop3 (event-ServerInv v i.http) i.scanned
event-Inv {s} (dispatches e) i = record {
  smtp = record { fresh = i.smtp.fresh; opened = i.smtp.opened; stopped = i.smtp.stopped };
  pop3 = i.pop3;
  http = i.http;
  cancels = i.cancels;
  twice = i.twice;
  panics = i.panics;
  stops = i.stops;
  scanned = i.scanned;
}
event-Inv (hub_waits e) i = other_hub i
event-Inv (hub_resumes e) i = other_hub i
event-Inv (hub_panics e) i = panicking i
event-Inv (socket_sends e q) i = other_hub i
event-Inv (socket_panics e) i = panicking i

pub step-Inv : {period : Bool} {s t : System} → Step period s t → Inv s → Inv t
step-Inv (own run o) i = Own-Inv o i
step-Inv (event run e) i = event-Inv e i

new-ServerInv : ServerInv started.shared started.smtp
new-ServerInv = record { fresh = λ e. refl; opened = λ e. cc; stopped = λ e f. cc }

-- From the start of its goroutines on the program keeps its invariant: the context is done only behind the close of the
-- shutdown channel, `main` leaves its loop only with the context done, a server has listened if its
-- `serve` runs, closes its listener only with the context done, and the retention scanner
-- has started exactly if the SMTP server has listened.
pub reach-Inv : {period : Bool} {t : System} → Reach period started t → Inv t
reach-Inv here = record {
  smtp = new-ServerInv;
  pop3 = new-ServerInv;
  http = new-ServerInv;
  cancels = λ e. e;
  twice = λ e. cc;
  panics = λ e. cc;
  stops = λ e. cc;
  scanned = refl;
}
reach-Inv (next r st) = step-Inv st (reach-Inv r)
