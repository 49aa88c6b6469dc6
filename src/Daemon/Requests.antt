-- ===== src/Daemon/Requests.antt =====
-- The requests to shut down, and the close of the channel.
use inbucket.Common.{ℕ, ◌+◌, ◌≡◌, ◌≤◌, refl, sym, ap, ◌∙◌, arith, Bool, true, false, if◌then◌else◌}
use inbucket.Daemon.Order.{Inv, reach-Inv}
use inbucket.Daemon.Moves.{ServerInv}
use inbucket.Daemon.{
  session_sends, session_panics, hub_takes, hub_closes, dispatches, hub_waits, hub_resumes,
  hub_panics, socket_sends, socket_panics, Shared, close_channel, start_scanner, Thread, closing,
  Emergency, finds_closed, finds_open, closes, Server, accept_failed, ServerMove, listen_fails,
  listens, stops, starter_gives_up, accepts_no_more, acceptor_gives_up, session_ends, connects,
  breaks, Main, interrupted, System, Own, smtp_moves, pop3_moves, http_moves, scanner_ends,
  main_closes, main_cancels, smtp_drained, scanner_joined, pop3_drained, Event, signal, times_out,
  smtp_event, pop3_event, http_event, own, event, started, Reach, here, next,
}

-- The requests that a step makes: a signal, or an `emergencyShutdown` that finds the channel open.
abbrev gives_up : {m m' : Shared} {t t' : Thread} → Emergency m t m' t' → ℕ
gives_up (finds_closed e) = 0
gives_up (finds_open e) = 1
gives_up closes = 0

abbrev move_requests :
    {start : Shared → Shared} {m m' : Shared} {sv sv' : Server} → ServerMove start m sv m' sv' → ℕ
move_requests (starter_gives_up g) = gives_up g
move_requests (acceptor_gives_up g) = gives_up g
move_requests _ = 0

abbrev own_requests : {period : Bool} {s t : System} → Own period s t → ℕ
own_requests (smtp_moves mv) = move_requests mv
own_requests (pop3_moves mv) = move_requests mv
own_requests (http_moves mv) = move_requests mv
own_requests _ = 0

abbrev event_requests : {s t : System} → Event s t → ℕ
event_requests (signal e) = 1
event_requests _ = 0

abbrev pub requests : {period : Bool} {s t : System} → Reach period s t → ℕ
requests here = 0
requests (next r (own running o)) = requests r + own_requests o
requests (next r (event running e)) = requests r + event_requests e

-- The closes to come, and those that are done.
abbrev pending : Thread → ℕ
pending closing = 1
pending _ = 0

abbrev main_pending : Main → ℕ
main_pending interrupted = 1
main_pending _ = 0

abbrev one : Bool → ℕ
one b = if b then 1 else 0

abbrev closed_count : Shared → ℕ
closed_count m = one m.closed + one m.closed_twice

abbrev server_pending : Server → ℕ
server_pending sv = pending sv.starter + pending sv.acceptor

abbrev pub closes_count : System → ℕ
closes_count s =
    closed_count s.shared
    + (main_pending s.main
        + (server_pending s.smtp + (server_pending s.pop3 + server_pending s.http)))

closed_count-close_channel :
    (m : Shared) → m.closed_twice ≡ false → closed_count (close_channel m) ≡ closed_count m + 1
unfolding close_channel
closed_count-close_channel m e = ground (arith, e)

gives_up-count :
    {m m' : Shared} {t t' : Thread} (g : Emergency m t m' t')
    → m.closed_twice ≡ false
    → closed_count m' + pending t' ≡ closed_count m + pending t + gives_up g
gives_up-count (finds_closed e) n = ground arith
gives_up-count (finds_open e) n = ground arith
gives_up-count {m} closes n = ground (arith, closed_count-close_channel m n)

move-count :
    {start : Shared → Shared} {m m' : Shared} {sv sv' : Server} (mv : ServerMove start m sv m' sv')
    → ServerInv m sv
    → m.closed_twice ≡ false
    → closed_count (start m) ≡ closed_count m
    → closed_count m' + server_pending sv' ≡ closed_count m + server_pending sv + move_requests mv
unfolding accept_failed
move-count {sv} (listen_fails e) i n k = ground arith
move-count (listens e) i n k = ground (arith, i.fresh)
move-count (stops e f) i n k = ground arith
move-count (starter_gives_up g) i n k = ground (arith, gives_up-count g n)
move-count (accepts_no_more e f) i n k = ground arith
move-count (acceptor_gives_up g) i n k = ground (arith, gives_up-count g n)
move-count (session_ends e) i n k = ground arith

Own-count :
    {period : Bool} {s t : System} (o : Own period s t)
    → Inv s
    → s.shared.closed_twice ≡ false
    → closes_count t ≡ closes_count s + own_requests o
unfolding close_channel start_scanner
Own-count {s} (smtp_moves mv) i n = ground (arith, move-count mv i.smtp n refl)
Own-count (pop3_moves mv) i n = ground (arith, move-count mv i.pop3 n refl)
Own-count (http_moves mv) i n = ground (arith, move-count mv i.http n refl)
Own-count (scanner_ends e f) i n = ground arith
Own-count {s} (main_closes e) i n = ground (arith, closed_count-close_channel s.shared n)
Own-count (main_cancels e f) i n = ground arith
Own-count (smtp_drained e f g) i n = ground arith
Own-count (scanner_joined e f) i n = ground arith
Own-count (pop3_drained e f) i n = ground arith
Own-count (session_sends e o q) i n = ground arith
Own-count (session_panics e c) i n = ground arith
Own-count (hub_takes e q) i n = ground arith
Own-count (hub_closes e c) i n = ground arith

event-count : {s t : System} (v : Event s t) → closes_count t ≡ closes_count s + event_requests v
unfolding accept_failed
event-count (signal e) = ground arith
event-count (times_out e) = ground arith
event-count (smtp_event (connects e f)) = ground arith
event-count (smtp_event (breaks e)) = ground arith
event-count (pop3_event (connects e f)) = ground arith
event-count (pop3_event (breaks e)) = ground arith
event-count (http_event (connects e f)) = ground arith
event-count (http_event (breaks e)) = ground arith
event-count (dispatches e) = ground arith
event-count (hub_waits e) = ground arith
event-count (hub_resumes e) = ground arith
event-count (hub_panics e) = ground arith
event-count (socket_sends e q) = ground arith
event-count (socket_panics e) = ground arith

requests-closes_count :
    {period : Bool} {t : System} (r : Reach period started t) → requests r ≡ closes_count t
requests-closes_count here = refl
requests-closes_count (next r (own run o)) =
    ap (λ n. n + own_requests o) (requests-closes_count r)
    ∙ sym (Own-count o (reach-Inv r) (ground (arith, (reach-Inv r).panics)))
requests-closes_count (next r (event run e)) =
    ap (λ n. n + event_requests e) (requests-closes_count r) ∙ sym (event-count e)

-- In every run of the program the requests to shut down, which are the signals and the emergency
-- shutdowns that find the channel open, are the closes of the channel that are under way, the
-- close that is done and the second one, which panicked. So a run with one request does not close
-- the channel twice; other panics are not excluded.
pub closed_twice-requests :
    {period : Bool} {t : System} (r : Reach period started t)
    → (requests r ≡ closes_count t) × (t.shared.closed_twice ≡ true → 2 ≤ requests r)
closed_twice-requests {t} r =
    (requests-closes_count r, λ p. ground (arith, requests-closes_count r, (reach-Inv r).twice p))
