-- ===== src/Daemon/Weight.antt =====
-- What each step of the program leaves to do.
use inbucket.Common.{ℕ, ◌+◌, ◌≡◌, ◌<◌, ◌≤◌, arith, Bool, true}
use inbucket.Daemon.Order.{Inv}
use inbucket.Daemon.Moves.{ServerInv, is_ready, gives_up-scanner}
use inbucket.Daemon.{
  HubState, hub_closed, session_sends, session_panics, hub_takes, hub_closes, Scanner, unstarted,
  scanning, ended, Shared, close_channel, start_scanner, Thread, ready, running, testing, closing,
  returned, Emergency, finds_closed, finds_open, closes, Server, accept_failed, ServerMove,
  listen_fails, listens, stops, starter_gives_up, accepts_no_more, acceptor_gives_up, session_ends,
  Main, interrupted, selecting, drain_smtp, joining, drain_pop3, exited, forced, System, Own,
  smtp_moves, pop3_moves, http_moves, scanner_ends, main_closes, main_cancels, smtp_drained,
  scanner_joined, pop3_drained,
}

thread_weight : Thread → ℕ
thread_weight ready = 5
thread_weight running = 4
thread_weight testing = 3
thread_weight closing = 2
thread_weight returned = 0

scanner_weight : Scanner → ℕ
scanner_weight unstarted = 2
scanner_weight scanning = 1
scanner_weight ended = 0

main_weight : Main → ℕ
main_weight interrupted = 7
main_weight selecting = 6
main_weight drain_smtp = 5
main_weight joining = 4
main_weight drain_pop3 = 3
main_weight exited = 0
main_weight forced = 0

abbrev server_weight : Server → ℕ
server_weight sv = thread_weight sv.starter + (thread_weight sv.acceptor + sv.sessions)

hub_weight : HubState → ℕ
hub_weight hub_closed = 0
hub_weight _ = 1

-- What the hub and the sessions that send to it have left to do.
abbrev sending_weight : System → ℕ
sending_weight s = hub_weight s.hub + (s.queue + (s.sending + (s.sending + s.sending)))

-- What is left to do.
pub weight : System → ℕ
weight s =
    scanner_weight s.shared.scanner
    + (main_weight s.main
        + (server_weight s.smtp
            + (server_weight s.pop3 + (server_weight s.http + sending_weight s))))

gives_up-weight :
    {m m' : Shared} {t t' : Thread} → Emergency m t m' t' → thread_weight t' < thread_weight t
unfolding thread_weight
gives_up-weight (finds_closed e) = omega arith
gives_up-weight (finds_open e) = omega arith
gives_up-weight closes = omega arith

move-weight :
    {start : Shared → Shared} {m m' : Shared} {sv sv' : Server}
    → ServerMove start m sv m' sv'
    → ServerInv m sv
    → (is_ready sv.acceptor ≡ true → scanner_weight (start m).scanner ≤ scanner_weight m.scanner)
    → scanner_weight m'.scanner + server_weight sv' < scanner_weight m.scanner + server_weight sv
unfolding thread_weight accept_failed
move-weight {sv} (listen_fails e) i k = ground arith
move-weight (listens e) i k = ground (arith, i.fresh, k)
move-weight (stops e f) i k = ground arith
move-weight (starter_gives_up g) i k = ground (arith, gives_up-weight g, gives_up-scanner g)
move-weight (accepts_no_more e f) i k = ground arith
move-weight (acceptor_gives_up g) i k = ground (arith, gives_up-weight g, gives_up-scanner g)
move-weight (session_ends e) i k = ground arith

start-weight :
    (period : Bool) (s : System)
    → Inv s
    → is_ready s.smtp.acceptor ≡ true
    → scanner_weight (start_scanner period s.shared).scanner ≤ scanner_weight s.shared.scanner
unfolding start_scanner scanner_weight
start-weight period s i e = ground (arith, i.scanned)

pub Own-weight : {period : Bool} {s t : System} → Own period s t → Inv s → weight t < weight s
unfolding weight main_weight scanner_weight close_channel hub_weight
Own-weight {period} {s} (smtp_moves mv) i =
    omega (arith, move-weight mv i.smtp (start-weight period s i))
Own-weight (pop3_moves mv) i = omega (arith, move-weight mv i.pop3 (λ e. omega arith))
Own-weight (http_moves mv) i = omega (arith, move-weight mv i.http (λ e. omega arith))
Own-weight (scanner_ends e f) i = ground arith
Own-weight {s} (main_closes e) i = ground arith
Own-weight (main_cancels e f) i = ground arith
Own-weight (smtp_drained e f n) i = ground arith
Own-weight (scanner_joined e f) i = ground arith
Own-weight (pop3_drained e f) i = ground arith
Own-weight (session_sends e o q) i = ground arith
Own-weight (session_panics e c) i = ground arith
Own-weight (hub_takes e q) i = ground arith
Own-weight (hub_closes e c) i = ground arith
