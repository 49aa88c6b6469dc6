-- ===== src/Daemon/Joining.antt =====
-- `Join`, which waits for the retention scanner.
use inbucket.Common.{◌≡◌, ◌≢◌, refl, ap, ◌∙◌, arith, Bool, true, false}
use inbucket.Daemon.Order.{Inv, has_stopped, reach-Inv}
use inbucket.Daemon.Moves.{is_unstarted, gives_up-scanner, move-same_scanner}
use inbucket.Daemon.{
  session_sends, session_panics, hub_takes, hub_closes, dispatches, hub_waits, hub_resumes,
  hub_panics, socket_sends, socket_panics, Scanner, ended, Shared, close_channel, start_scanner,
  Thread, ready, running, testing, Emergency, finds_closed, finds_open, closes, Server,
  accept_failed, ServerMove, listen_fails, listens, stops, starter_gives_up, accepts_no_more,
  acceptor_gives_up, session_ends, connects, breaks, Main, drain_pop3, exited, System, Own,
  smtp_moves, pop3_moves, http_moves, scanner_ends, main_closes, main_cancels, smtp_drained,
  scanner_joined, pop3_drained, Event, signal, times_out, smtp_event, pop3_event, http_event, own,
  event, started, Reach, here, next,
}

-- Whether `Join` has returned.
abbrev pub is_joined : Main → Bool
is_joined drain_pop3 = true
is_joined exited = true
is_joined _ = false

abbrev pub is_ended : Scanner → Bool
is_ended ended = true
is_ended _ = false

abbrev Joined : System → Type 0
Joined s = is_joined s.main ≡ true → is_ended s.shared.scanner ≡ true

move-ended :
    {start : Shared → Shared} {m m' : Shared} {sv sv' : Server}
    → ServerMove start m sv m' sv'
    → (sv.starter ≡ ready → is_ended m.scanner ≡ true → is_ended (start m).scanner ≡ true)
    → is_ended m.scanner ≡ true
    → is_ended m'.scanner ≡ true
move-ended (listen_fails e) k f = f
move-ended (listens e) k f = k e f
move-ended (stops e g) k f = f
move-ended (starter_gives_up g) k f = ap is_ended (gives_up-scanner g) ∙ f
move-ended (accepts_no_more e g) k f = f
move-ended (acceptor_gives_up g) k f = ap is_ended (gives_up-scanner g) ∙ f
move-ended (session_ends e) k f = f

Own-Joined : {period : Bool} {s t : System} → Own period s t → Inv s → Joined s → Joined t
unfolding close_channel start_scanner
Own-Joined (smtp_moves mv) i j e =
    move-ended mv (λ f g. ground (arith, i.smtp.fresh, i.scanned)) (j e)
Own-Joined (pop3_moves mv) i j e = move-ended mv (λ f g. g) (j e)
Own-Joined (http_moves mv) i j e = move-ended mv (λ f g. g) (j e)
Own-Joined (scanner_ends e f) i j g = refl
Own-Joined (main_closes e) i j f = cc
Own-Joined (main_cancels e f) i j g = cc
Own-Joined (smtp_drained e f n) i j g = cc
Own-Joined (scanner_joined e f) i j g = ap is_ended f
Own-Joined (pop3_drained e f) i j g = j (ap is_joined e)
Own-Joined (session_sends e o q) i j g = j g
Own-Joined (session_panics e c) i j g = j g
Own-Joined (hub_takes e q) i j g = j g
Own-Joined (hub_closes e c) i j g = j g

event-Joined : {s t : System} → Event s t → Joined s → Joined t
event-Joined (signal e) j f = cc
event-Joined (times_out e) j f = cc
event-Joined (smtp_event v) j f = j f
event-Joined (pop3_event v) j f = j f
event-Joined (http_event v) j f = j f
event-Joined (dispatches e) j f = j f
event-Joined (hub_waits e) j f = j f
event-Joined (hub_resumes e) j f = j f
event-Joined (hub_panics e) j f = j f
event-Joined (socket_sends e q) j f = j f
event-Joined (socket_panics e) j f = j f

reach-Joined : {period : Bool} {t : System} → Reach period started t → Joined t
reach-Joined here = λ e. cc
reach-Joined (next r (own run o)) = Own-Joined o (reach-Inv r) (reach-Joined r)
reach-Joined (next r (event run e)) = event-Joined e (reach-Joined r)

-- Where `main` has returned on its own, the shutdown channel is closed, the context is done, and
-- the retention scanner has ended.
pub exited-ended :
    {period : Bool} {t : System}
    → Reach period started t
    → t.main ≡ exited
    → (t.shared.closed ≡ true) × (t.shared.cancelled ≡ true) × (t.shared.scanner ≡ ended)
exited-ended r e =
    let i = reach-Inv r in
    let c = i.stops (ap has_stopped e) in
    (i.cancels c, c, ground (arith, reach-Joined r (ap is_joined e)))

-- A starter that gave up.
abbrev is_lost : Thread → Bool
is_lost ready = false
is_lost running = false
is_lost _ = true

record Lost (s : System) : Type 0 where
  starter : is_lost s.smtp.starter ≡ true
  scanner : is_unstarted s.shared.scanner ≡ true
  waits : is_joined s.main ≡ false

gives_up-is_lost : {m m' : Shared} {t t' : Thread} → Emergency m t m' t' → is_lost t' ≡ true
gives_up-is_lost (finds_closed e) = refl
gives_up-is_lost (finds_open e) = refl
gives_up-is_lost closes = refl

move-is_lost :
    {start : Shared → Shared} {m m' : Shared} {sv sv' : Server}
    → ServerMove start m sv m' sv'
    → is_lost sv.starter ≡ true
    → (is_lost sv'.starter ≡ true) × (m'.scanner ≡ m.scanner)
unfolding accept_failed
move-is_lost (listen_fails e) f = (refl, refl)
move-is_lost (listens e) f = absurd (ground arith)
move-is_lost (stops e g) f = (refl, refl)
move-is_lost (starter_gives_up g) f = (gives_up-is_lost g, gives_up-scanner g)
move-is_lost (accepts_no_more e g) f = (f, refl)
move-is_lost (acceptor_gives_up g) f = (f, gives_up-scanner g)
move-is_lost (session_ends e) f = (f, refl)

-- A step that keeps what the three facts are about.
still-Lost :
    {s t : System}
    → Lost s
    → t.smtp.starter ≡ s.smtp.starter
    → t.shared.scanner ≡ s.shared.scanner
    → t.main ≡ s.main
    → Lost t
still-Lost l e f g = record {
  starter = ap is_lost e ∙ l.starter;
  scanner = ap is_unstarted f ∙ l.scanner;
  waits = ap is_joined g ∙ l.waits;
}

Own-Lost : {period : Bool} {s t : System} → Own period s t → Lost s → Lost t
unfolding close_channel
Own-Lost (smtp_moves mv) l =
    let (starter, scanner) = move-is_lost mv l.starter in
    record { starter = starter; scanner = ap is_unstarted scanner ∙ l.scanner; waits = l.waits }
Own-Lost (pop3_moves mv) l = record {
  starter = l.starter;
  scanner = ap is_unstarted (move-same_scanner mv) ∙ l.scanner;
  waits = l.waits;
}
Own-Lost (http_moves mv) l = record {
  starter = l.starter;
  scanner = ap is_unstarted (move-same_scanner mv) ∙ l.scanner;
  waits = l.waits;
}
Own-Lost (scanner_ends e f) l = absurd (ground (arith, l.scanner))
Own-Lost {s} (main_closes e) l = record {
  starter = l.starter;
  scanner = ground (arith, l.scanner);
  waits = refl;
}
Own-Lost (main_cancels e f) l = record { starter = l.starter; scanner = l.scanner; waits = refl }
Own-Lost (smtp_drained e f n) l = record { starter = l.starter; scanner = l.scanner; waits = refl }
Own-Lost (scanner_joined e f) l = absurd (ground (arith, l.scanner))
Own-Lost (pop3_drained e f) l = absurd (ground (arith, l.waits))
Own-Lost (session_sends e o q) l = still-Lost l refl refl refl
Own-Lost (session_panics e c) l = still-Lost l refl refl refl
Own-Lost (hub_takes e q) l = still-Lost l refl refl refl
Own-Lost (hub_closes e c) l = still-Lost l refl refl refl

event-Lost : {s t : System} → Event s t → Lost s → Lost t
unfolding accept_failed
event-Lost (signal e) l = record { starter = l.starter; scanner = l.scanner; waits = refl }
event-Lost (times_out e) l = record { starter = l.starter; scanner = l.scanner; waits = refl }
event-Lost (smtp_event (connects e f)) l = record {
  starter = l.starter;
  scanner = l.scanner;
  waits = l.waits;
}
event-Lost (smtp_event (breaks e)) l = record {
  starter = l.starter;
  scanner = l.scanner;
  waits = l.waits;
}
event-Lost (pop3_event v) l = record { starter = l.starter; scanner = l.scanner; waits = l.waits }
event-Lost (http_event v) l = still-Lost l refl refl refl
event-Lost (dispatches e) l = still-Lost l refl refl refl
event-Lost (hub_waits e) l = still-Lost l refl refl refl
event-Lost (hub_resumes e) l = still-Lost l refl refl refl
event-Lost (hub_panics e) l = still-Lost l refl refl refl
event-Lost (socket_sends e q) l = still-Lost l refl refl refl
event-Lost (socket_panics e) l = still-Lost l refl refl refl

reach-Lost : {period : Bool} {s t : System} → Lost s → Reach period s t → Lost t
reach-Lost l here = l
reach-Lost l (next r (own run o)) = Own-Lost o (reach-Lost l r)
reach-Lost l (next r (event run e)) = event-Lost e (reach-Lost l r)

-- Where the SMTP server fails to listen, `main` never returns on its own, whatever the other
-- goroutines do: it waits in `Join` for a scanner that was not started.
pub listen_fails-hangs :
    {period : Bool} {s t : System}
    → Reach period started s
    → s.smtp.starter ≡ testing
    → Reach period s t
    → t.main ≢ exited
listen_fails-hangs {s} r e q f =
    let i = reach-Inv r in
    let none : is_unstarted s.shared.scanner ≡ true = i.scanned ∙ i.smtp.fresh (ground arith) in
    let l : Lost s = record {
      starter = ap is_lost e;
      scanner = none;
      waits = ground (arith, none, reach-Joined r);
    } in
    ground (arith, (reach-Lost l q).waits)
