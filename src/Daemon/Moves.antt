-- ===== src/Daemon/Moves.antt =====
-- What the steps of a server keep of it and of the shared state.
use inbucket.Common.{◌≡◌, ◌≢◌, refl, sym, ap, ◌∙◌, arith, Bool, true, false}
use inbucket.Daemon.{
  Scanner, unstarted, Shared, close_channel, start_scanner, Thread, ready, running, returned,
  Emergency, finds_closed, finds_open, closes, Server, accept_failed, ServerMove, listen_fails,
  listens, stops, starter_gives_up, accepts_no_more, acceptor_gives_up, session_ends, ServerEvent,
  connects, breaks,
}

abbrev has_no_listener : Thread → Bool
has_no_listener running = false
has_no_listener returned = false
has_no_listener _ = true

abbrev pub is_ready : Thread → Bool
is_ready ready = true
is_ready _ = false

abbrev pub is_unstarted : Scanner → Bool
is_unstarted unstarted = true
is_unstarted _ = false

pub record ServerInv (m : Shared) (sv : Server) : Type 0 where
  pub fresh : has_no_listener sv.starter ≡ true → is_ready sv.acceptor ≡ true
  pub opened : sv.starter ≡ running → sv.listening ≡ true
  pub stopped : is_ready sv.acceptor ≡ false → sv.listening ≡ false → m.cancelled ≡ true

-- What the steps keep of the shared state.
pub record Grows (m m' : Shared) : Type 0 where
  pub cancelled : m'.cancelled ≡ m.cancelled
  pub closed : m.closed ≡ true → m'.closed ≡ true
  pub twice : (m.closed_twice ≡ true → m.closed ≡ true) → m'.closed_twice ≡ true → m'.closed ≡ true
  pub panicked :
      (m.closed_twice ≡ true → m.panicked ≡ true) → m'.closed_twice ≡ true → m'.panicked ≡ true

pub Grows-close_channel : (m : Shared) → Grows m (close_channel m)
unfolding close_channel
Grows-close_channel m = record {
  cancelled = ground arith;
  closed = λ e. ground arith;
  twice = λ h e. ground arith;
  panicked = λ h e. ground arith;
}

pub Grows-same : (m : Shared) → Grows m m
Grows-same m = record { cancelled = refl; closed = λ e. e; twice = λ h. h; panicked = λ h. h }

pub Grows-Emergency : {m m' : Shared} {t t' : Thread} → Emergency m t m' t' → Grows m m'
Grows-Emergency {m} (finds_closed e) = Grows-same m
Grows-Emergency {m} (finds_open e) = Grows-same m
Grows-Emergency {m} closes = Grows-close_channel m

pub gives_up-scanner :
    {m m' : Shared} {t t' : Thread} → Emergency m t m' t' → m'.scanner ≡ m.scanner
unfolding close_channel
gives_up-scanner (finds_closed e) = refl
gives_up-scanner (finds_open e) = refl
gives_up-scanner {m} closes = ground arith

-- A goroutine that gives up is behind its work.
no_listener-gives_up :
    {m m' : Shared} {t t' : Thread}
    → Emergency m t m' t'
    → (has_no_listener t ≡ true) × (is_ready t ≡ false) × (is_ready t' ≡ false) × (t' ≢ running)
no_listener-gives_up (finds_closed e) = (refl, refl, refl, λ e. cc)
no_listener-gives_up (finds_open e) = (refl, refl, refl, λ e. cc)
no_listener-gives_up closes = (refl, refl, refl, λ e. cc)

pub move-ServerInv :
    {start : Shared → Shared} {m m' : Shared} {sv sv' : Server}
    → ServerMove start m sv m' sv'
    → (start m).cancelled ≡ m.cancelled
    → ServerInv m sv
    → ServerInv m' sv'
unfolding accept_failed
move-ServerInv (listen_fails e) k i = record {
  fresh = λ f. ground (arith, i.fresh);
  opened = λ f. cc;
  stopped = λ f g. ground (arith, i.fresh);
}
move-ServerInv (listens e) k i = record { fresh = λ f. cc; opened = λ f. refl; stopped = λ f g. cc }
move-ServerInv (stops e f) k i = record { fresh = λ f. cc; opened = λ f. cc; stopped = λ g h. f }
move-ServerInv (starter_gives_up g) k i =
    let (none, was, is, off) = no_listener-gives_up g in
    record {
      fresh = λ f. i.fresh none;
      opened = λ f. absurd (off f);
      stopped = λ f h. absurd (ground (arith, i.fresh none));
    }
move-ServerInv (accepts_no_more e f) k i = record {
  fresh = λ f. ground (arith, i.fresh f);
  opened = i.opened;
  stopped = λ f h. ground (arith, i.stopped);
}
move-ServerInv (acceptor_gives_up g) k i =
    let (none, was, is, off) = no_listener-gives_up g in
    record {
      fresh = λ f. ground (arith, i.fresh f);
      opened = i.opened;
      stopped = λ f h. (Grows-Emergency g).cancelled ∙ i.stopped was h;
    }
move-ServerInv (session_ends e) k i = record {
  fresh = i.fresh;
  opened = i.opened;
  stopped = i.stopped;
}

pub event-ServerInv :
    {m : Shared} {sv sv' : Server} → ServerEvent m sv sv' → ServerInv m sv → ServerInv m sv'
unfolding accept_failed
event-ServerInv (connects e f) i = record {
  fresh = i.fresh;
  opened = i.opened;
  stopped = i.stopped;
}
event-ServerInv (breaks e) i = record {
  fresh = λ f. ground (arith, i.fresh f);
  opened = i.opened;
  stopped = λ f h. ground (arith, i.stopped);
}

-- A server that stands still while the context stays or is done.
pub still-ServerInv :
    {m m' : Shared} {sv : Server}
    → (m.cancelled ≡ true → m'.cancelled ≡ true)
    → ServerInv m sv
    → ServerInv m' sv
still-ServerInv k i = record {
  fresh = i.fresh;
  opened = i.opened;
  stopped = λ f h. k (i.stopped f h);
}

-- What a move of a server keeps of the shared state, where its start does.
pub move-Grows :
    {start : Shared → Shared} {m m' : Shared} {sv sv' : Server}
    → ServerMove start m sv m' sv'
    → Grows m (start m)
    → Grows m m'
move-Grows (listens e) k = k
move-Grows (starter_gives_up g) k = Grows-Emergency g
move-Grows (acceptor_gives_up g) k = Grows-Emergency g
move-Grows {m} (listen_fails e) k = Grows-same m
move-Grows {m} (stops e f) k = Grows-same m
move-Grows {m} (accepts_no_more e f) k = Grows-same m
move-Grows {m} (session_ends e) k = Grows-same m

-- The scanner has started exactly if the SMTP server has listened.
pub move-scanned :
    (period : Bool) {m m' : Shared} {sv sv' : Server}
    → ServerMove (start_scanner period) m sv m' sv'
    → is_unstarted m.scanner ≡ is_ready sv.acceptor
    → is_unstarted m'.scanner ≡ is_ready sv'.acceptor
unfolding start_scanner accept_failed
move-scanned period (listen_fails e) k = k
move-scanned period (listens e) k = ground arith
move-scanned period (stops e f) k = k
move-scanned period (starter_gives_up g) k = ap is_unstarted (gives_up-scanner g) ∙ k
move-scanned period (accepts_no_more e f) k = ground arith
move-scanned period (acceptor_gives_up g) k =
    let (none, was, is, off) = no_listener-gives_up g in
    ap is_unstarted (gives_up-scanner g) ∙ k ∙ was ∙ sym is
move-scanned period (session_ends e) k = k

pub move-same_scanner :
    {m m' : Shared} {sv sv' : Server} → ServerMove (λ n. n) m sv m' sv' → m'.scanner ≡ m.scanner
move-same_scanner (listen_fails e) = refl
move-same_scanner (listens e) = refl
move-same_scanner (stops e f) = refl
move-same_scanner (starter_gives_up g) = (gives_up-scanner g)
move-same_scanner (accepts_no_more e f) = refl
move-same_scanner (acceptor_gives_up g) = (gives_up-scanner g)
move-same_scanner (session_ends e) = refl

pub Grows-start_scanner : (period : Bool) (m : Shared) → Grows m (start_scanner period m)
unfolding start_scanner
Grows-start_scanner period m = record {
  cancelled = refl;
  closed = λ e. e;
  twice = λ h. h;
  panicked = λ h. h;
}

pub close_channel-scanner :
    (m : Shared) → is_unstarted (close_channel m).scanner ≡ is_unstarted m.scanner
unfolding close_channel
close_channel-scanner m = ground arith

pub event-scanned :
    {m : Shared} {sv sv' : Server}
    → ServerEvent m sv sv'
    → is_unstarted m.scanner ≡ is_ready sv.acceptor
    → is_unstarted m.scanner ≡ is_ready sv'.acceptor
unfolding accept_failed
event-scanned (connects e f) k = k
event-scanned (breaks e) k = ground arith
