-- ===== src/Daemon/Ending.antt =====
-- How the program comes to its end once the shutdown channel is closed.
use inbucket.Common.{
  ltb, ℕ, zero, suc, ◌+◌, ◌≡◌, ◌<◌, ◌≤◌, refl, sym, ap, arith, Bool, true, false, Bool-cases, inl,
  inr, ◌⊎◌,
}
use mathlib.Core.Path.{subst}
use inbucket.Daemon.Weight.{weight, Own-weight}
use inbucket.Daemon.Order.{Inv, has_stopped, reach-Inv, step-Inv}
use inbucket.Daemon.Moves.{move-Grows, Grows-same, Grows-start_scanner}
use inbucket.Daemon.{
  HubState, taking, waiting, hub_closed, is_open, op_chan_len, session_sends, session_panics,
  hub_takes, hub_closes, Scanner, unstarted, scanning, ended, close_channel, start_scanner, Thread,
  ready, running, testing, closing, returned, Emergency, finds_closed, closes, listen_fails, stops,
  starter_gives_up, session_ends, Main, interrupted, selecting, drain_smtp, joining, drain_pop3,
  exited, forced, System, is_running, Own, smtp_moves, pop3_moves, http_moves, scanner_ends,
  main_closes, main_cancels, smtp_drained, scanner_joined, pop3_drained, own, started, Reach,
}

-- The steps of the program from one state to another, with no event between them.
pub data Runs (period : Bool) (s : System) : ℕ → System → Type 0 where
  done : Runs period s 0 s
  goes :
      {n : ℕ} {t u : System}
      → Runs period s n t
      → is_running t ≡ true
      → Own period t u
      → Runs period s (n + 1) u

-- `main` waits in `Join` for a scanner that was never started, and whose server has given up.
abbrev pub WaitsInVain : System → Type 0
WaitsInVain s = (s.main ≡ joining) × (s.shared.scanner ≡ unstarted) × (s.smtp.starter ≡ returned)

-- `main` waits for sessions that wait in `Dispatch` for room in the queue of a hub that waits in a
-- `Receive`.
abbrev pub WaitsForHub : System → Type 0
WaitsForHub s =
    (s.main ≡ drain_smtp) × (s.hub ≡ waiting) × (op_chan_len ≤ s.queue) × (0 < s.sending)

-- What a state has in front of it where the channel is closed.
abbrev pub Ahead : Bool → System → Type 0
Ahead period s = ((t : System) × Own period s t) ⊎ WaitsInVain s ⊎ WaitsForHub s

-- Where `main` waits in `Join`.
join-Ahead :
    (period : Bool) (s : System)
    → s.main ≡ joining
    → s.shared.closed ≡ true
    → s.shared.cancelled ≡ true
    → Ahead period s
join-Ahead period s e f g = scanner s.shared.scanner refl
  where
    starter : s.shared.scanner ≡ unstarted → (th : Thread) → s.smtp.starter ≡ th → Ahead period s
    starter u ready q = inl (_, smtp_moves (listen_fails q))
    starter u running q = inl (_, smtp_moves (stops q g))
    starter u testing q = inl (
      _,
      smtp_moves (
          starter_gives_up
            (subst (λ th. Emergency s.shared th s.shared returned) (sym q) (finds_closed f))),
    )
    starter u closing q = inl (
      _,
      smtp_moves (
          starter_gives_up
            (subst (λ th. Emergency s.shared th (close_channel s.shared) returned) (sym q) closes)),
    )
    starter u returned q = inr (inl (e, u, q))

    scanner : (sc : Scanner) → s.shared.scanner ≡ sc → Ahead period s
    scanner unstarted q = starter q s.smtp.starter refl
    scanner scanning q = inl (_, scanner_ends q f)
    scanner ended q = inl (_, scanner_joined e q)

pub progress :
    (period : Bool) (s : System)
    → is_running s ≡ true
    → s.shared.closed ≡ true
    → Inv s
    → Ahead period s
progress period s run f i = go s.main refl
  where
    room : {n : ℕ} → s.main ≡ drain_smtp → s.sending ≡ suc n → s.hub ≡ waiting → Ahead period s
    room e k h = elim (Bool-cases (ltb s.queue op_chan_len)) [
      | inl b ↦ inl (_, session_sends k (ap is_open h) (ground (arith, b)))
      | inr b ↦ inr (inr (e, h, ground (arith, b), omega arith))
    ]

    take :
        {n : ℕ} (queue : ℕ) → s.sending ≡ suc n → s.hub ≡ taking → s.queue ≡ queue → Ahead period s
    take zero k h q = inl (_, session_sends k (ap is_open h) (omega arith))
    take (suc queue) k h q = inl (_, hub_takes h q)

    send :
        {n : ℕ} (hub : HubState)
        → s.main ≡ drain_smtp
        → s.sending ≡ suc n
        → s.hub ≡ hub
        → Ahead period s
    send taking e k h = take s.queue k h refl
    send waiting e k h = room e k h
    send hub_closed e k h = inl (_, session_panics k h)

    sent : (n : ℕ) → s.main ≡ drain_smtp → s.smtp.sessions ≡ 0 → s.sending ≡ n → Ahead period s
    sent zero e q k = inl (_, smtp_drained e q k)
    sent (suc n) e q k = send s.hub e k refl

    drain : (n : ℕ) → s.main ≡ drain_smtp → s.smtp.sessions ≡ n → Ahead period s
    drain zero e q = sent s.sending e q refl
    drain (suc n) e q = inl (_, smtp_moves (session_ends q))

    last : (n : ℕ) → s.main ≡ drain_pop3 → s.pop3.sessions ≡ n → Ahead period s
    last zero e q = inl (_, pop3_drained e q)
    last (suc n) e q = inl (_, pop3_moves (session_ends q))

    go : (main : Main) → s.main ≡ main → Ahead period s
    go selecting e = inl (_, main_cancels e f)
    go interrupted e = inl (_, main_closes e)
    go drain_smtp e = drain s.smtp.sessions e refl
    go joining e = join-Ahead period s e f (i.stops (ap has_stopped e))
    go drain_pop3 e = last s.pop3.sessions e refl
    go exited e = absurd (ground arith)
    go forced e = absurd (ground arith)

-- The channel stays closed.
Own-closed :
    {period : Bool} {s t : System}
    → Own period s t
    → s.shared.closed ≡ true
    → t.shared.closed ≡ true
unfolding close_channel start_scanner
Own-closed {period} {s} (smtp_moves mv) f =
    (move-Grows mv (Grows-start_scanner period s.shared)).closed f
Own-closed {s} (pop3_moves mv) f = (move-Grows mv (Grows-same s.shared)).closed f
Own-closed {s} (http_moves mv) f = (move-Grows mv (Grows-same s.shared)).closed f
Own-closed (scanner_ends e g) f = f
Own-closed {s} (main_closes e) f = ground arith
Own-closed (main_cancels e g) f = f
Own-closed (smtp_drained e g n) f = f
Own-closed (scanner_joined e g) f = f
Own-closed (pop3_drained e g) f = f
Own-closed (session_sends e o q) f = f
Own-closed (session_panics e c) f = f
Own-closed (hub_takes e q) f = f
Own-closed (hub_closes e c) f = f

Runs-Inv :
    {period : Bool} {s t : System} {n : ℕ}
    → Runs period s n t
    → Inv s
    → s.shared.closed ≡ true
    → Inv t × (t.shared.closed ≡ true) × (n + weight t ≤ weight s)
Runs-Inv done i f = (i, f, omega arith)
Runs-Inv (goes r run o) i f =
    let (j, g, w) = Runs-Inv r i f in
    (step-Inv (own run o) j, Own-closed o g, omega (arith, Own-weight o j))

-- Once the shutdown channel of a reachable state is closed, the steps of the program end: with no
-- further event there are boundedly many, whatever their order, where a session that is not at a
-- `Dispatch` ends in a step. A state that they lead to is at its end, as `main` has returned or a
-- goroutine panicked, or has a step in front of it, unless `main` waits in `Join` for a scanner
-- that was never started, the SMTP server having given up, or for SMTP sessions that wait for room
-- in the queue of a hub that waits for a websocket.
pub shutdown-ends :
    {period : Bool} {s : System}
    → Reach period started s
    → s.shared.closed ≡ true
    → ((bound : ℕ) × ((n : ℕ) (t : System) → Runs period s n t → n ≤ bound))
      × ((n : ℕ) (t : System) → Runs period s n t → (is_running t ≡ false) ⊎ Ahead period t)
shutdown-ends {period} {s} r f = (
  (weight s, λ n t q. let (j, g, w) = Runs-Inv q (reach-Inv r) f in omega arith),
  λ n t q.
      let (j, g, w) = Runs-Inv q (reach-Inv r) f in
      elim (Bool-cases (is_running t)) [ inl e ↦ inr (progress period t e g j) | inr e ↦ inl e ],
)
