-- ===== src/Smtp/Loop/Safety.antt =====
-- A session, its panic on nil recipients, and the fuel that it is given.
use inbucket.Common.{
  ℕ, zero, suc, ◌+◌, ◌-◌, ◌*◌, ◌<◌, ◌≡◌, refl, arith, inl, inr, ◌||◌, List, [], ◌∷◌, length, Bytes,
  Bool-cases, Option-cases, if◌then◌else◌,
}
use inbucket.Smtp.Reply.{ready_220}
use inbucket.DataStore.{DataStore}
use inbucket.Smtp.Command.{
  Command, helo, ehlo, mail, rcpt, data_command, commands, lookup_command, parse_cmd,
}
use inbucket.Smtp.Session.{
  State, greet, ready, mail_state, data_state, Server, Session, log_warn, Read, line, eof, timeout,
  broken, send, reset,
}
use inbucket.Smtp.Session.Invariant.{
  Inv, send-Frame, greet_handler-Inv, ready_handler-Inv, mail_handler-Inv,
}
use inbucket.Smtp.Session.Inputs.{greet_handler-input, ready_handler-input, mail_handler-input}
use inbucket.Smtp.Delivery.{World}
use inbucket.Smtp.Delivery.Frame.{data_handler-Done}
use inbucket.Smtp.Loop.{
  Outcome, continue, stop, panic, state_handler, dispatch, run_line, command_round, is_data,
  is_quit, round, Ended, ended, run, enough_fuel, start_session,
}

-- No panic, and a round that goes on keeps the invariant and has `n` reads left.
abbrev Safe : Server → ℕ → Outcome Session → Type 0
Safe srv n (continue s) = Inv srv s × (length s.input ≡ n)
Safe srv n (stop s) = Unit
Safe srv n panic = ⊥

module _ (srv : Server) where
  state_handler-Safe :
      (st : State) (cmd : Command) (name arg : Bytes) (s : Session)
      → s.state ≡ st
      → Inv srv s
      → Safe srv (length s.input) (state_handler st srv cmd name arg s)
  unfolding state_handler
  state_handler-Safe greet cmd name arg s h i =
      ground (arith, greet_handler-Inv srv cmd name arg s, greet_handler-input srv name arg s cmd)
  state_handler-Safe ready cmd name arg s h i =
      ground (arith, ready_handler-Inv srv cmd name arg s, ready_handler-input srv name arg s cmd)
  state_handler-Safe mail_state cmd name arg s h i =
      ground (arith, mail_handler-Inv srv cmd name arg s h i, mail_handler-input srv name arg s cmd)
  state_handler-Safe _ cmd name arg s h i = tt

  dispatch-Safe :
      (cmd : Command) (name arg : Bytes) (s : Session)
      → Inv srv s
      → Safe srv (length s.input) (dispatch srv cmd name arg s)
  unfolding dispatch reset send
  dispatch-Safe helo name arg s i = state_handler-Safe s.state helo name arg s refl i
  dispatch-Safe ehlo name arg s i = state_handler-Safe s.state ehlo name arg s refl i
  dispatch-Safe mail name arg s i = state_handler-Safe s.state mail name arg s refl i
  dispatch-Safe rcpt name arg s i = state_handler-Safe s.state rcpt name arg s refl i
  dispatch-Safe data_command name arg s i =
      state_handler-Safe s.state data_command name arg s refl i
  dispatch-Safe _ name arg s i = ground arith

  run_line-Safe :
      (text : Bytes) (s : Session) → Inv srv s → Safe srv (length s.input) (run_line srv text s)
  unfolding run_line send
  run_line-Safe text s i = elim (Option-cases (parse_cmd srv.unicode text)) [
    | inl e ↦ ground arith
    | inr ((name, arg), e) ↦ elim (Option-cases (lookup_command name commands)) [
      | inl l ↦ ground arith
      | inr (cmd, l) ↦ ground (arith, dispatch-Safe cmd name arg s)
    ]
  ]

  -- The round reads one line at least.
  abbrev SafeRound : List Read → Outcome Session → Type 0
  SafeRound reads (continue s) = Inv srv s × (length s.input < length reads)
  SafeRound reads (stop s) = Unit
  SafeRound reads panic = ⊥

  command_round-SafeRound :
      (reads : List Read) (s : Session) → Inv srv s → SafeRound reads (command_round srv reads s)
  unfolding command_round
  command_round-SafeRound [] s i = tt
  command_round-SafeRound (line text ∷ rest) s i =
      ground (arith, run_line-Safe text (record s { input = rest }))
  command_round-SafeRound (eof ∷ rest) s i = tt
  command_round-SafeRound (timeout ∷ rest) s i = tt
  command_round-SafeRound (broken ∷ rest) s i = tt

  module _ (ds : DataStore) where
    -- A bound on the rounds to come.
    abbrev measure : World ds → ℕ
    measure w = 2 * length w.session.input + (if is_data w.session.state then 1 else 0)

    abbrev Progress : ℕ → Outcome (World ds) → Type 0
    Progress n (continue w) = Inv srv w.session × (measure w < n)
    Progress n (stop w) = Unit
    Progress n panic = ⊥

    data_round-Progress :
        (w : World ds)
        → w.session.state ≡ data_state
        → Inv srv w.session
        → Progress (measure w) (round ds srv w)
    unfolding round
    data_round-Progress w h i = elim (Option-cases w.session.recipients) [
      | inl e ↦ ground arith
      | inr (rs, e) ↦ ground (arith, data_handler-Done ds srv w rs e)
    ]

    round-Progress : (w : World ds) → Inv srv w.session → Progress (measure w) (round ds srv w)
    unfolding round
    round-Progress w i =
        ground (arith, data_round-Progress w, command_round-SafeRound w.session.input w.session i)

    -- The loop comes to its end, by its test or by a break, with fuel above the measure.
    run-ended :
        (fuel : ℕ) (w : World ds)
        → Inv srv w.session
        → measure w < fuel
        → (w' : World ds) × (run ds fuel srv w ≡ ended w')
    unfolding run
    run-ended zero w i f = absurd (omega arith)
    run-ended (suc fuel) w i f =
        elim (Bool-cases (is_quit w.session.state || w.session.send_error)) [
          | inl over ↦ (w, rw (over, run))
          | inr more ↦ rw (more, run) (go (round ds srv w) (round-Progress w i) (run-ended fuel))
        ]
      where
        go :
            (o : Outcome (World ds))
            → Progress (measure w) o
            → ((v : World ds)
                → Inv srv v.session
                → measure v < fuel
                → (w' : World ds) × (run ds fuel srv v ≡ ended w'))
            → (w' : World ds) × ((elim o [
              | continue v ↦ run ds fuel srv v
              | stop v ↦ ended v
              | panic ↦ Ended.panicked
            ])
                ≡ ended w')
        go (continue v) p ih = ih v p.0 (omega arith)
        go (stop v) p ih = (v, refl)
        go panic p ih = absurd p

    -- A session that begins in GREET, whatever the client sends, whatever the outcomes of the
    -- writes and whatever the data store answers, ends: it does not panic on nil recipients, and
    -- two rounds for each read, and three more, are enough.
    pub start_session-ended :
        (w : World ds)
        → w.session.state ≡ greet
        → (w' : World ds) × (start_session ds srv w ≡ ended w')
    unfolding start_session
    start_session-ended w h =
        let v = record w {
          connects_current = w.connects_current + 1;
          session = send (ready_220 srv.domain) w.session;
        } in
        let f = send-Frame (ready_220 srv.domain) w.session in
        let (w', e) = run-ended (enough_fuel ds v) v (ground (arith, f)) (ground (arith, f)) in
        (left w', rw e)
      where
        left : World ds → World ds
        left x = record x {
          session = if x.session.send_error then log_warn x.session else x.session;
          connects_current = x.connects_current - 1;
        }
