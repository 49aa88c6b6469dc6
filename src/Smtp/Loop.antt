-- ===== src/Smtp/Loop.antt =====
-- The command loop of `startSession` in smtpd/handler.go.
pub mod Safety
pub mod Moves
use inbucket.Common.{
  ℕ, zero, suc, ◌+◌, ◌-◌, ◌*◌, Bool, true, false, not, ◌||◌, Option, none, some, List, [], ◌∷◌,
  if◌then◌else◌, is_nil, length, Bytes, codes, Unicode,
}
use inbucket.DataStore.{DataStore}
use inbucket.Hub.{HubMessage}
use inbucket.Smtp.Command.{
  Command, helo, ehlo, mail, rcpt, data_command, rset, send_command, soml, saml, vrfy, expn, help,
  noop, quit, turn, commands, lookup_command, parse_cmd,
}
use inbucket.Smtp.Reply.{
  ready_220, speak_up, unrecognized, not_implemented, vrfy_252, noop_ok, reset_ok, goodbye, garbled,
  idle_timeout, connection_error,
}
use inbucket.Smtp.Session.{
  State, greet, ready, mail_state, data_state, quit_state, Server, Session, Read, line, eof,
  timeout, broken, new_session, log_warn, log_error, enter_state, send, reset, greet_handler,
  ready_handler, mail_handler,
}
use inbucket.Smtp.Delivery.{World, with_session, data_handler}

-- What a round of the loop does: it goes on, it breaks, or it panics.
pub data Outcome (A : Type 0) : Type 0 where
  continue : A → Outcome A
  stop : A → Outcome A
  panic : Outcome A

abbrev pub or_panic : {A : Type 0} → Option A → Outcome A
or_panic none = panic
or_panic (some a) = continue a

-- The handler for the current state; the other states are an error that breaks the loop.
unfoldable pub state_handler : State → Server → Command → Bytes → Bytes → Session → Outcome Session
state_handler greet srv cmd name arg s = continue (greet_handler srv cmd name arg s)
state_handler ready srv cmd name arg s = continue (ready_handler srv cmd name arg s)
state_handler mail_state srv cmd name arg s = or_panic (mail_handler srv cmd name arg s)
state_handler _ srv cmd name arg s = stop (log_error s)

abbrev unimplemented : Bytes → Session → Outcome Session
unimplemented name s = continue (log_warn (send (not_implemented name) s))

-- The commands handled in any state, then the handler for the current one.
unfoldable pub dispatch : Server → Command → Bytes → Bytes → Session → Outcome Session
unfolding state_handler
dispatch srv send_command name arg s = unimplemented name s
dispatch srv soml name arg s = unimplemented name s
dispatch srv saml name arg s = unimplemented name s
dispatch srv expn name arg s = unimplemented name s
dispatch srv help name arg s = unimplemented name s
dispatch srv turn name arg s = unimplemented name s
dispatch srv vrfy name arg s = continue (send vrfy_252 s)
dispatch srv noop name arg s = continue (send noop_ok s)
dispatch srv rset name arg s = continue (send reset_ok (reset s))
dispatch srv quit name arg s = continue (enter_state quit_state (send goodbye s))
dispatch srv cmd name arg s = state_handler s.state srv cmd name arg s

unfoldable pub run_line : Server → Bytes → Session → Outcome Session
run_line srv text s = elim (parse_cmd srv.unicode text) [
  | none ↦ continue (send garbled (log_warn s))
  | some (name, arg) ↦
      if is_nil name then continue (send speak_up s) else elim (lookup_command name commands) [
        | none ↦ continue (log_warn (send (unrecognized name) s))
        | some cmd ↦ dispatch srv cmd name arg s
      ]
]

-- The logging of an end of input.
abbrev log_eof : State → Session → Session
log_eof greet s = s
log_eof ready s = s
log_eof _ s = log_warn s

-- A round that reads a command; every error of the read breaks the loop.
unfoldable pub command_round : Server → List Read → Session → Outcome Session
command_round srv [] s = stop (log_eof s.state s)
command_round srv (line text ∷ rest) s = run_line srv text (record s { input = rest })
command_round srv (eof ∷ rest) s = stop (log_eof s.state (record s { input = rest }))
command_round srv (timeout ∷ rest) s =
    stop (send idle_timeout (log_warn (record s { input = rest })))
command_round srv (broken ∷ rest) s =
    stop (send connection_error (log_warn (record s { input = rest })))

abbrev pub is_data : State → Bool
is_data data_state = true
is_data _ = false

abbrev pub is_quit : State → Bool
is_quit quit_state = true
is_quit _ = false

module _ (ds : DataStore) where
  abbrev lift_session : World ds → Outcome Session → Outcome (World ds)
  lift_session w (continue s) = continue (record w { session = s })
  lift_session w (stop s) = stop (record w { session = s })
  lift_session w panic = panic

  -- The body of the loop.
  unfoldable pub round : Server → World ds → Outcome (World ds)
  round srv w =
      if is_data w.session.state
      then or_panic (data_handler ds srv w)
      else lift_session w (command_round srv w.session.input w.session)

  pub data Ended : Type 0 where
    ended : World ds → Ended
    panicked out_of_fuel : Ended

  -- The loop, with fuel for its rounds.
  unfoldable pub run : ℕ → Server → World ds → Ended
  run zero srv w = out_of_fuel
  run (suc fuel) srv w = elim (is_quit w.session.state || w.session.send_error) [
    | true ↦ ended w
    | false ↦ elim (round srv w) [
      | continue w' ↦ run fuel srv w'
      | stop w' ↦ ended w'
      | panic ↦ panicked
    ]
  ]

  -- Two rounds for each read, as a DATA that opens no mailbox reads nothing.
  abbrev pub enough_fuel : World ds → ℕ
  enough_fuel w = 2 * length w.session.input + 3

  -- What follows the loop, and the deferred function.
  unfoldable pub close_session : Ended → Ended
  close_session (ended w) = ended (record w {
    session = if w.session.send_error then log_warn w.session else w.session;
    connects_current = w.connects_current - 1;
  })
  close_session other = other

  -- `greet`, then the loop.
  unfoldable pub start_session : Server → World ds → Ended
  unfolding close_session
  start_session srv w =
      let w' = record w {
        connects_current = w.connects_current + 1;
        session = send (ready_220 srv.domain) w.session;
      } in
      close_session (run (enough_fuel w') srv w')
