-- ===== src/Smtp/Loop/Moves.antt =====
-- The state machine of an SMTP session: the moves that each command makes.
use inbucket.Common.{
  ◌≡◌, refl, arith, ◌⊎◌, inl, inr, true, Option, none, some, [], ◌∷◌, List, Bytes, if◌then◌else◌,
  length, ◌++◌, leb,
}
use inbucket.Smtp.Command.{Command, helo, ehlo, mail, rcpt, data_command, rset, quit}
use inbucket.Smtp.MailArgs.{rcpt_argument}
use inbucket.Smtp.Reply.{reset_ok}
use inbucket.Smtp.Session.{
  State, greet, ready, mail_state, data_state, quit_state, Server, Session, send, reset, oo_seq,
  greet_handler, ready_handler, mail_handler, mail_command, check_params, accept_sender,
  rcpt_command, add_recipient, start_data,
}
use inbucket.Smtp.Loop.{Outcome, continue, stop, panic, state_handler, dispatch, or_panic}
use inbucket.Smtp.Session.Invariant.{is_address}

-- The edges of the diagram, each under the commands that may take it.
pub data Move : Command → State → State → Type 0 where
  stay : {c : Command} {s : State} → Move c s s
  say_helo : Move helo greet ready
  say_ehlo : Move ehlo greet ready
  begin : Move mail ready mail_state
  start : Move data_command mail_state data_state
  restart : {s : State} → Move rset s ready
  leave : {s : State} → Move quit s quit_state

ruleset edges = (stay, say_helo, say_ehlo, begin, start, restart, leave)

abbrev pub MoveTo : Command → State → Outcome Session → Type 0
MoveTo c s (continue t) = Move c s t.state
MoveTo c s (stop t) = t.state ≡ s
MoveTo c s panic = Unit

module _ (srv : Server) (name arg : Bytes) (s : Session) where
  greet_handler-Move :
      (c : Command) → s.state ≡ greet → Move c greet (greet_handler srv c name arg s).state
  unfolding greet_handler oo_seq send
  greet_handler-Move helo h = grind (arith, edges)
  greet_handler-Move ehlo h = grind (arith, edges)
  greet_handler-Move _ h = grind (arith, edges)

  -- The state behind a MAIL command.
  mail_command-state :
      s.state ≡ ready
      → ((mail_command srv arg s).state ≡ ready) ⊎ ((mail_command srv arg s).state ≡ mail_state)
  unfolding mail_command check_params accept_sender send
  mail_command-state h = ground arith

  ready_handler-Move :
      (c : Command) → s.state ≡ ready → Move c ready (ready_handler srv c name arg s).state
  unfolding ready_handler oo_seq send
  ready_handler-Move mail h = elim (mail_command-state h) [ inl e ↦ rw e stay | inr e ↦ rw e begin ]
  ready_handler-Move _ h = grind (arith, edges)

  abbrev MoveSome : Command → Option Session → Type 0
  MoveSome c none = Unit
  MoveSome c (some t) = Move c mail_state t.state

  abbrev StaysIn : Option Session → Type 0
  StaysIn none = Unit
  StaysIn (some t) = (t.state ≡ mail_state) ⊎ (t.state ≡ data_state)

  rcpt_command-StaysIn : s.state ≡ mail_state → MoveSome rcpt (rcpt_command srv arg s)
  unfolding rcpt_command add_recipient send
  rcpt_command-StaysIn h = grind (arith, edges)

  start_data-StaysIn : s.state ≡ mail_state → StaysIn (start_data name arg s)
  unfolding start_data oo_seq send
  start_data-StaysIn h = ground arith

  StaysIn-MoveSome : (o : Option Session) → StaysIn o → MoveSome data_command o
  StaysIn-MoveSome none h = tt
  StaysIn-MoveSome (some t) (inl h) = rw h stay
  StaysIn-MoveSome (some t) (inr h) = rw h start

  mail_handler-Move :
      (c : Command) → s.state ≡ mail_state → MoveSome c (mail_handler srv c name arg s)
  unfolding mail_handler oo_seq send
  mail_handler-Move rcpt h = rcpt_command-StaysIn h
  mail_handler-Move data_command h = StaysIn-MoveSome (start_data name arg s) (start_data-StaysIn h)
  mail_handler-Move _ h = grind (arith, edges)

  MoveSome-MoveTo :
      (c : Command) (o : Option Session) → MoveSome c o → MoveTo c mail_state (or_panic o)
  MoveSome-MoveTo c none h = tt
  MoveSome-MoveTo c (some t) h = h

  state_handler-Move :
      (st : State) (c : Command) → s.state ≡ st → MoveTo c st (state_handler st srv c name arg s)
  unfolding state_handler
  state_handler-Move greet c h = greet_handler-Move c h
  state_handler-Move ready c h = ready_handler-Move c h
  state_handler-Move mail_state c h = MoveSome-MoveTo c _ (mail_handler-Move c h)
  state_handler-Move _ c h = h

  -- A command moves the session along the diagram or leaves it where it is: only HELO and EHLO
  -- lead out of GREET to READY beside RSET, only MAIL to MAIL, only DATA from MAIL to DATA, RSET
  -- from any state to READY, and QUIT from any state to QUIT.
  pub dispatch-Move : (c : Command) → MoveTo c s.state (dispatch srv c name arg s)
  unfolding dispatch reset send
  dispatch-Move helo = state_handler-Move s.state helo refl
  dispatch-Move ehlo = state_handler-Move s.state ehlo refl
  dispatch-Move mail = state_handler-Move s.state mail refl
  dispatch-Move rcpt = state_handler-Move s.state rcpt refl
  dispatch-Move data_command = state_handler-Move s.state data_command refl
  dispatch-Move _ = grind (arith, edges)

-- RSET takes a session in any state to READY with no sender and no recipients: one that has not
-- said HELO too, which is then in READY with the empty domain of a new session.
pub dispatch-rset :
    (srv : Server) (name arg : Bytes) (s : Session)
    → (t : Session) × (dispatch srv rset name arg s ≡ continue t)
      × (t.state ≡ ready)
      × (t.from ≡ [])
      × (t.recipients ≡ none)
      × (t.remote_domain ≡ s.remote_domain)
unfolding dispatch reset send
dispatch-rset srv name arg s =
    (send reset_ok (reset s), refl, ground arith, ground arith, ground arith, ground arith)

-- RCPT with an accepted address adds it behind the session's recipients while they are fewer than
-- the server's maximum, leaves them as they are otherwise, and does not panic.
pub rcpt_command-adds :
    (srv : Server) (arg recip : Bytes) (rs : List Bytes) (s : Session)
    → rcpt_argument srv.unicode arg ≡ some recip
    → is_address recip ≡ true
    → s.recipients ≡ some rs
    → (t : Session) × (rcpt_command srv arg s ≡ some t)
      × (t.recipients ≡ some (if leb srv.max_recips (length rs) then rs else rs ++ recip ∷ []))
unfolding rcpt_command add_recipient send
rcpt_command-adds srv arg recip rs s a v r =
    (add_recipient srv recip rs s, ground arith, ground arith)
