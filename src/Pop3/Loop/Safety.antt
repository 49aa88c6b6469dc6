-- ===== src/Pop3/Loop/Safety.antt =====
-- A POP3 session ends without an index out of range.
use inbucket.Common.{
  ◌≡◌, refl, arith, Option, none, some, List, [], ◌∷◌, Bytes, Bool-cases, Option-cases, inl, inr,
}
use inbucket.Conn.{Read, line, eof, timeout, broken}
use inbucket.Pop3.Reply.{speak_up, unrecognized}
use inbucket.DataStore.{DataStore}
use inbucket.Pop3.Command.{Command, user, pass, apop, capa, commands, lookup_command, parse_cmd}
use inbucket.Pop3.Loop.{
  Outcome, continue, stop, panic, or_panic, open_mailbox, authorization_handler, state_handler,
  capability_list, dispatch, run_line, round, Ended, ended, is_over, run, start_session,
}
use inbucket.Pop3.Messages.{transaction_handler}
use inbucket.Pop3.Messages.Invariant.{KeptWorld}
use inbucket.Pop3.Messages.Safe.{transaction_handler-Kept}
use inbucket.Pop3.Session.{
  State, authorization, transaction, quit_state, Server, World, send, oo_seq,
}
use inbucket.Pop3.Session.Flags.{Inv, enter_state-Inv, send-Inv, send_all-Inv, load_mailbox-Inv}

module _ (ds : DataStore) where
  abbrev KeptOutcome : Outcome ds → Type 0
  KeptOutcome (continue w) = Inv ds w.session
  KeptOutcome (stop w) = Unit
  KeptOutcome panic = ⊥

  open_mailbox-Inv : (w : World ds) → Inv ds w.session → Inv ds (open_mailbox ds w).session
  unfolding open_mailbox
  open_mailbox-Inv w i = elim (Option-cases (ds.mailbox_for w.session.user w.store).0) [
    | inl e ↦
        rw (e, open_mailbox)
          (enter_state-Inv ds quit_state _ (
            send-Inv ds _ (record w.session { mailbox = none })
              (record { flagged = i.flagged; counted = i.counted })))
    | inr (mb, e) ↦
        rw (e, open_mailbox)
          (enter_state-Inv ds transaction _ (send-Inv ds _ _ (load_mailbox-Inv ds mb _)))
  ]

  authorization_handler-Inv :
      (cmd : Command) (name : Bytes) (args : List Bytes) (w : World ds)
      → Inv ds w.session
      → Inv ds (authorization_handler ds cmd name args w).session
  unfolding authorization_handler oo_seq send
  authorization_handler-Inv user name [] w i = ground arith
  authorization_handler-Inv user name (a ∷ args) w i = ground arith
  authorization_handler-Inv pass name args w i = ground (arith, open_mailbox-Inv w)
  authorization_handler-Inv apop name (a ∷ b ∷ []) w i =
      open_mailbox-Inv (record w { session = record w.session { user = a } })
        (record { flagged = i.flagged; counted = i.counted })
  authorization_handler-Inv _ name args w i = ground arith

  state_handler-Kept :
      (st : State) (cmd : Command) (name : Bytes) (args : List Bytes) (w : World ds)
      → Inv ds w.session
      → KeptOutcome (state_handler ds st cmd name args w)
  unfolding state_handler
  state_handler-Kept authorization cmd name args w i = authorization_handler-Inv cmd name args w i
  state_handler-Kept transaction cmd name args w i =
      kept (transaction_handler ds cmd name args w) (transaction_handler-Kept ds cmd name args w i)
    where
      kept : (o : Option (World ds)) → KeptWorld ds o → KeptOutcome (or_panic ds o)
      kept none h = h
      kept (some v) h = h
  state_handler-Kept quit_state cmd name args w i = tt

  dispatch-Kept :
      (cmd : Command) (name : Bytes) (args : List Bytes) (w : World ds)
      → Inv ds w.session
      → KeptOutcome (dispatch ds cmd name args w)
  unfolding dispatch
  dispatch-Kept capa name args w i = send_all-Inv ds (capability_list ds) w.session i
  dispatch-Kept cmd name args w i = state_handler-Kept w.session.state cmd name args w i

  run_line-Kept :
      (srv : Server) (text : Bytes) (w : World ds)
      → Inv ds w.session
      → KeptOutcome (run_line ds srv text w)
  unfolding run_line
  run_line-Kept srv text w i =
      let (name, args) = parse_cmd srv.unicode text in
      elim (Option-cases (lookup_command name commands)) [
        | inl l ↦
            ground
              (arith, send-Inv ds speak_up w.session, send-Inv ds (unrecognized name) w.session)
        | inr (cmd, l) ↦
            ground (arith, send-Inv ds speak_up w.session, dispatch-Kept cmd name args w)
      ]

  round-Kept :
      (srv : Server) (r : Read) (w : World ds) → Inv ds w.session → KeptOutcome (round ds srv r w)
  unfolding round
  round-Kept srv (line text) w i = run_line-Kept srv text w i
  round-Kept srv eof w i = tt
  round-Kept srv timeout w i = tt
  round-Kept srv broken w i = tt

  run-ended :
      (srv : Server) (reads : List Read) (w : World ds)
      → Inv ds w.session
      → (w' : World ds) × (run ds srv reads w ≡ ended w')
  unfolding run
  run-ended srv [] w i = (_, refl)
  run-ended srv (r ∷ rest) w i = elim (Bool-cases (is_over ds w)) [
    | inl over ↦ (w, rw (over, run))
    | inr more ↦
        let v = record w { session = record w.session { input = rest } } in
        rw (more, run)
          (go (round ds srv r v)
            (round-Kept srv r v (record { flagged = i.flagged; counted = i.counted }))
            (run-ended srv rest))
  ]
    where
      go :
          (o : Outcome ds)
          → KeptOutcome o
          → ((v : World ds) → Inv ds v.session → (w' : World ds) × (run ds srv rest v ≡ ended w'))
          → (w' : World ds) × ((elim o [
            | continue v ↦ run ds srv rest v
            | stop v ↦ ended v
            | panic ↦ Ended.panicked
          ])
              ≡ ended w')
      go (continue v) k ih = ih v k
      go (stop v) k ih = (v, refl)
      go panic k ih = absurd k

  -- A session with a flag for each message and the right count ends, whatever the client sends,
  -- whatever the writes do and whatever the data store answers: no index into the messages or the
  -- flags is ever out of range.
  pub start_session-returns :
      (srv : Server) (stamp : Bytes) (w : World ds)
      → Inv ds w.session
      → (w' : World ds) × (start_session ds srv stamp w ≡ ended w')
  unfolding start_session
  start_session-returns srv stamp w i = run-ended srv w.session.input _ (send-Inv ds _ w.session i)
