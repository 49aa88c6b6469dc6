-- ===== src/Pop3/Loop.antt =====
-- The AUTHORIZATION state and the command loop of `startSession` in pop3d/handler.go.
pub mod Safety
use inbucket.Common.{
  ℕ, Bool, true, false, ◌||◌, Option, none, some, List, [], ◌∷◌, ◌++◌, if◌then◌else◌, is_nil,
  length, Bytes, codes,
}
use inbucket.Conn.{Read, line, eof, timeout, broken}
use inbucket.DataStore.{DataStore}
use inbucket.Pop3.Command.{
  Command, quit, stat, list, retr, dele, noop, rset, top, uidl, user, pass, apop, capa, commands,
  lookup_command, parse_cmd,
}
use inbucket.Pop3.Messages.{transaction_handler}
use inbucket.Pop3.Reply.{
  Reply, greeting, speak_up, unrecognized, capabilities, cap_top, cap_user, cap_uidl,
  cap_implementation, idle_timeout, connection_error, goodbye, hello, missing_user, open_failed,
  found, apop_arguments, end_of_list,
}
use inbucket.Pop3.Session.{
  State, authorization, transaction, quit_state, Server, Session, World, enter_state, send,
  send_all, oo_seq, load_mailbox,
}

module _ (ds : DataStore) where
  -- PASS and APOP: the mailbox of the session's user is opened and loaded.
  unfoldable pub open_mailbox : World ds → World ds
  open_mailbox w =
      let name = w.session.user in
      let (opened, st) = ds.mailbox_for name w.store in
      elim opened [
        | none ↦ record {
          store = st;
          session =
              enter_state ds quit_state
                (send ds (open_failed name) (record w.session { mailbox = none }));
        }
        | some mb ↦
            let v =
              load_mailbox ds mb
                (record { store = st; session = record w.session { mailbox = some mb } }) in
            record v {
              session =
                  enter_state ds transaction (send ds (found v.session.msg_count name) v.session);
            }
      ]

  abbrev in_session : (Session ds → Session ds) → World ds → World ds
  in_session f w = record w { session = f w.session }

  unfoldable pub user_command : List Bytes → Session ds → Session ds
  user_command [] s = send ds missing_user s
  user_command (name ∷ args) s = send ds (hello name) (record s { user = name })

  unfoldable pub apop_command : List Bytes → World ds → World ds
  unfolding open_mailbox
  apop_command (name ∷ digest ∷ []) w =
      open_mailbox (record w { session = record w.session { user = name } })
  apop_command _ w = in_session (send ds apop_arguments) w

  unfoldable pub authorization_handler : Command → Bytes → List Bytes → World ds → World ds
  unfolding user_command apop_command
  authorization_handler quit name args w =
      in_session (λ s. enter_state ds quit_state (send ds goodbye s)) w
  authorization_handler user name args w = in_session (user_command args) w
  authorization_handler pass name args w =
      if is_nil w.session.user then in_session (oo_seq ds name) w else open_mailbox w
  authorization_handler apop name args w = apop_command args w
  authorization_handler _ name args w = in_session (oo_seq ds name) w

  -- A round: it goes on, it breaks, or an index was out of range.
  pub data Outcome : Type 0 where
    continue : World ds → Outcome
    stop : World ds → Outcome
    panic : Outcome

  abbrev pub or_panic : Option (World ds) → Outcome
  or_panic none = panic
  or_panic (some w) = continue w

  unfoldable pub state_handler : State → Command → Bytes → List Bytes → World ds → Outcome
  state_handler authorization cmd name args w = continue (authorization_handler cmd name args w)
  state_handler transaction cmd name args w = or_panic (transaction_handler ds cmd name args w)
  state_handler quit_state cmd name args w = stop w

  abbrev pub capability_list : List Reply
  capability_list =
      capabilities ∷ cap_top ∷ cap_user ∷ cap_uidl ∷ cap_implementation ∷ end_of_list ∷ []

  -- CAPA is handled in any state.
  unfoldable pub dispatch : Command → Bytes → List Bytes → World ds → Outcome
  unfolding state_handler
  dispatch capa name args w = continue (in_session (send_all ds capability_list) w)
  dispatch cmd name args w = state_handler w.session.state cmd name args w

  unfoldable pub run_line : Server → Bytes → World ds → Outcome
  run_line srv text w =
      let (name, args) = parse_cmd srv.unicode text in
      if is_nil name
      then continue (in_session (send ds speak_up) w)
      else elim (lookup_command name commands) [
        | none ↦ continue (in_session (send ds (unrecognized name)) w)
        | some cmd ↦ dispatch cmd name args w
      ]

  unfoldable pub round : Server → Read → World ds → Outcome
  round srv (line text) w = run_line srv text w
  round srv eof w = stop w
  round srv timeout w = stop (in_session (send ds idle_timeout) w)
  round srv broken w = stop (in_session (send ds connection_error) w)

  pub data Ended : Type 0 where
    ended : World ds → Ended
    panicked : Ended

  abbrev pub is_quit : State → Bool
  is_quit quit_state = true
  is_quit _ = false

  abbrev pub is_over : World ds → Bool
  is_over w = is_quit w.session.state || w.session.send_error

  -- The loop, over the reads to come; behind their end is the end of the connection.
  unfoldable pub run : Server → List Read → World ds → Ended
  run srv [] w = ended (in_session (λ s. record s { input = [] }) w)
  run srv (r ∷ rest) w = elim (is_over w) [
    | true ↦ ended w
    | false ↦ elim (round srv r (in_session (λ s. record s { input = rest }) w)) [
      | continue w' ↦ run srv rest w'
      | stop w' ↦ ended w'
      | panic ↦ panicked
    ]
  ]

  -- The greeting names the process and the time, which the argument `stamp` stands for.
  unfoldable pub start_session : Server → Bytes → World ds → Ended
  start_session srv stamp w =
      let greeted = greeting (codes "<" ++ (stamp ++ (b'@' ∷ (srv.domain ++ codes ">")))) in
      run srv w.session.input (in_session (send ds greeted) w)
