-- ===== src/Smtp/Delivery.antt =====
-- `dataHandler` and `deliverMessage` of smtpd/handler.go, over any data store.
pub mod Frame
pub mod Stuffing
pub mod Opening
pub mod Recipients
use inbucket.Common.{
  ℕ, ◌+◌, Bool, true, false, not, Option, none, some, List, [], ◌∷◌, ◌++◌, ltb, ◌==◌, if◌then◌else◌,
  length, drop, Bytes, codes, equal, to_lower, ◌||◌,
}
use inbucket.Address.Email.{parse_email_address, parsed, failed}
use inbucket.DataStore.{DataStore}
use inbucket.Hub.{HubMessage}
use inbucket.Smtp.Reply.{
  open_failed, store_failed, start_input, mail_accepted, data_too_large, idle_timeout,
}
use inbucket.Smtp.Session.{
  Server, Session, Read, line, eof, timeout, broken, quit_state, log_warn, log_error, enter_state,
  send, reset,
}

-- `string(line) == ".\r\n" || string(line) == ".\n"`
unfoldable pub is_end : Bytes → Bool
is_end l = equal l (codes ".\r\n") || equal l (codes ".\n")

-- One leading period is removed.
unfoldable pub unstuff : Bytes → Bytes
unstuff [] = []
unstuff (c ∷ cs) = if c == b'.' then cs else c ∷ cs

unfoldable pub received_header : Server → Session → Bytes → Bytes → Bytes
received_header srv s address stamp =
    codes "Received: from "
    ++ (s.remote_domain
        ++ (codes " (["
            ++ (s.remote_host
                ++ (codes "]) by "
                    ++ (srv.domain
                        ++ (codes "\r\n  for <"
                            ++ (address ++ (codes ">; " ++ (stamp ++ codes "\r\n")))))))))

abbrev pub first_stamp : List Bytes → Bytes
first_stamp [] = []
first_stamp (t ∷ ts) = t

module _ (ds : DataStore) where
  open ds use {
    Store, Mailbox, Message, mailbox_for, new_message, append, close, name, id, from, to, subject,
    date, size,
  }

  pub record RecipientDetails : Type 0 where
    pub address : Bytes
    pub local_part : Bytes
    pub domain_part : Bytes
    pub mailbox : Mailbox

  -- What a session works on: itself, the store, the messages handed to the hub (the latest first),
  -- the counters of received messages and of open
  -- connections, and the formatted times that later calls of the clock give.
  pub record World : Type 0 where
    pub session : Session
    pub store : Store
    pub dispatched : List HubMessage
    pub received_total : ℕ
    pub stamps : List Bytes
    pub connects_current : ℕ

  pub data Opened : Type 0 where
    opened : List RecipientDetails → Store → Opened
    not_opened : Bytes → Store → Opened

  -- The loop over the recipients that opens the mailboxes, behind those opened so far.
  unfoldable pub open_mailboxes : Server → List RecipientDetails → List Bytes → Store → Opened
  open_mailboxes srv done [] st = opened done st
  open_mailboxes srv done (recip ∷ rest) st = elim (parse_email_address recip) [
    | failed e ↦ not_opened recip st
    | parsed local domain ↦ elim (equal (to_lower srv.unicode domain) srv.domain_no_store) [
      | true ↦ open_mailboxes srv done rest st
      | false ↦
          let (mailbox, st') = mailbox_for local st in
          elim mailbox [
            | none ↦ not_opened local st'
            | some mb ↦
                open_mailboxes srv
                  (done
                    ++ (record {
                      address = recip;
                      local_part = local;
                      domain_part = domain;
                      mailbox = mb;
                    }
                        ∷ []))
                  rest st'
          ]
    ]
  ]

  unfoldable pub append_lines : Message → List Bytes → Store → Bool × Store
  append_lines m [] st = (true, st)
  append_lines m (l ∷ ls) st =
      let (done, st') = append m l st in
      elim done [ false ↦ (false, st') | true ↦ append_lines m ls st' ]

  abbrev pub fail_store : World → Store → Bool × World
  fail_store w st = (false, record w { store = st; session = log_error w.session })

  -- `msgHub.Dispatch(broadcast)`, of which the send to the hub's queue goes through; a full queue and
  -- a closed one are part of Daemon.
  unfoldable pub broadcast : RecipientDetails → Message → Store → World → World
  broadcast r m st w = record w {
    store = st;
    dispatched =
        record {
          mailbox = name r.mailbox st;
          id = id m st;
          from = from m st;
          to = to m st;
          subject = subject m st;
          date = date m st;
          size = size m st;
        }
        ∷ w.dispatched;
  }

  -- `deliverMessage` behind a successful `NewMessage`.
  unfoldable pub write_message :
      Server → RecipientDetails → List Bytes → Message → World → Bool × World
  write_message srv r msg_buf m w =
      let recd = received_header srv w.session r.address (first_stamp w.stamps) in
      let w' = record w { stamps = drop 1 w.stamps } in
      let (headed, st) = append m recd w.store in
      let (filled, st') = append_lines m msg_buf st in
      let (closed, st'') = close m st' in
      elim headed [
        | false ↦ fail_store w' st
        | true ↦ elim filled [
          | false ↦ fail_store w' st'
          | true ↦ elim closed [ false ↦ fail_store w' st'' | true ↦ (true, broadcast r m st'' w') ]
        ]
      ]

  unfoldable pub deliver_message : Server → RecipientDetails → List Bytes → World → Bool × World
  deliver_message srv r msg_buf w =
      let (created, st) = new_message r.mailbox w.store in
      elim created [
        | none ↦ fail_store w st
        | some m ↦ write_message srv r msg_buf m (record w { store = st })
      ]

  -- The loop that creates a message for each recipient; the first failure ends it, and its local
  -- part is returned.
  unfoldable pub deliver_all :
      Server → List RecipientDetails → List Bytes → World → Option Bytes × World
  deliver_all srv [] msg_buf w = (none, w)
  deliver_all srv (r ∷ rs) msg_buf w =
      let (ok, w') = deliver_message srv r msg_buf w in
      elim ok [
        | true ↦ deliver_all srv rs msg_buf (record w' { received_total = w'.received_total + 1 })
        | false ↦ (some r.local_part, w')
      ]

  abbrev pub with_session : (Session → Session) → World → World
  with_session f w = record w { session = f w.session }

  -- The mail data is complete.
  unfoldable pub finish_data : Server → List RecipientDetails → List Bytes → World → World
  finish_data srv rs msg_buf w =
      if srv.store_messages
      then (let (refused, w') = deliver_all srv rs msg_buf w in
          elim refused [
            | some local ↦ with_session (λ s. reset (send (store_failed local) s)) w'
            | none ↦ with_session (λ s. reset (send mail_accepted s)) w'
          ])
      else with_session (λ s. reset (send mail_accepted s))
          (record w { received_total = w.received_total + 1 })

  -- A read that failed ends the session.
  unfoldable pub read_failed : Read → Session → Session
  read_failed timeout s = enter_state quit_state (log_warn (send idle_timeout s))
  read_failed _ s = enter_state quit_state (log_warn s)

  -- The loop that reads the mail data, over the reads to come.
  unfoldable pub collect :
      Server → List RecipientDetails → List Bytes → ℕ → List Read → World → World
  unfolding read_failed
  collect srv rs msg_buf msg_size [] w =
      with_session (λ s. read_failed eof (record s { input = [] })) w
  collect srv rs msg_buf msg_size (line l ∷ rest) w =
      let w' = with_session (λ s. record s { input = rest }) w in
      let kept = unstuff l in
      let msg_size' = msg_size + length kept in
      elim (is_end l) [
        | true ↦ finish_data srv rs msg_buf w'
        | false ↦ elim (ltb srv.max_message_bytes msg_size') [
          | true ↦ with_session (λ s. reset (log_warn (send data_too_large s))) w'
          | false ↦ collect srv rs (msg_buf ++ kept ∷ []) msg_size' rest w'
        ]
      ]
  collect srv rs msg_buf msg_size (error ∷ rest) w =
      with_session (λ s. read_failed error (record s { input = rest })) w

  abbrev pub read_data : Server → List RecipientDetails → World → World
  read_data srv rs w =
      let w' = with_session (send start_input) w in collect srv rs [] 0 w'.session.input w'

  -- `dataHandler`; `none` is the panic on nil recipients.
  unfoldable pub data_handler : Server → World → Option World
  data_handler srv w = elim w.session.recipients [
    | none ↦ none
    | some recips ↦ some (
        if srv.store_messages
        then elim (open_mailboxes srv [] recips w.store) [
          | not_opened who st ↦
              with_session (λ s. reset (send (open_failed who) (log_error s)))
                (record w { store = st })
          | opened rs st ↦ read_data srv rs (record w { store = st })
        ]
        else read_data srv [] w)
  ]
