-- ===== src/Pop3/Session.antt =====
-- The session of pop3d/handler.go: its state, `send`, the loading of a mailbox and the deletes.
pub mod Flags
use inbucket.Common.{
  ℕ, ◌+◌, ◌-◌, Bool, true, false, not, Option, none, some, List, [], ◌∷◌, ◌++◌, if◌then◌else◌,
  length, replicate, get_elem?, set, Bytes, Unicode,
}
use inbucket.Conn.{WriteOutcome, written, no_deadline, broken_pipe, Read}
use inbucket.DataStore.{DataStore}
use inbucket.Pop3.Reply.{Reply, out_of_sequence}

pub data State : Type 0 where
  authorization transaction quit_state : State

pub record Server : Type 0 where
  pub domain : Bytes
  pub unicode : Unicode

module _ (ds : DataStore) where
  open ds use {Store, Mailbox, Message, get_messages, delete}

  -- `sent` holds the lines sent, the latest first; `writes` and `input` are the writes and the
  -- reads to come.
  pub record Session : Type 0 where
    pub state : State
    pub user : Bytes
    pub mailbox : Option Mailbox
    pub messages : List Message
    pub retain : List Bool
    pub msg_count : ℕ
    pub send_error : Bool
    pub sent : List Reply
    pub writes : List WriteOutcome
    pub input : List Read

  -- The session and the data store that it works on.
  pub record World : Type 0 where
    pub session : Session
    pub store : Store

  unfoldable pub new_session : List WriteOutcome → List Read → Session
  new_session writes input = record {
    state = authorization;
    user = [];
    mailbox = none;
    messages = [];
    retain = [];
    msg_count = 0;
    send_error = false;
    sent = [];
    writes = writes;
    input = input;
  }

  abbrev pub enter_state : State → Session → Session
  enter_state state s = record s { state = state }

  abbrev send_outcome : Reply → List WriteOutcome → Session → Session
  send_outcome r [] s = record s { sent = r ∷ s.sent }
  send_outcome r (written ∷ ws) s = record s { sent = r ∷ s.sent; writes = ws }
  send_outcome r (_ ∷ ws) s = record s { send_error = true; writes = ws }

  unfoldable pub send : Reply → Session → Session
  send r s = send_outcome r s.writes s

  unfoldable pub send_all : List Reply → Session → Session
  send_all [] s = s
  send_all (r ∷ rs) s = send_all rs (send r s)

  unfoldable pub oo_seq : Bytes → Session → Session
  oo_seq cmd s = send (out_of_sequence cmd) s

  -- `retainAll`, which `reset` calls alone.
  unfoldable pub retain_all : Session → Session
  retain_all s = record s {
    retain = replicate (length s.messages) true;
    msg_count = length s.messages;
  }

  abbrev pub loaded : Option (List Message) → List Message
  loaded none = []
  loaded (some ms) = ms

  -- `loadMailbox`; an error of `GetMessages` leaves no messages, and is only logged.
  unfoldable pub load_mailbox : Mailbox → World → World
  unfolding retain_all
  load_mailbox mb w =
      let (found, st) = get_messages mb w.store in
      record { store = st; session = retain_all (record w.session { messages = loaded found }) }

  -- `processDeletes`: the messages that are not retained are deleted in order, and an error of a
  -- delete is only logged; `none` is a flag that is missing.
  unfoldable pub process_deletes : List Message → List Bool → Store → Option Store
  process_deletes [] flags st = some st
  process_deletes (m ∷ ms) [] st = none
  process_deletes (m ∷ ms) (true ∷ flags) st = process_deletes ms flags st
  process_deletes (m ∷ ms) (false ∷ flags) st = process_deletes ms flags (delete m st).1
