-- ===== src/Smtp/Session.antt =====
-- The session of smtpd/handler.go and its handlers for the states before DATA. A method returns
-- the session that it leaves; `none` is the panic of a method call on the nil `recipients`.
pub mod Invariant
pub mod Inputs
use inbucket.Common.{
  ℕ, ◌+◌, Bool, true, false, not, Option, none, some, List, [], ◌∷◌, ◌++◌, ltb, leb, if◌then◌else◌,
  is_nil, length, Bytes, codes, Unicode, parse_int32, ℤ, pos_part,
}
pub use inbucket.Conn.{
  WriteOutcome, written, no_deadline, broken_pipe, Read, line, eof, timeout, broken,
}
use inbucket.Address.Email.{parse_email_address, parsed, failed}
use inbucket.Smtp.Command.{Command, helo, ehlo, mail, rcpt, data_command, commands, lookup_command}
use inbucket.Smtp.Reply.{
  Reply, hello_ok, hello_extended, eight_bit_mime, size_limit, from_ok, rcpt_ok, helo_domain,
  ehlo_domain, mail_syntax, sender_syntax, mail_params, size_syntax, rcpt_syntax, recipient_syntax,
  data_arguments, out_of_sequence, max_size_552, max_recipients,
}
use inbucket.Smtp.MailArgs.{parse_hello_argument, match_from, parse_args, last_value, rcpt_argument}

pub data State : Type 0 where
  greet ready mail_state data_state quit_state : State

-- The server's configuration that a session reads.
pub record Server : Type 0 where
  pub domain : Bytes
  pub domain_no_store : Bytes
  pub max_recips : ℕ
  pub max_message_bytes : ℕ
  pub store_messages : Bool
  pub unicode : Unicode

-- `sent` holds the replies, the latest first; `writes` the outcomes of the writes to come, all
-- written behind its end; `input` the reads to come, `eof` behind its end. The totals are the
-- exported counters.
pub record Session : Type 0 where
  pub state : State
  pub remote_domain : Bytes
  pub remote_host : Bytes
  pub send_error : Bool
  pub from : Bytes
  pub recipients : Option (List Bytes)
  pub sent : List Reply
  pub writes : List WriteOutcome
  pub input : List Read
  pub warns_total : ℕ
  pub errors_total : ℕ

unfoldable pub new_session : Bytes → List WriteOutcome → List Read → Session
new_session host writes input = record {
  state = greet;
  remote_domain = [];
  remote_host = host;
  send_error = false;
  from = [];
  recipients = none;
  sent = [];
  writes = writes;
  input = input;
  warns_total = 0;
  errors_total = 0;
}

abbrev pub log_warn : Session → Session
log_warn s = record s { warns_total = s.warns_total + 1 }

abbrev pub log_error : Session → Session
log_error s = record s { errors_total = s.errors_total + 1 }

abbrev pub enter_state : State → Session → Session
enter_state state s = record s { state = state }

abbrev send_outcome : Reply → List WriteOutcome → Session → Session
send_outcome r [] s = record s { sent = r ∷ s.sent }
send_outcome r (written ∷ ws) s = record s { sent = r ∷ s.sent; writes = ws }
send_outcome r (no_deadline ∷ ws) s = record s { send_error = true; writes = ws }
send_outcome r (broken_pipe ∷ ws) s = log_warn (record s { send_error = true; writes = ws })

unfoldable pub send : Reply → Session → Session
send r s = send_outcome r s.writes s

unfoldable pub reset : Session → Session
reset s = record (enter_state ready s) { from = []; recipients = none }

unfoldable pub oo_seq : Bytes → Session → Session
oo_seq cmd s = log_warn (send (out_of_sequence cmd) s)

unfoldable pub greet_handler : Server → Command → Bytes → Bytes → Session → Session
greet_handler srv helo name arg s = elim (parse_hello_argument arg) [
  | none ↦ send helo_domain s
  | some domain ↦ enter_state ready (send hello_ok (record s { remote_domain = domain }))
]
greet_handler srv ehlo name arg s = elim (parse_hello_argument arg) [
  | none ↦ send ehlo_domain s
  | some domain ↦ enter_state ready (
      send (size_limit srv.max_message_bytes)
        (send eight_bit_mime (send hello_extended (record s { remote_domain = domain }))))
]
greet_handler srv _ name arg s = oo_seq name s

unfoldable pub accept_sender : Bytes → Session → Session
accept_sender from s =
    enter_state mail_state (send (from_ok from) (record s { from = from; recipients = some [] }))

-- The check of SIZE; a value is never empty, so `none` is `args["SIZE"] == ""`.
unfoldable pub check_size : Server → Bytes → Option Bytes → Session → Session
check_size srv from none s = accept_sender from s
check_size srv from (some v) s = elim (parse_int32 v) [
  | none ↦ log_warn (send size_syntax s)
  | some size ↦
      if ltb srv.max_message_bytes (pos_part size)
      then log_warn (send max_size_552 s)
      else accept_sender from s
]

-- `parseArgs` logs a warning of its own where it fails.
unfoldable pub check_params : Server → Bytes → Bytes → Session → Session
unfolding check_size
check_params srv from params s =
    if is_nil params then accept_sender from s else elim (parse_args srv.unicode params) [
      | none ↦ log_warn (send mail_params (log_warn s))
      | some args ↦ check_size srv from (last_value (codes "SIZE") args) s
    ]

unfoldable pub mail_command : Server → Bytes → Session → Session
mail_command srv arg s = elim (match_from arg) [
  | none ↦ log_warn (send mail_syntax s)
  | some (from, params) ↦ elim (parse_email_address from) [
    | failed e ↦ log_warn (send sender_syntax s)
    | parsed l d ↦ check_params srv from params s
  ]
]

unfoldable pub ready_handler : Server → Command → Bytes → Bytes → Session → Session
ready_handler srv mail name arg s = mail_command srv arg s
ready_handler srv _ name arg s = oo_seq name s

unfoldable pub add_recipient : Server → Bytes → List Bytes → Session → Session
add_recipient srv recip rs s =
    if leb srv.max_recips (length rs)
    then send (max_recipients srv.max_recips) (log_warn s)
    else send (rcpt_ok recip) (record s { recipients = some (rs ++ recip ∷ []) })

unfoldable pub rcpt_command : Server → Bytes → Session → Option Session
rcpt_command srv arg s = elim (rcpt_argument srv.unicode arg) [
  | none ↦ some (log_warn (send rcpt_syntax s))
  | some recip ↦ elim (parse_email_address recip) [
    | failed e ↦ some (log_warn (send recipient_syntax s))
    | parsed l d ↦ elim s.recipients [ none ↦ none | some rs ↦ some (add_recipient srv recip rs s) ]
  ]
]

unfoldable pub start_data : Bytes → Bytes → Session → Option Session
start_data name arg s =
    if not (is_nil arg) then some (log_warn (send data_arguments s)) else elim s.recipients [
      | none ↦ none
      | some [] ↦ some (oo_seq name s)
      | some (r ∷ rs) ↦ some (enter_state data_state s)
    ]

unfoldable pub mail_handler : Server → Command → Bytes → Bytes → Session → Option Session
mail_handler srv rcpt name arg s = rcpt_command srv arg s
mail_handler srv data_command name arg s = start_data name arg s
mail_handler srv _ name arg s = some (oo_seq name s)
