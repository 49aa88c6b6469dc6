-- ===== src/Tests/Smtp.antt =====
-- SMTP sessions at concrete inputs.
use inbucket.Common.{
  none, true, false, [], ◌∷◌, List, ◌≡◌, refl, codes, Bytes, to_lower, to_upper, trim, trim_right,
  before, equal, parse_int32,
}
use inbucket.Address.Domain.{validate_domain_part}
use inbucket.Address.Email.{parse_email_address, round, scan, is_plain}
use inbucket.Smtp.Command.{parse_cmd, lookup_command}
use inbucket.Smtp.Reply.{
  Reply, ready_220, hello_ok, from_ok, rcpt_ok, start_input, mail_accepted, goodbye,
}
use inbucket.Smtp.MailArgs.{match_from, parse_args, last_value, rcpt_argument, parse_hello_argument}
use inbucket.Smtp.Session.{
  Server, Session, State, Read, line, send, reset, oo_seq, greet_handler, ready_handler,
  mail_handler, mail_command, check_params, accept_sender, rcpt_command, add_recipient, start_data,
}
use inbucket.Smtp.Delivery.{
  World, data_handler, open_mailboxes, collect, finish_data, deliver_all, deliver_message,
  write_message, broadcast, append_lines, is_end, unstuff, received_header,
}
use inbucket.Smtp.Loop
use inbucket.Smtp.Loop.{
  Ended, ended, panicked, out_of_fuel, dispatch, run_line, command_round, run, start_session,
}
use inbucket.Common.{◌++◌, map, arith, some}
use inbucket.Smtp.Command.{mail}
use inbucket.Smtp.Reply.{data_too_large}
use inbucket.Smtp.Session.{log_warn, greet, mail_state}
use inbucket.Smtp.Delivery.{RecipientDetails, opened}
use inbucket.Smtp.Delivery.Stuffing.{sent_line, collect-message, collect-too_large}
use inbucket.Smtp.Delivery.Recipients.{Delivered, deliver_all-Delivered}
use inbucket.Smtp.Loop.{continue}
use inbucket.Smtp.Loop.Moves.{MoveTo, dispatch-Move}
use inbucket.Smtp.Loop.Safety.{start_session-ended}
use inbucket.Tests.Address.{tables}
use inbucket.Tests.Store.{memory}

abbrev pub server : Server
server = record {
  domain = codes "inbucket";
  domain_no_store = codes "bitbucket.local";
  max_recips = 2;
  max_message_bytes = 100;
  store_messages = true;
  unicode = tables;
}

abbrev pub fresh : List Read → World memory
fresh reads = record {
  session = record {
    state = State.greet;
    remote_domain = [];
    remote_host = codes "10.0.0.1";
    send_error = false;
    from = [];
    recipients = none;
    sent = [];
    writes = [];
    input = reads;
    warns_total = 0;
    errors_total = 0;
  };
  store = [];
  dispatched = [];
  received_total = 0;
  stamps = codes "today" ∷ [];
  connects_current = 0;
}

abbrev replies : Ended memory → List Reply
replies (ended w) = w.session.sent
replies _ = []

abbrev stored : Ended memory → List Bytes
stored (ended w) = w.store
stored _ = []

abbrev dialogue : List Read
dialogue =
    line (codes "HELO localhost\r\n")
    ∷ line (codes "MAIL FROM:<john@gmail.com> SIZE=99\r\n")
    ∷ line (codes "RCPT TO:<u1+x@gmail.com>\r\n")
    ∷ line (codes "DATA\r\n")
    ∷ line (codes "..dot\r\n")
    ∷ line (codes ".\r\n")
    ∷ line (codes "quit\r\n")
    ∷ []

delivers :
    (replies (start_session memory server (fresh dialogue))
      ≡ goodbye
        ∷ mail_accepted
        ∷ start_input
        ∷ rcpt_ok (codes "u1+x@gmail.com")
        ∷ from_ok (codes "john@gmail.com")
        ∷ hello_ok
        ∷ ready_220 (codes "inbucket")
        ∷ [])
    × (stored (start_session memory server (fresh dialogue))
        ≡ codes
            "Received: from localhost ([10.0.0.1]) by inbucket\r\n  for <u1+x@gmail.com>; today\r\n"
          ∷ codes ".dot\r\n"
          ∷ [])
unfolding start_session run Loop.round command_round run_line dispatch parse_cmd lookup_command
    to_upper to_lower trim_right equal greet_handler ready_handler mail_handler mail_command
    check_params accept_sender rcpt_command add_recipient start_data send reset oo_seq match_from
    parse_args last_value rcpt_argument parse_hello_argument before trim parse_int32
    parse_email_address scan round is_plain validate_domain_part data_handler open_mailboxes collect
    finish_data deliver_all deliver_message write_message broadcast append_lines is_end unstuff
    received_header
delivers = (refl, refl)

start_session-ended_example :
    (w : World memory) × (start_session memory server (fresh dialogue) ≡ ended w)
start_session-ended_example = start_session-ended server memory (fresh dialogue) refl

-- One recipient, and a message of two lines.
abbrev one_recipient : RecipientDetails memory
one_recipient = record {
  address = codes "u1@gmail.com";
  local_part = codes "u1";
  domain_part = codes "gmail.com";
  mailbox = codes "u1";
}

abbrev two_lines : List Bytes
two_lines = codes ".hidden\r\n" ∷ codes "shown\r\n" ∷ []

collect-message_example :
    collect memory server
      (one_recipient ∷ [])
      []
      0
      (map sent_line two_lines ++ line (codes ".\r\n") ∷ [])
      (fresh [])
    ≡ finish_data memory server (one_recipient ∷ []) two_lines (fresh [])
collect-message_example =
    collect-message memory server (one_recipient ∷ []) two_lines [] (fresh []) (omega arith)

-- A server that takes messages of ten bytes.
abbrev narrow : Server
narrow = record server { max_message_bytes = 10 }

collect-too_large_example :
    collect memory narrow
      (one_recipient ∷ [])
      []
      0
      (map sent_line (codes ".hidden\r\n" ∷ []) ++ sent_line (codes "shown\r\n") ∷ [])
      (fresh [])
    ≡ record (fresh []) { session = reset (log_warn (send data_too_large (fresh []).session)) }
collect-too_large_example =
    collect-too_large memory narrow (one_recipient ∷ []) (codes ".hidden\r\n" ∷ [])
      (codes "shown\r\n") [] (fresh []) (omega arith) (omega arith)

deliver_all-Delivered_example :
    Delivered memory server
      (one_recipient ∷ [])
      (fresh [])
      (deliver_all memory server (one_recipient ∷ []) two_lines (fresh []))
deliver_all-Delivered_example =
    deliver_all-Delivered memory server (one_recipient ∷ []) two_lines (fresh [])

abbrev two_recipients : List Bytes
two_recipients = codes "u1@gmail.com" ∷ codes "u2@BitBucket.local" ∷ []

opens : open_mailboxes memory server [] two_recipients [] ≡ opened (one_recipient ∷ []) []
unfolding open_mailboxes parse_email_address scan round is_plain validate_domain_part to_lower equal
opens = refl

dispatch-Move_example : MoveTo mail greet (dispatch server mail [] [] (fresh []).session)
dispatch-Move_example = dispatch-Move server [] [] (fresh []).session mail

-- A session in MAIL with one recipient.
abbrev in_mail : Session
in_mail = record (fresh []).session {
  state = mail_state;
  recipients = some (codes "u2@x.org" ∷ []);
}
