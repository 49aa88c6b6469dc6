-- ===== src/Smtp/Session/Inputs.antt =====
-- The handlers read nothing: each leaves the input as it was.
use inbucket.Common.{◌≡◌, arith, Option, none, some, Bytes}
use inbucket.Smtp.Command.{Command, helo, mail, rcpt}
use inbucket.Smtp.Reply.{Reply}
use inbucket.Smtp.Session.{
  Server, Session, send, oo_seq, greet_handler, ready_handler, mail_handler, mail_command,
  check_params, accept_sender, rcpt_command, add_recipient, start_data,
}

pub send-input : (r : Reply) (s : Session) → (send r s).input ≡ s.input
unfolding send
send-input r s = ground arith

abbrev pub SameInput : Session → Option Session → Type 0
SameInput s none = Unit
SameInput s (some t) = t.input ≡ s.input

module _ (srv : Server) (name arg : Bytes) (s : Session) where
  pub greet_handler-input : (cmd : Command) → (greet_handler srv cmd name arg s).input ≡ s.input
  unfolding greet_handler oo_seq send
  greet_handler-input helo = ground arith
  greet_handler-input _ = ground arith

  pub ready_handler-input : (cmd : Command) → (ready_handler srv cmd name arg s).input ≡ s.input
  unfolding ready_handler mail_command check_params accept_sender oo_seq send
  ready_handler-input mail = ground arith
  ready_handler-input _ = ground arith

  pub mail_handler-input : (cmd : Command) → SameInput s (mail_handler srv cmd name arg s)
  unfolding mail_handler rcpt_command add_recipient start_data oo_seq send
  mail_handler-input rcpt = ground arith
  mail_handler-input _ = ground arith
