-- ===== src/Smtp/Session/Invariant.antt =====
-- What a session holds about its recipients in each state, kept by every handler.
use inbucket.Common.{
  ◌≤◌, ◌≡◌, arith, Bool, true, false, Option, none, some, List, [], ◌∷◌, length, all, Bytes, is_nil,
  length-append,
}
use inbucket.Address.Email.{parse_email_address, parsed, failed}
use inbucket.Smtp.Command.{Command, helo, mail, rcpt, data_command}
use inbucket.Smtp.Reply.{Reply}
use inbucket.Smtp.Session.{
  State, greet, ready, mail_state, data_state, Server, Session, send, oo_seq, greet_handler,
  ready_handler, mail_handler, mail_command, check_params, accept_sender, rcpt_command,
  add_recipient, start_data,
}
use inbucket.Common.{all-append, Option-cases, inl, inr}
use inbucket.Smtp.MailArgs.{rcpt_argument}

-- An address that `ParseEmailAddress` accepts.
abbrev pub is_address : Bytes → Bool
is_address a = elim (parse_email_address a) [ parsed l d ↦ true | failed e ↦ false ]

-- The recipients are at most the server's limit, and addresses.
abbrev pub Accepted : Server → List Bytes → Type 0
Accepted srv rs = (length rs ≤ srv.max_recips) × (all is_address rs ≡ true)

-- The states that use the list of recipients have one, and DATA has at least one recipient.
abbrev pub RecipientsOk : Server → State → Option (List Bytes) → Type 0
RecipientsOk srv mail_state none = ⊥
RecipientsOk srv mail_state (some rs) = Accepted srv rs
RecipientsOk srv data_state none = ⊥
RecipientsOk srv data_state (some rs) = Accepted srv rs × (is_nil rs ≡ false)
RecipientsOk srv _ rs = Unit

abbrev pub Inv : Server → Session → Type 0
Inv srv s = RecipientsOk srv s.state s.recipients

-- `send` changes the transcript, the error and the warnings alone.
pub record Frame (s t : Session) : Type 0 where
  pub state : t.state ≡ s.state
  pub recipients : t.recipients ≡ s.recipients
  pub from : t.from ≡ s.from
  pub input : t.input ≡ s.input
  pub remote_domain : t.remote_domain ≡ s.remote_domain

pub send-Frame : (r : Reply) (s : Session) → Frame s (send r s)
unfolding send
send-Frame r s = ground arith

module _ (srv : Server) where
  send-Inv : (r : Reply) (s : Session) → Inv srv s → Inv srv (send r s)
  unfolding send
  send-Inv r s h = ground arith

  pub greet_handler-Inv :
      (cmd : Command) (name arg : Bytes) (s : Session)
      → s.state ≡ greet
      → Inv srv (greet_handler srv cmd name arg s)
  unfolding greet_handler oo_seq send
  greet_handler-Inv helo name arg s h = ground arith
  greet_handler-Inv _ name arg s h = ground arith

  accept_sender-Inv : (from : Bytes) (s : Session) → Inv srv (accept_sender from s)
  unfolding accept_sender send
  accept_sender-Inv from s = ground arith

  -- A handler in READY leaves the session in READY, or in MAIL with no recipient.
  pub ready_handler-Inv :
      (cmd : Command) (name arg : Bytes) (s : Session)
      → s.state ≡ ready
      → Inv srv (ready_handler srv cmd name arg s)
  unfolding ready_handler mail_command check_params accept_sender oo_seq send
  ready_handler-Inv mail name arg s h = ground arith
  ready_handler-Inv _ name arg s h = ground arith

  abbrev pub Kept : Option Session → Type 0
  Kept none = ⊥
  Kept (some s) = Inv srv s

  add_recipient-Inv :
      (recip : Bytes) (rs : List Bytes) (s : Session)
      → s.state ≡ mail_state
      → s.recipients ≡ some rs
      → Accepted srv rs
      → is_address recip ≡ true
      → Inv srv (add_recipient srv recip rs s)
  unfolding add_recipient send
  add_recipient-Inv recip rs s h p a v =
      ground (arith, length-append rs (recip ∷ []), all-append is_address rs (recip ∷ []))

  rcpt_command-Inv :
      (arg : Bytes) (s : Session) → s.state ≡ mail_state → Inv srv s → Kept (rcpt_command srv arg s)
  unfolding rcpt_command send
  rcpt_command-Inv arg s h i = elim (Option-cases (rcpt_argument srv.unicode arg)) [
    | inl e ↦ ground arith
    | inr (recip, e) ↦ elim (Option-cases s.recipients) [
      | inl r ↦ ground arith
      | inr (rs, r) ↦ ground (arith, add_recipient-Inv recip rs s)
    ]
  ]

  start_data-Inv :
      (name arg : Bytes) (s : Session)
      → s.state ≡ mail_state
      → Inv srv s
      → Kept (start_data name arg s)
  unfolding start_data oo_seq send
  start_data-Inv name arg s h i = ground arith

  -- In MAIL no handler meets nil recipients, and each keeps the invariant.
  pub mail_handler-Inv :
      (cmd : Command) (name arg : Bytes) (s : Session)
      → s.state ≡ mail_state
      → Inv srv s
      → Kept (mail_handler srv cmd name arg s)
  unfolding mail_handler oo_seq send
  mail_handler-Inv rcpt name arg s h i = rcpt_command-Inv arg s h i
  mail_handler-Inv data_command name arg s h i = start_data-Inv name arg s h i
  mail_handler-Inv _ name arg s h i = ground arith
