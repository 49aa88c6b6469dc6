-- ===== src/Pop3/Reply.antt =====
-- The lines that the POP3 session sends: what each `send` of pop3d/handler.go prints.
use inbucket.Common.{ℕ, ◌∷◌, ◌++◌, Bytes, codes, show_nat}

pub data Reply : Type 0 where
  greeting : Bytes → Reply
  speak_up : Reply
  unrecognized : Bytes → Reply
  capabilities cap_top cap_user cap_uidl cap_implementation : Reply
  idle_timeout connection_error : Reply
  goodbye : Reply
  hello : Bytes → Reply
  missing_user : Reply
  open_failed : Bytes → Reply
  found : ℕ → Bytes → Reply
  apop_arguments : Reply
  stat_arguments : Reply
  stat_ok : ℕ → ℕ → Reply
  at_most_one single_argument not_integer not_positive too_big : Bytes → Reply
  you_deleted : ℕ → Reply
  number_size : ℕ → ℕ → Reply
  number_id : ℕ → Bytes → Reply
  listing : ℕ → Reply
  item_size : ℕ → ℕ → Reply
  item_id : ℕ → Bytes → Reply
  end_of_list : Reply
  deleted already_deleted : ℕ → Reply
  bytes_follow : ℕ → Reply
  message_line : Bytes → Reply
  retr_failed : Reply
  top_arguments top_not_positive top_too_big top_negative top_follows : Reply
  process_deletes_ok noop_ok reset_ok : Reply
  out_of_sequence : Bytes → Reply

-- The line, without the "\r\n" that `send` appends.
unfoldable pub reply_text : Reply → Bytes
reply_text (greeting id) = codes "+OK Inbucket POP3 server ready " ++ id
reply_text speak_up = codes "-ERR Speak up"
reply_text (unrecognized c) = codes "-ERR Syntax error, " ++ (c ++ codes " command unrecognized")
reply_text capabilities = codes "+OK Capability list follows"
reply_text cap_top = codes "TOP"
reply_text cap_user = codes "USER"
reply_text cap_uidl = codes "UIDL"
reply_text cap_implementation = codes "IMPLEMENTATION Inbucket"
reply_text idle_timeout = codes "-ERR Idle timeout, bye bye"
reply_text connection_error = codes "-ERR Connection error, sorry"
reply_text goodbye = codes "+OK Goodnight and good luck"
reply_text (hello u) = codes "+OK Hello " ++ (u ++ codes ", welcome to Inbucket")
reply_text missing_user = codes "-ERR Missing username argument"
reply_text (open_failed u) = codes "-ERR Failed to open mailbox for " ++ u
reply_text (found n u) = codes "+OK Found " ++ (show_nat n ++ (codes " messages for " ++ u))
reply_text apop_arguments = codes "-ERR APOP requires two arguments"
reply_text stat_arguments = codes "-ERR STAT command must have no arguments"
reply_text (stat_ok n size) = codes "+OK " ++ (show_nat n ++ (b' ' ∷ show_nat size))
reply_text (at_most_one c) = codes "-ERR " ++ (c ++ codes " command must have zero or one argument")
reply_text (single_argument c) = codes "-ERR " ++ (c ++ codes " command requires a single argument")
reply_text (not_integer c) = codes "-ERR " ++ (c ++ codes " command requires an integer argument")
reply_text (not_positive c) = codes "-ERR " ++ (c ++ codes " argument must be greater than 0")
reply_text (too_big c) =
    codes "-ERR " ++ (c ++ codes " argument must not exceed the number of messages")
reply_text (you_deleted n) = codes "-ERR You deleted message " ++ show_nat n
reply_text (number_size n size) = codes "+OK " ++ (show_nat n ++ (b' ' ∷ show_nat size))
reply_text (number_id n id) = codes "+OK " ++ (show_nat n ++ (b' ' ∷ id))
reply_text (listing n) = codes "+OK Listing " ++ (show_nat n ++ codes " messages")
reply_text (item_size n size) = show_nat n ++ (b' ' ∷ show_nat size)
reply_text (item_id n id) = show_nat n ++ (b' ' ∷ id)
reply_text end_of_list = codes "."
reply_text (deleted n) = codes "+OK Deleted message " ++ show_nat n
reply_text (already_deleted n) =
    codes "-ERR Message " ++ (show_nat n ++ codes " has already been deleted")
reply_text (bytes_follow n) = codes "+OK " ++ (show_nat n ++ codes " bytes follows")
reply_text (message_line l) = l
reply_text retr_failed = codes "-ERR Failed to RETR that message, internal error"
reply_text top_arguments = codes "-ERR TOP command requires two arguments"
reply_text top_not_positive = codes "-ERR TOP first argument must be greater than 0"
reply_text top_too_big = codes "-ERR TOP first argument must not exceed the number of messages"
reply_text top_negative = codes "-ERR TOP second argument must be non-negative"
reply_text top_follows = codes "+OK Top of message follows"
reply_text process_deletes_ok = codes "+OK We will process your deletes"
reply_text noop_ok = codes "+OK I have sucessfully done nothing"
reply_text reset_ok = codes "+OK Session reset"
reply_text (out_of_sequence c) = codes "-ERR Command " ++ (c ++ codes " is out of sequence")
