-- ===== src/Smtp/Reply.antt =====
-- The replies of the SMTP session: what each `send` of smtpd/handler.go prints.
use inbucket.Common.{ℕ, ◌++◌, Bytes, codes, show_nat}

pub data Reply : Type 0 where
  ready_220 : Bytes → Reply
  idle_timeout connection_error goodbye : Reply
  hello_ok hello_extended eight_bit_mime : Reply
  size_limit : ℕ → Reply
  reset_ok noop_ok vrfy_252 mail_accepted start_input : Reply
  from_ok rcpt_ok : Bytes → Reply
  open_failed store_failed : Bytes → Reply
  speak_up garbled : Reply
  unrecognized : Bytes → Reply
  helo_domain ehlo_domain mail_syntax sender_syntax mail_params size_syntax : Reply
  rcpt_syntax recipient_syntax data_arguments : Reply
  not_implemented : Bytes → Reply
  out_of_sequence : Bytes → Reply
  max_size_552 data_too_large : Reply
  max_recipients : ℕ → Reply

-- The line, without the "\r\n" that `send` appends.
unfoldable pub reply_text : Reply → Bytes
reply_text (ready_220 d) = codes "220 " ++ (d ++ codes " Inbucket SMTP ready")
reply_text idle_timeout = codes "221 Idle timeout, bye bye"
reply_text connection_error = codes "221 Connection error, sorry"
reply_text goodbye = codes "221 Goodnight and good luck"
reply_text hello_ok = codes "250 Great, let's get this show on the road"
reply_text hello_extended = codes "250-Great, let's get this show on the road"
reply_text eight_bit_mime = codes "250-8BITMIME"
reply_text (size_limit n) = codes "250 SIZE " ++ show_nat n
reply_text reset_ok = codes "250 Session reset"
reply_text noop_ok = codes "250 I have sucessfully done nothing"
reply_text vrfy_252 = codes "252 Cannot VRFY user, but will accept message"
reply_text mail_accepted = codes "250 Mail accepted for delivery"
reply_text start_input = codes "354 Start mail input; end with <CRLF>.<CRLF>"
reply_text (from_ok f) = codes "250 Roger, accepting mail from <" ++ (f ++ codes ">")
reply_text (rcpt_ok r) = codes "250 I'll make sure <" ++ (r ++ codes "> gets this")
reply_text (open_failed r) = codes "451 Failed to open mailbox for " ++ r
reply_text (store_failed r) = codes "451 Failed to store message for " ++ r
reply_text speak_up = codes "500 Speak up"
reply_text garbled = codes "500 Syntax error, command garbled"
reply_text (unrecognized c) = codes "500 Syntax error, " ++ (c ++ codes " command unrecognized")
reply_text helo_domain = codes "501 Domain/address argument required for HELO"
reply_text ehlo_domain = codes "501 Domain/address argument required for EHLO"
reply_text mail_syntax = codes "501 Was expecting MAIL arg syntax of FROM:<address>"
reply_text sender_syntax = codes "501 Bad sender address syntax"
reply_text mail_params = codes "501 Unable to parse MAIL ESMTP parameters"
reply_text size_syntax = codes "501 Unable to parse SIZE as an integer"
reply_text rcpt_syntax = codes "501 Was expecting RCPT arg syntax of TO:<address>"
reply_text recipient_syntax = codes "501 Bad recipient address syntax"
reply_text data_arguments = codes "501 DATA command should not have any arguments"
reply_text (not_implemented c) = codes "502 " ++ (c ++ codes " command not implemented")
reply_text (out_of_sequence c) = codes "503 Command " ++ (c ++ codes " is out of sequence")
reply_text max_size_552 = codes "552 Max message size exceeded"
reply_text data_too_large = codes "552 Maximum message size exceeded"
reply_text (max_recipients n) =
    codes "552 Maximum limit of " ++ (show_nat n ++ codes " recipients reached")
