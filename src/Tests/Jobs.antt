-- ===== src/Tests/Jobs.antt =====
-- The retention scanner, the accept loop, a websocket and the recent mailboxes at concrete inputs.
use inbucket.Common.{
  ◌≡◌, refl, arith, true, false, some, List, [], ◌∷◌, length, all, drop, Bytes, codes, inl,
}
use inbucket.DataStore.{DataStore}
use inbucket.Tests.Store.{memory}
use inbucket.Retention.{
  finish_scan, scan_mailboxes, is_shut_down, scan_message, Turn, Metrics, Scan, do_scan,
  scan_messages,
}
use inbucket.Retention.Expired.{Scanned, scan_messages-Scanned}
use inbucket.Listener.{
  Accept, connection, temporary, permanent, start_session, sleep, next_delay, serve,
}
use inbucket.Listener.Backoff.{is_patient, serve-is_patient}
use inbucket.Hub.{HubMessage}
use inbucket.Socket.{MsgListener, new_msg_listener, returned, receive_all, close_all}
use inbucket.Socket.Closing.{close_all-receive_all}

-- One mailbox, whose messages are dated by their length; a delete removes the first message.
abbrev dated : DataStore
dated = record memory {
  all_mailboxes = λ st. (some (codes "box" ∷ []), st);
  get_messages = λ mb st. (some st, st);
  date = λ m st. length m;
  delete = λ m st. (true, drop 1 st);
}

abbrev letters : List Bytes
letters = codes "old" ∷ codes "rather young" ∷ []

abbrev metrics : Metrics
metrics = record { deletes_total = 4; period = 60; retained_current = 9; scan_completed = 0 }

abbrev begun : Scan dated
begun = record { store = letters; deletes_total = 4; retained = 0 }

do_scan_example :
    do_scan dated
      (record { retention_period = 10; retention_sleep = 1 })
      20
      21
      (false ∷ [])
      metrics
      letters
    ≡ (
      true,
      codes "rather young" ∷ [],
      record { deletes_total = 5; period = 60; retained_current = 1; scan_completed = 21 },
    )
unfolding do_scan finish_scan scan_mailboxes is_shut_down scan_messages scan_message
do_scan_example = refl

scan_messages-Scanned_example :
    Scanned dated 10 letters begun (scan_messages dated 10 letters begun)
scan_messages-Scanned_example = scan_messages-Scanned dated (λ m n st. refl) 10 letters begun

abbrev accepts : List Accept
accepts = connection ∷ temporary ∷ temporary ∷ connection ∷ permanent true ∷ []

serve_example : serve 1 0 accepts ≡ start_session 1 ∷ sleep 5 ∷ sleep 10 ∷ start_session 4 ∷ []
unfolding serve next_delay
serve_example = refl

serve-is_patient_example : all is_patient (serve 1 0 accepts) ≡ true
serve-is_patient_example = serve-is_patient 1 0 accepts (inl refl)

abbrev turns : List Turn
turns =
    record {
      since = 5;
      late = 2;
      stop_asleep = false;
      lasting = 9;
      shutdowns = [];
      stop_after = false;
    }
    ∷ []

abbrev news : HubMessage
news = record {
  mailbox = codes "box";
  id = [];
  from = [];
  to = [];
  subject = [];
  date = 0;
  size = 0;
}

-- Two calls of `Close`, as the reader's and the writer's exits make, with two messages waiting.
close_all-receive_all_example :
    (ml : MsgListener) × (receive_all (news ∷ news ∷ []) (new_msg_listener 7 []).1 ≡ returned ml)
    × (ml.queue ≡ news ∷ news ∷ [])
    × ((close_all 7 2 ml).0 ≡ [])
close_all-receive_all_example = close_all-receive_all 7 2 [] (news ∷ news ∷ []) (omega arith)
