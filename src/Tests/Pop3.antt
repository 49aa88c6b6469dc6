-- ===== src/Tests/Pop3.antt =====
-- POP3 sessions at concrete inputs.
use inbucket.Common.{ℕ, ◌≡◌, refl, true, false, some, [], ◌∷◌, ◌++◌, map, length, codes, Bytes}
use inbucket.Conn.{line}
use inbucket.Pop3.Command.{dele}
use inbucket.Pop3.Lines.{stuff_line}
use inbucket.Pop3.Lines.Laws.{read_response, read_response-stuffed}
use inbucket.Pop3.Loop
use inbucket.Pop3.Loop.Safety.{start_session-returns}
use inbucket.Pop3.Messages.{transaction_handler, retr_command}
use inbucket.Pop3.Messages.Invariant.{KeptWorld}
use inbucket.Pop3.Messages.Marks.{mark_with, map_marks, retr_command-mark_with}
use inbucket.Pop3.Messages.Safe.{transaction_handler-Kept}
use inbucket.Pop3.Reply.{Reply, item_size}
use inbucket.Pop3.Session
use inbucket.Pop3.Session.{Server, Session, World, new_session, quit_state, retain_all}
use inbucket.Pop3.Session.Flags.{Inv}
use inbucket.Tests.Address.{tables}
use inbucket.Tests.Store.{memory}

abbrev server : Server
server = record { domain = codes "inbucket"; unicode = tables }

-- A session in TRANSACTION with three messages, the second of them marked.
abbrev reading : World memory
reading = record {
  store = codes "m1" ∷ [];
  session = record {
    state = Session.transaction;
    user = codes "u1";
    mailbox = some (codes "u1");
    messages = codes "m1" ∷ codes "m2" ∷ codes "m3" ∷ [];
    retain = true ∷ false ∷ true ∷ [];
    msg_count = 2;
    send_error = false;
    sent = [];
    writes = [];
    input = line (codes "DELE 1\r\n") ∷ line (codes "QUIT\r\n") ∷ [];
  };
}

reading-Inv : Inv memory reading.session
reading-Inv = record { flagged = refl; counted = refl }

start_session-returns_example :
    (w : World memory) × (Loop.start_session memory server (codes "1.2") reading ≡ Loop.ended w)
start_session-returns_example =
    start_session-returns memory server (codes "1.2") reading reading-Inv

transaction_handler-Kept_example :
    KeptWorld memory (transaction_handler memory dele (codes "DELE") (codes "3" ∷ []) reading)
transaction_handler-Kept_example =
    transaction_handler-Kept memory dele (codes "DELE") (codes "3" ∷ []) reading reading-Inv

abbrev item : ℕ → Bytes → Reply
item n m = item_size n (length m)

retr_command-mark_with_example :
    retr_command memory
      (codes "2" ∷ [])
      (record reading { session = mark_with memory (true ∷ true ∷ true ∷ []) reading.session })
    ≡ map_marks memory (true ∷ true ∷ true ∷ []) (retr_command memory (codes "2" ∷ []) reading)
retr_command-mark_with_example =
    retr_command-mark_with memory (codes "2" ∷ []) (true ∷ true ∷ true ∷ []) reading

read_response-stuffed_example :
    read_response (map stuff_line (codes "." ∷ codes "text" ∷ []) ++ codes "." ∷ [])
    ≡ some (codes "." ∷ codes "text" ∷ [], [])
read_response-stuffed_example = read_response-stuffed (codes "." ∷ codes "text" ∷ []) []
