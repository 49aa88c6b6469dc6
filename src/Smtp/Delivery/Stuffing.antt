-- ===== src/Smtp/Delivery/Stuffing.antt =====
-- What the loop of `dataHandler` makes of the lines that a client sends.
use inbucket.Common.{
  ℕ, ◌+◌, ◌≤◌, ◌<◌, ◌≡◌, refl, ◌∙◌, arith, false, List, [], ◌∷◌, ◌++◌, map, ltb, length, ◌==◌,
  if◌then◌else◌, Bytes, codes, equal,
}
use mathlib.Core.List.{append_assoc, append-nil}
use inbucket.DataStore.{DataStore}
use inbucket.Smtp.Reply.{data_too_large}
use inbucket.Smtp.Session.{Server, Read, line, log_warn, send, reset}
use inbucket.Smtp.Delivery.{
  World, RecipientDetails, collect, finish_data, with_session, unstuff, is_end,
}

-- What RFC 5321 has the client do: a line that begins with a period is given one more.
abbrev pub stuff : Bytes → Bytes
stuff [] = []
stuff (c ∷ cs) = if c == b'.' then b'.' ∷ c ∷ cs else c ∷ cs

unstuff-stuff : (l : Bytes) → unstuff (stuff l) ≡ l
unfolding unstuff
unstuff-stuff [] = refl
unstuff-stuff (c ∷ cs) = ground arith

is_end-stuff : (l : Bytes) → is_end (stuff l) ≡ false
unfolding is_end equal
is_end-stuff [] = refl
is_end-stuff (c ∷ cs) = ground arith

abbrev pub total : List Bytes → ℕ
total [] = 0
total (l ∷ ls) = length l + total ls

abbrev pub sent_line : Bytes → Read
sent_line l = line (stuff l)

module _ (ds : DataStore) (srv : Server) (rs : List (RecipientDetails ds)) where
  abbrev left_with : List Read → World ds → World ds
  left_with rest = with_session ds (λ s. record s { input = rest })

  -- One round of the loop, on a line that is not the end.
  abbrev round_result : List Bytes → ℕ → Bytes → List Read → World ds → World ds
  round_result buf n l rest w =
      if ltb srv.max_message_bytes (n + length l)
      then with_session ds (λ s. reset (log_warn (send data_too_large s))) (left_with rest w)
      else collect ds srv rs (buf ++ l ∷ []) (n + length l) rest (left_with rest w)

  collect-raw :
      (raw l : Bytes) (rest : List Read) (buf : List Bytes) (n : ℕ) (w : World ds)
      → is_end raw ≡ false
      → unstuff raw ≡ l
      → collect ds srv rs buf n (line raw ∷ rest) w ≡ round_result buf n l rest w
  unfolding collect
  collect-raw raw l rest buf n w e u = ground arith

  collect-line :
      (l : Bytes) (rest : List Read) (buf : List Bytes) (n : ℕ) (w : World ds)
      → collect ds srv rs buf n (sent_line l ∷ rest) w ≡ round_result buf n l rest w
  collect-line l rest buf n w =
      collect-raw (stuff l) l rest buf n w (is_end-stuff l) (unstuff-stuff l)

  collect-within :
      (l : Bytes) (rest : List Read) (buf : List Bytes) (n : ℕ) (w : World ds)
      → n + length l ≤ srv.max_message_bytes
      → collect ds srv rs buf n (sent_line l ∷ rest) w
        ≡ collect ds srv rs (buf ++ l ∷ []) (n + length l) rest (left_with rest w)
  collect-within l rest buf n w h = collect-line l rest buf n w ∙ ground arith

  abbrev pub end_line : Read
  end_line = line (codes ".\r\n")

  collect-end :
      (rest : List Read) (buf : List Bytes) (n : ℕ) (w : World ds)
      → collect ds srv rs buf n (end_line ∷ rest) w ≡ finish_data ds srv rs buf (left_with rest w)
  unfolding collect is_end equal
  collect-end rest buf n w = refl

  collect_complete :
      (ls : List Bytes) (rest : List Read) (buf : List Bytes) (n : ℕ) (w : World ds)
      → n + total ls ≤ srv.max_message_bytes
      → collect ds srv rs buf n (map sent_line ls ++ end_line ∷ rest) w
        ≡ finish_data ds srv rs (buf ++ ls) (left_with rest w)
  collect_complete [] rest buf n w h = collect-end rest buf n w ∙ rw append-nil
  collect_complete (l ∷ ls) rest buf n w h =
      collect-within l _ buf n w (omega arith)
      ∙ collect_complete ls rest (buf ++ l ∷ []) (n + length l) (left_with _ w) (omega arith)
      ∙ rw append_assoc

  -- Lines that a client sends with leading periods doubled, of at most the server's maximum in
  -- all, and the closing `.` are handed to the recipients as the lines that the client meant, and
  -- the reads behind them are left for the next command.
  pub collect-message :
      (ls : List Bytes) (rest : List Read) (w : World ds)
      → total ls ≤ srv.max_message_bytes
      → collect ds srv rs [] 0 (map sent_line ls ++ end_line ∷ rest) w
        ≡ finish_data ds srv rs ls (left_with rest w)
  collect-message ls rest w h = collect_complete ls rest [] 0 w (omega arith)

  collect-exceeds :
      (ls : List Bytes) (l : Bytes) (rest : List Read) (buf : List Bytes) (n : ℕ) (w : World ds)
      → n + total ls ≤ srv.max_message_bytes
      → srv.max_message_bytes < n + total ls + length l
      → collect ds srv rs buf n (map sent_line ls ++ sent_line l ∷ rest) w
        ≡ with_session ds (λ s. reset (log_warn (send data_too_large s))) (left_with rest w)
  collect-exceeds [] l rest buf n w h k = collect-line l rest buf n w ∙ ground arith
  collect-exceeds (m ∷ ls) l rest buf n w h k =
      collect-within m _ buf n w (omega arith)
      ∙ collect-exceeds ls l rest (buf ++ m ∷ []) (n + length m) (left_with _ w) (omega arith)
          (omega arith)

  -- The first line that takes the message over the server's maximum ends the DATA: the session is
  -- answered 552 and reset, and the store, the hub and the counter of received messages are as
  -- they were.
  pub collect-too_large :
      (ls : List Bytes) (l : Bytes) (rest : List Read) (w : World ds)
      → total ls ≤ srv.max_message_bytes
      → srv.max_message_bytes < total ls + length l
      → collect ds srv rs [] 0 (map sent_line ls ++ sent_line l ∷ rest) w ≡ record w {
        session = reset (log_warn (send data_too_large (record w.session { input = rest })));
      }
  collect-too_large ls l rest w h k = collect-exceeds ls l rest [] 0 w (omega arith) (omega arith)
