-- ===== src/Pop3/Messages.antt =====
-- The commands of the TRANSACTION state of pop3d/handler.go. `none` is an index out of range.
pub mod Invariant
pub mod Safe
pub mod Update
pub mod Marks
use inbucket.Common.{
  ℕ, zero, suc, ◌+◌, ◌-◌, Bool, true, false, not, Option, none, some, List, [], ◌∷◌, ◌++◌, map, ltb,
  if◌then◌else◌, length, get_elem?, set, Bytes, codes, ℤ, pos, negsuc, pos_part, parse_int32,
}
use inbucket.DataStore.{DataStore}
use inbucket.Pop3.Command.{
  Command, quit, stat, list, retr, dele, noop, rset, top, uidl, user, pass, apop, capa,
}
use inbucket.Pop3.Lines.{scan_lines, stuff_line, top_lines}
use inbucket.Pop3.Reply
use inbucket.Pop3.Reply.{
  Reply, stat_arguments, stat_ok, at_most_one, single_argument, not_integer, not_positive, too_big,
  you_deleted, number_size, number_id, listing, item_size, item_id, end_of_list, already_deleted,
  bytes_follow, message_line, retr_failed, top_arguments, top_not_positive, top_too_big,
  top_negative, top_follows, process_deletes_ok, noop_ok, reset_ok,
}
use inbucket.Pop3.Session.{
  Session, World, quit_state, enter_state, send, send_all, oo_seq, retain_all, process_deletes,
}

-- A message number: from 1 to the number of messages, or the reply that refuses it.
pub data Number : Type 0 where
  number : ℕ → Number
  wrong : Reply → Number

abbrev in_range : ℕ → Reply → Reply → Option ℤ → Reply → Number
in_range count positive bounded none integer = wrong integer
in_range count positive bounded (some (negsuc n)) integer = wrong positive
in_range count positive bounded (some (pos zero)) integer = wrong positive
in_range count positive bounded (some (pos (suc n))) integer =
    if ltb count (suc n) then wrong bounded else number (suc n)

-- The checks that LIST, UIDL, DELE, RETR and TOP make of a number.
unfoldable pub check_number : ℕ → Reply → Reply → Reply → Bytes → Number
check_number count integer positive bounded arg =
    in_range count positive bounded (parse_int32 arg) integer

unfoldable pub command_number : Bytes → ℕ → Bytes → Number
unfolding check_number
command_number name count arg =
    check_number count (not_integer name) (not_positive name) (too_big name) arg

module _ (ds : DataStore) where
  open ds use {Store, Message, id, size, raw}

  -- The loop of STAT: the count and the size of the messages retained.
  unfoldable pub stat_totals : Store → List Message → List Bool → Option (ℕ × ℕ)
  stat_totals st [] flags = some (0, 0)
  stat_totals st (m ∷ ms) [] = none
  stat_totals st (m ∷ ms) (keep ∷ flags) = elim (stat_totals st ms flags) [
    | none ↦ none
    | some (count, total) ↦ some (if keep then (suc count, size m st + total) else (count, total))
  ]

  unfoldable pub stat_command : List Bytes → World ds → Option (World ds)
  stat_command (a ∷ args) w = some (record w { session = send ds stat_arguments w.session })
  stat_command [] w = elim (stat_totals w.store w.session.messages w.session.retain) [
    | none ↦ none
    | some (count, total) ↦ some (record w { session = send ds (stat_ok count total) w.session })
  ]

  -- The loop of LIST and UIDL: `item i m` for each message retained, under its number.
  unfoldable pub list_items :
      (ℕ → Message → Reply) → ℕ → List Message → List Bool → Option (List Reply)
  list_items item i [] flags = some []
  list_items item i (m ∷ ms) [] = none
  list_items item i (m ∷ ms) (keep ∷ flags) = elim (list_items item (suc i) ms flags) [
    | none ↦ none
    | some items ↦ some (if keep then item i m ∷ items else items)
  ]

  -- LIST and UIDL of one message.
  unfoldable pub list_one : (ℕ → Message → Reply) → Number → Session ds → Option (Session ds)
  list_one one (wrong r) s = some (send ds r s)
  list_one one (number n) s = elim (get_elem? s.retain (n - 1)) [
    | none ↦ none
    | some false ↦ some (send ds (you_deleted n) s)
    | some true ↦ elim (get_elem? s.messages (n - 1)) [
      | none ↦ none
      | some m ↦ some (send ds (one n m) s)
    ]
  ]

  unfoldable pub list_command :
      Bytes
      → (ℕ → Message → Reply)
      → (ℕ → Message → Reply)
      → List Bytes
      → Session ds
      → Option (Session ds)
  unfolding list_one command_number
  list_command name one item [] s = elim (list_items item 1 s.messages s.retain) [
    | none ↦ none
    | some items ↦ some (send ds end_of_list (send_all ds items (send ds (listing s.msg_count) s)))
  ]
  list_command name one item (a ∷ []) s = list_one one (command_number name (length s.messages) a) s
  list_command name one item (a ∷ b ∷ args) s = some (send ds (at_most_one name) s)

  unfoldable pub dele_number : Number → Session ds → Option (Session ds)
  dele_number (wrong r) s = some (send ds r s)
  dele_number (number n) s = elim (get_elem? s.retain (n - 1)) [
    | none ↦ none
    | some true ↦ some (
        send ds (Reply.deleted n)
          (record s { retain = set s.retain (n - 1) false; msg_count = s.msg_count - 1 }))
    | some false ↦ some (send ds (already_deleted n) s)
  ]

  unfoldable pub dele_command : List Bytes → Session ds → Option (Session ds)
  unfolding dele_number
  dele_command (a ∷ []) s = dele_number (command_number (codes "DELE") (length s.messages) a) s
  dele_command _ s = some (send ds (single_argument (codes "DELE")) s)

  -- What follows the lines: the end, or an error behind it.
  abbrev pub closing : Bool → List Reply
  closing false = end_of_list ∷ []
  closing true = end_of_list ∷ retr_failed ∷ []

  unfoldable pub send_message : Message → Store → Session ds → Session ds
  send_message m st s = elim (raw m st) [
    | none ↦ send ds retr_failed s
    | some bytes ↦
        let (lines, failed) = scan_lines bytes in
        send_all ds (map (λ l. message_line (stuff_line l)) lines ++ closing failed) s
  ]

  unfoldable pub send_message_top : Message → ℕ → Store → Session ds → Session ds
  send_message_top m count st s = elim (raw m st) [
    | none ↦ send ds retr_failed s
    | some bytes ↦
        let (lines, failed) = scan_lines bytes in
        let (sent, whole) = top_lines false count lines in
        send_all ds (map message_line sent ++ closing (if whole then failed else false)) s
  ]

  unfoldable pub retr_number : Number → World ds → Option (Session ds)
  retr_number (wrong r) w = some (send ds r w.session)
  retr_number (number n) w = elim (get_elem? w.session.messages (n - 1)) [
    | none ↦ none
    | some m ↦ some (send_message m w.store (send ds (bytes_follow (size m w.store)) w.session))
  ]

  unfoldable pub retr_command : List Bytes → World ds → Option (Session ds)
  unfolding retr_number
  retr_command (a ∷ []) w =
      retr_number (command_number (codes "RETR") (length w.session.messages) a) w
  retr_command _ w = some (send ds (single_argument (codes "RETR")) w.session)

  abbrev pub top_from : Option ℤ → ℕ → World ds → Option (Session ds)
  top_from none n w = some (send ds (not_integer (codes "TOP")) w.session)
  top_from (some (negsuc k)) n w = some (send ds top_negative w.session)
  top_from (some (pos count)) n w = elim (get_elem? w.session.messages (n - 1)) [
    | none ↦ none
    | some m ↦ some (send_message_top m count w.store (send ds top_follows w.session))
  ]

  unfoldable pub top_number : Number → Bytes → World ds → Option (Session ds)
  top_number (wrong r) lines w = some (send ds r w.session)
  top_number (number n) lines w = top_from (parse_int32 lines) n w

  unfoldable pub top_command : List Bytes → World ds → Option (Session ds)
  unfolding top_number
  top_command (a ∷ b ∷ []) w =
      top_number
        (check_number (length w.session.messages) (not_integer (codes "TOP")) top_not_positive
          top_too_big a)
        b w
  top_command _ w = some (send ds top_arguments w.session)

  abbrev pub with_session : World ds → Option (Session ds) → Option (World ds)
  with_session w none = none
  with_session w (some s) = some (record w { session = s })

  unfoldable pub quit_command : World ds → Option (World ds)
  quit_command w =
      let s = send ds process_deletes_ok w.session in
      elim (process_deletes ds s.messages s.retain w.store) [
        | none ↦ none
        | some st ↦ some (record { store = st; session = enter_state ds quit_state s })
      ]

  unfoldable pub transaction_handler : Command → Bytes → List Bytes → World ds → Option (World ds)
  transaction_handler stat name args w = stat_command args w
  transaction_handler list name args w = with_session w (
      list_command name (λ n m. number_size n (size m w.store))
        (λ n m. item_size n (size m w.store)) args w.session)
  transaction_handler uidl name args w = with_session w (
      list_command name (λ n m. number_id n (id m w.store)) (λ n m. item_id n (id m w.store)) args
        w.session)
  transaction_handler dele name args w = with_session w (dele_command args w.session)
  transaction_handler retr name args w = with_session w (retr_command args w)
  transaction_handler top name args w = with_session w (top_command args w)
  transaction_handler quit name args w = quit_command w
  transaction_handler noop name args w = some (record w { session = send ds noop_ok w.session })
  transaction_handler rset name args w =
      some (record w { session = send ds reset_ok (retain_all ds w.session) })
  transaction_handler _ name args w = some (record w { session = oo_seq ds name w.session })
