-- ===== src/Pop3/Messages/Safe.antt =====
-- Every command of TRANSACTION returns, with the invariant kept.
use inbucket.Common.{List, [], ◌∷◌, Bytes}
use inbucket.DataStore.{DataStore}
use inbucket.Pop3.Command.{Command, quit, stat, list, retr, dele, rset, top, uidl}
use inbucket.Pop3.Reply.{reset_ok, process_deletes_ok}
use inbucket.Pop3.Messages.{
  stat_command, dele_command, retr_command, top_command, quit_command, transaction_handler,
}
use inbucket.Pop3.Messages.Invariant.{
  Kept, KeptWorld, check_number-InRange, command_number-InRange, stat_totals-some,
  list_command-Kept, dele_number-Kept, retr_number-Kept, top_number-Kept, with_session-Kept,
}
use inbucket.Pop3.Session.{Session, World, send, oo_seq}
use inbucket.Pop3.Session.Flags.{Inv, send-Inv, retain_all-Inv, process_deletes-some}

module _ (ds : DataStore) where
  stat_command-Kept :
      (args : List Bytes) (w : World ds) → Inv ds w.session → KeptWorld ds (stat_command ds args w)
  unfolding stat_command
  stat_command-Kept (a ∷ args) w i = send-Inv ds _ w.session i
  stat_command-Kept [] w i =
      let (total, e) = stat_totals-some ds w.store w.session.messages w.session.retain i.flagged in
      rw (e, stat_command) (send-Inv ds _ w.session i)

  dele_command-Kept :
      (args : List Bytes) (s : Session ds) → Inv ds s → Kept ds (dele_command ds args s)
  unfolding dele_command
  dele_command-Kept (a ∷ []) s i = dele_number-Kept ds _ s i (command_number-InRange _ _ a)
  dele_command-Kept [] s i = send-Inv ds _ s i
  dele_command-Kept (a ∷ b ∷ args) s i = send-Inv ds _ s i

  retr_command-Kept :
      (args : List Bytes) (w : World ds) → Inv ds w.session → Kept ds (retr_command ds args w)
  unfolding retr_command
  retr_command-Kept (a ∷ []) w i = retr_number-Kept ds _ w i (command_number-InRange _ _ a)
  retr_command-Kept [] w i = send-Inv ds _ w.session i
  retr_command-Kept (a ∷ b ∷ args) w i = send-Inv ds _ w.session i

  top_command-Kept :
      (args : List Bytes) (w : World ds) → Inv ds w.session → Kept ds (top_command ds args w)
  unfolding top_command
  top_command-Kept (a ∷ b ∷ []) w i = top_number-Kept ds _ b w i (check_number-InRange _ _ _ _ a)
  top_command-Kept [] w i = send-Inv ds _ w.session i
  top_command-Kept (a ∷ []) w i = send-Inv ds _ w.session i
  top_command-Kept (a ∷ b ∷ c ∷ args) w i = send-Inv ds _ w.session i

  quit_command-Kept : (w : World ds) → Inv ds w.session → KeptWorld ds (quit_command ds w)
  unfolding quit_command
  quit_command-Kept w i =
      let s = send ds process_deletes_ok w.session in
      let j = send-Inv ds process_deletes_ok w.session i in
      let (st, e) = process_deletes-some ds s.messages s.retain w.store j.flagged in
      rw (e, quit_command) (record { flagged = j.flagged; counted = j.counted })

  -- A command of TRANSACTION, with any arguments, returns: none indexes a message or a flag out of
  -- range, and there is still a flag for each message and the right count of those retained.
  pub transaction_handler-Kept :
      (cmd : Command) (name : Bytes) (args : List Bytes) (w : World ds)
      → Inv ds w.session
      → KeptWorld ds (transaction_handler ds cmd name args w)
  unfolding transaction_handler oo_seq
  transaction_handler-Kept stat name args w i = stat_command-Kept args w i
  transaction_handler-Kept list name args w i =
      with_session-Kept ds w _ (list_command-Kept ds name _ _ args w.session i)
  transaction_handler-Kept uidl name args w i =
      with_session-Kept ds w _ (list_command-Kept ds name _ _ args w.session i)
  transaction_handler-Kept dele name args w i =
      with_session-Kept ds w _ (dele_command-Kept args w.session i)
  transaction_handler-Kept retr name args w i =
      with_session-Kept ds w _ (retr_command-Kept args w i)
  transaction_handler-Kept top name args w i = with_session-Kept ds w _ (top_command-Kept args w i)
  transaction_handler-Kept quit name args w i = quit_command-Kept w i
  transaction_handler-Kept rset name args w i = send-Inv ds reset_ok _ (retain_all-Inv ds w.session)
  transaction_handler-Kept _ name args w i = send-Inv ds _ w.session i
