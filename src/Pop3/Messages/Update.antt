-- ===== src/Pop3/Messages/Update.antt =====
-- What the commands of TRANSACTION do to the data store and to the marks.
use inbucket.Common.{
  ◌≡◌, ◌≢◌, refl, arith, Bool, true, false, Option, none, some, List, [], ◌∷◌, length, Bytes,
  if◌then◌else◌,
}
use inbucket.DataStore.{DataStore}
use inbucket.Pop3.Command.{Command, quit, stat, list, retr, dele, top, uidl}
use inbucket.Pop3.Messages.{stat_command, quit_command, with_session, transaction_handler}
use inbucket.Pop3.Reply.{process_deletes_ok}
use inbucket.Pop3.Session.{Session, World, quit_state, enter_state, send, process_deletes}
use inbucket.Pop3.Session.Flags.{Inv}

module _ (ds : DataStore) where
  -- The messages whose flag is off, in order.
  abbrev pub marked : List ds.Message → List Bool → List ds.Message
  marked [] flags = []
  marked (m ∷ ms) [] = []
  marked (m ∷ ms) (b ∷ bs) = let rest = marked ms bs in if b then rest else m ∷ rest

  abbrev pub delete_each : List ds.Message → ds.Store → ds.Store
  delete_each [] st = st
  delete_each (m ∷ ms) st = delete_each ms (ds.delete m st).1

  process_deletes-marked :
      (ms : List ds.Message) (flags : List Bool) (st : ds.Store)
      → length flags ≡ length ms
      → process_deletes ds ms flags st ≡ some (delete_each (marked ms flags) st)
  unfolding process_deletes
  process_deletes-marked [] flags st h = refl
  process_deletes-marked (m ∷ ms) [] st h = absurd (omega arith)
  process_deletes-marked (m ∷ ms) (true ∷ flags) st h =
      process_deletes-marked ms flags st (omega arith)
  process_deletes-marked (m ∷ ms) (false ∷ flags) st h =
      process_deletes-marked ms flags (ds.delete m st).1 (omega arith)

  -- QUIT in TRANSACTION deletes each message that is marked, in order and no other, whether the
  -- reply was sent or not, and ends in QUIT.
  pub quit_command-deletes :
      (w : World ds)
      → Inv ds w.session
      → (w' : World ds) × (quit_command ds w ≡ some w')
        × (w'.store ≡ delete_each (marked w.session.messages w.session.retain) w.store)
        × (w'.session.state ≡ quit_state)
  unfolding quit_command send
  quit_command-deletes w i =
      let e = process_deletes-marked w.session.messages w.session.retain w.store i.flagged in
      (
        record {
          store = delete_each (marked w.session.messages w.session.retain) w.store;
          session = enter_state ds quit_state (send ds process_deletes_ok w.session);
        },
        ground (arith, e),
        refl,
        refl,
      )

  abbrev pub SameStore : World ds → Option (World ds) → Type 0
  SameStore w none = Unit
  SameStore w (some v) = v.store ≡ w.store

  with_session-SameStore :
      (w : World ds) (o : Option (Session ds)) → SameStore w (with_session ds w o)
  with_session-SameStore w none = tt
  with_session-SameStore w (some s) = refl

  stat_command-SameStore : (args : List Bytes) (w : World ds) → SameStore w (stat_command ds args w)
  unfolding stat_command
  stat_command-SameStore [] w = ground arith
  stat_command-SameStore (a ∷ args) w = refl

  -- No command of TRANSACTION but QUIT changes the data store.
  pub transaction_handler-store :
      (cmd : Command) (name : Bytes) (args : List Bytes) (w : World ds)
      → cmd ≢ quit
      → SameStore w (transaction_handler ds cmd name args w)
  unfolding transaction_handler
  transaction_handler-store stat name args w n = stat_command-SameStore args w
  transaction_handler-store list name args w n = with_session-SameStore w _
  transaction_handler-store uidl name args w n = with_session-SameStore w _
  transaction_handler-store dele name args w n = with_session-SameStore w _
  transaction_handler-store retr name args w n = with_session-SameStore w _
  transaction_handler-store top name args w n = with_session-SameStore w _
  transaction_handler-store quit name args w n = absurd (n refl)
  transaction_handler-store _ name args w n = refl
