-- ===== src/Hub.antt =====
-- msghub/hub.go: the history of messages and the listeners. The operations are the functions that
-- the queue hands to the hub's goroutine, one after the other, until the context is done. What its
-- senders meet, a full queue or a closed one, is part of Daemon.
pub mod History
pub mod Listeners
use inbucket.Common.{
  ℕ, ◌+◌, Bool, true, false, Option, none, some, List, [], ◌∷◌, ◌++◌, ◌==◌, if◌then◌else◌,
  replicate, drop, Bytes,
}

-- The header of a message, as the hub relays it.
pub record HubMessage : Type 0 where
  pub mailbox : Bytes
  pub id : Bytes
  pub from : Bytes
  pub to : List Bytes
  pub subject : Bytes
  pub date : ℕ
  pub size : ℕ

-- How a call of `Receive` ends.
pub data Receipt : Type 0 where
  returns_nil returns_error panics : Receipt

-- A ring is the list of its values from the current one on; the ring of no elements is nil. A
-- listener is its identity, and `listeners` the keys of the map in the order in which a loop over
-- it meets them. `received` holds the calls of `Receive`, the latest first, and `answers` how each
-- call to come ends; all return nil behind its end. A call that waits for room, as that of a
-- websocket may, ends later, and the hub takes no operation before.
pub record Hub : Type 0 where
  pub history : List (Option HubMessage)
  pub listeners : List ℕ
  pub received : List (ℕ × HubMessage)
  pub answers : List Receipt
  pub is_open : Bool

unfoldable pub new : ℕ → List Receipt → Hub
new history_len answers = record {
  history = replicate history_len none;
  listeners = [];
  received = [];
  answers = answers;
  is_open = true;
}

abbrev pub next_receipt : List Receipt → Receipt
next_receipt [] = returns_nil
next_receipt (a ∷ answers) = a

abbrev pub taken : ℕ → HubMessage → Hub → Hub
taken l msg h = record h { received = (l, msg) ∷ h.received; answers = drop 1 h.answers }

-- `l.Receive(msg)`: whether it returns an error; none is a panic.
unfoldable pub receive : ℕ → HubMessage → Hub → Option (Bool × Hub)
receive l msg h = elim (next_receipt h.answers) [
  | returns_nil ↦ some (false, taken l msg h)
  | returns_error ↦ some (true, taken l msg h)
  | panics ↦ none
]

abbrev pub member : ℕ → List ℕ → Bool
member l [] = false
member l (k ∷ ks) = let rest = member l ks in if k == l then true else rest

-- `delete(h.listeners, l)`
unfoldable pub remove : ℕ → List ℕ → List ℕ
remove l [] = []
remove l (k ∷ ks) = let rest = remove l ks in if k == l then rest else k ∷ rest

-- The loop over the listeners, over those that are left of it.
unfoldable pub deliver : HubMessage → List ℕ → Hub → Option Hub
deliver msg [] h = some h
deliver msg (l ∷ ls) h = elim (receive l msg h) [
  | none ↦ none
  | some (failed, h') ↦
      deliver msg ls (if failed then record h' { listeners = remove l h'.listeners } else h')
]

-- `Value = msg` and `Next()`; `none` is the panic on the nil ring.
unfoldable pub write_history :
    HubMessage → List (Option HubMessage) → Option (List (Option HubMessage))
write_history msg [] = none
write_history msg (v ∷ vs) = some (vs ++ some msg ∷ [])

-- The operation that `Dispatch` queues.
unfoldable pub dispatch : HubMessage → Hub → Option Hub
unfolding deliver
dispatch msg h = elim (write_history msg h.history) [
  | none ↦ none
  | some ring ↦ deliver msg h.listeners (record h { history = ring })
]

-- The values of the ring that are not nil, in the order of `Do`.
unfoldable pub playback : List (Option HubMessage) → List HubMessage
playback [] = []
playback (none ∷ vs) = playback vs
playback (some m ∷ vs) = m ∷ playback vs

-- The errors of the playback are not looked at.
unfoldable pub replay : ℕ → List HubMessage → Hub → Option Hub
replay l [] h = some h
replay l (m ∷ ms) h = elim (receive l m h) [ none ↦ none | some (failed, h') ↦ replay l ms h' ]

-- The operation that `AddListener` queues.
unfoldable pub add_listener : ℕ → Hub → Option Hub
unfolding replay
add_listener l h = elim (replay l (playback h.history) h) [
  | none ↦ none
  | some h' ↦ some (record h' {
    listeners = if member l h'.listeners then h'.listeners else h'.listeners ++ l ∷ [];
  })
]

-- The operation that `RemoveListener` queues.
unfoldable pub remove_listener : ℕ → Hub → Hub
remove_listener l h = record h { listeners = remove l h.listeners }

pub data Op : Type 0 where
  dispatch_op : HubMessage → Op
  add_op remove_op : ℕ → Op
  sync_op : Op

abbrev pub apply_op : Op → Hub → Option Hub
apply_op (dispatch_op m) h = dispatch m h
apply_op (add_op l) h = add_listener l h
apply_op (remove_op l) h = some (remove_listener l h)
apply_op sync_op h = some h

-- What the select of the goroutine takes.
pub data Input : Type 0 where
  takes : Op → Input
  context_done : Input

-- The goroutine's loop, which ends with the close of the queue; `none` is a panic.
unfoldable pub run : List Input → Hub → Option Hub
run [] h = some h
run (takes op ∷ inputs) h = elim (apply_op op h) [ none ↦ none | some h' ↦ run inputs h' ]
run (context_done ∷ inputs) h = some (record h { is_open = false })
