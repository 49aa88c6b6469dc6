-- ===== src/Socket.antt =====
-- rest/socketv1_controller.go: the listener that a websocket registers with the hub, and its queue.
-- The reads and writes of the websocket itself are left out.
pub mod Closing
pub mod Writer
pub mod Order
use inbucket.Common.{
  ℕ, zero, suc, Bool, true, false, List, [], ◌∷◌, ◌++◌, not, ◌&&◌, ltb, if◌then◌else◌, is_nil,
  length, Bytes, equal,
}
use inbucket.Hub.{HubMessage, Op, add_op, remove_op}

-- The channel is the messages that wait in it, and whether it is closed. The listener's identity,
-- which the hub's map has as its key, is an argument where it matters.
pub record MsgListener : Type 0 where
  pub mailbox : Bytes
  pub queue : List HubMessage
  pub closed : Bool

-- The capacity of the channel.
abbrev pub capacity : ℕ
capacity = 100

-- `newMsgListener`, and the operation that it queues in the hub.
unfoldable pub new_msg_listener : ℕ → Bytes → List Op × MsgListener
new_msg_listener l mailbox =
    (add_op l ∷ [], record { mailbox = mailbox; queue = []; closed = false })

-- A call of `Receive` returns, waits for room in the channel, or panics on a closed one.
pub data Received : Type 0 where
  returned : MsgListener → Received
  blocked panicked : Received

-- Whether the listener monitors the mailbox of a message.
abbrev pub monitors : Bytes → HubMessage → Bool
monitors mailbox msg = not (not (is_nil mailbox) && not (equal mailbox msg.mailbox))

unfoldable pub receive : HubMessage → MsgListener → Received
receive msg ml =
    if not (monitors ml.mailbox msg)
    then returned ml
    else if ml.closed
    then panicked
    else if ltb (length ml.queue) capacity
    then returned (record ml { queue = ml.queue ++ msg ∷ [] })
    else blocked

unfoldable pub receive_all : List HubMessage → MsgListener → Received
receive_all [] ml = returned ml
receive_all (m ∷ ms) ml = elim (receive m ml) [
  | returned ml' ↦ receive_all ms ml'
  | blocked ↦ blocked
  | panicked ↦ panicked
]

-- `Close`, and the operations that it queues in the hub: the `select` takes a waiting message, or
-- the zero value of a closed channel, for a sign that the listener is closed.
unfoldable pub close : ℕ → MsgListener → List Op × MsgListener
close l ml = elim ml.queue [
  | m ∷ ms ↦ ([], record ml { queue = ms })
  | [] ↦ if ml.closed then ([], ml) else (remove_op l ∷ [], record ml { closed = true })
]

-- So many calls of `Close`, one after the other.
unfoldable pub close_all : ℕ → ℕ → MsgListener → List Op × MsgListener
close_all l zero ml = ([], ml)
close_all l (suc n) ml =
    let (ops, ml') = close l ml in let (more, ml'') = close_all l n ml' in (ops ++ more, ml'')
