-- ===== src/Socket/Writer.antt =====
-- `WSReader` and `WSWriter` of rest/socketv1_controller.go, and the monitors that start them. What
-- happens to a listener is a sequence of events, as its select and the hub take them.
use inbucket.Common.{
  ℕ, Bool, true, false, Option, none, some, List, [], ◌∷◌, ◌++◌, if◌then◌else◌, Unicode, Bytes,
}
use inbucket.Address.Mailbox.{named, refused, parse_mailbox_name}
use inbucket.Hub.{HubMessage, Op}
use inbucket.Rest.{JsonMessageHeader}
use inbucket.Socket.{MsgListener, new_msg_listener, returned, blocked, panicked, receive, close}

-- A message that the hub delivers, a turn of the writer with whether its write succeeds, or an error of
-- the reader, which discards what it reads before.
pub data SocketEvent : Type 0 where
  arrives : HubMessage → SocketEvent
  takes : Bool → SocketEvent
  ticks : Bool → SocketEvent
  read_fails : SocketEvent

pub data Frame : Type 0 where
  header : JsonMessageHeader → Frame
  ping close_frame : Frame

-- A websocket: what is written to it, the operations that are queued in the hub, whether the two
-- loops still run, and whether the hub waits in `Receive` or panicked there.
pub record Socket : Type 0 where
  pub listener : MsgListener
  pub sent : List Frame
  pub ops : List Op
  pub reading : Bool
  pub writing : Bool
  pub hub_stopped : Bool

abbrev pub json_header : HubMessage → JsonMessageHeader
json_header msg = record {
  mailbox = msg.mailbox;
  id = msg.id;
  from = msg.from;
  to = msg.to;
  subject = msg.subject;
  date = msg.date;
  size = msg.size;
}

module _ (l : ℕ) where
  -- The deferred `Close`, behind which a loop has ended.
  unfoldable pub close_socket : Socket → Socket
  close_socket sk =
      let (ops, ml) = close l sk.listener in record sk { listener = ml; ops = sk.ops ++ ops }

  -- A write of the writer, which ends at one that fails.
  unfoldable pub write_frame : Bool → Frame → Socket → Socket
  unfolding close_socket
  write_frame ok frame sk =
      if ok
      then record sk { sent = sk.sent ++ frame ∷ [] }
      else close_socket (record sk { writing = false })

  -- The case of the channel in the select of `WSWriter`; an empty one that is open is not taken.
  unfoldable pub take_message : Bool → Socket → Socket
  unfolding close_socket write_frame
  take_message ok sk = elim sk.listener.queue [
    | m ∷ ms ↦
        write_frame ok (header (json_header m))
          (record sk { listener = record sk.listener { queue = ms } })
    | [] ↦
        if sk.listener.closed
        then close_socket (record sk {
          writing = false;
          sent = if ok then sk.sent ++ close_frame ∷ [] else sk.sent;
        })
        else sk
  ]

  unfoldable pub socket_event : SocketEvent → Socket → Socket
  unfolding close_socket write_frame take_message
  socket_event (arrives m) sk = if sk.hub_stopped then sk else elim (receive m sk.listener) [
    | returned ml ↦ record sk { listener = ml }
    | blocked ↦ record sk { hub_stopped = true }
    | panicked ↦ record sk { hub_stopped = true }
  ]
  socket_event (takes ok) sk = if sk.writing then take_message ok sk else sk
  socket_event (ticks ok) sk = if sk.writing then write_frame ok ping sk else sk
  socket_event read_fails sk =
      if sk.reading then close_socket (record sk { reading = false }) else sk

  unfoldable pub socket_run : List SocketEvent → Socket → Socket
  unfolding socket_event
  socket_run [] sk = sk
  socket_run (e ∷ es) sk = socket_run es (socket_event e sk)

  -- The socket of a new listener.
  unfoldable pub open_socket : Bytes → Socket
  open_socket mailbox =
      let (ops, ml) = new_msg_listener l mailbox in
      record {
        listener = ml;
        sent = [];
        ops = ops;
        reading = true;
        writing = true;
        hub_stopped = false;
      }

  -- `MonitorAllMessagesV1`, where the connection can be upgraded or not; `none` is an error.
  unfoldable pub monitor_all_messages : Bool → List SocketEvent → Option Socket
  unfolding socket_run open_socket
  monitor_all_messages upgraded es =
      if upgraded then some (socket_run es (open_socket [])) else none

  -- `MonitorMailboxMessagesV1`
  unfoldable pub monitor_mailbox_messages :
      Unicode → Bytes → Bool → List SocketEvent → Option Socket
  unfolding socket_run open_socket
  monitor_mailbox_messages unicode name upgraded es = elim (parse_mailbox_name unicode name) [
    | refused e ↦ none
    | named mailbox ↦ if upgraded then some (socket_run es (open_socket mailbox)) else none
  ]
