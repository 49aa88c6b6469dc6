-- ===== src/Socket/Order.antt =====
-- What a websocket is sent.
use inbucket.Common.{
  ℕ, ◌≡◌, refl, sym, ap, ◌∙◌, arith, Bool, true, false, ◌&&◌, List, [], ◌∷◌, ◌++◌, map,
  if◌then◌else◌, Bytes, Bool-cases, ◌⊎◌, ltb, length, inl, inr,
}
use mathlib.Core.Path.{subst}
use mathlib.Core.List.{append_assoc, append-nil}
use inbucket.Hub.{HubMessage}
use inbucket.Rest.{JsonMessageHeader}
use inbucket.Socket.{MsgListener, returned, blocked, monitors, receive, capacity, new_msg_listener}
use inbucket.Socket.Closing.{monitored}
use inbucket.Socket.Writer.{
  SocketEvent, arrives, takes, ticks, read_fails, Frame, header, ping, close_frame, Socket,
  json_header, close_socket, write_frame, take_message, socket_event, socket_run, open_socket,
}

-- A connection that holds: each write succeeds, and the client is still there.
abbrev pub holds : SocketEvent → Bool
holds (arrives m) = true
holds (takes ok) = ok
holds (ticks ok) = ok
holds read_fails = false

abbrev pub all_hold : List SocketEvent → Bool
all_hold [] = true
all_hold (e ∷ es) = let rest = all_hold es in holds e && rest

-- The messages that arrive, and the headers that are sent.
abbrev pub arrivals : List SocketEvent → List HubMessage
arrivals [] = []
arrivals (arrives m ∷ es) = m ∷ arrivals es
arrivals (takes ok ∷ es) = arrivals es
arrivals (ticks ok ∷ es) = arrivals es
arrivals (read_fails ∷ es) = arrivals es

abbrev pub headers : List Frame → List JsonMessageHeader
headers [] = []
headers (header h ∷ fs) = h ∷ headers fs
headers (ping ∷ fs) = headers fs
headers (close_frame ∷ fs) = headers fs

headers-append : (fs gs : List Frame) → headers (fs ++ gs) ≡ headers fs ++ headers gs
headers-append [] gs = refl
headers-append (header h ∷ fs) gs = ap (◌∷◌ h) (headers-append fs gs)
headers-append (ping ∷ fs) gs = headers-append fs gs
headers-append (close_frame ∷ fs) gs = headers-append fs gs

map-append :
    (ms ns : List HubMessage)
    → map json_header (ms ++ ns) ≡ map json_header ms ++ map json_header ns
map-append [] ns = refl
map-append (m ∷ ms) ns = ap (◌∷◌ (json_header m)) (map-append ms ns)

-- A socket that is at work, for a mailbox.
record Works (mailbox : Bytes) (sk : Socket) : Type 0 where
  mine : sk.listener.mailbox ≡ mailbox
  unclosed : sk.listener.closed ≡ false
  writing : sk.writing ≡ true

-- What is sent, and then what waits.
abbrev passed : Socket → List JsonMessageHeader
passed sk = headers sk.sent ++ map json_header sk.listener.queue

-- A message that is monitored takes its place behind those passed.
abbrev one_more : Bytes → HubMessage → List HubMessage
one_more mailbox m = if monitors mailbox m then m ∷ [] else []

not_both : (b : Bool) → b ≡ true → b ≡ false → ⊥
not_both b e f = ground arith

receive-open :
    (m : HubMessage) (ml : MsgListener)
    → ml.closed ≡ false
    → (receive m ml ≡ returned (record ml { queue = ml.queue ++ one_more ml.mailbox m }))
      ⊎ (receive m ml ≡ blocked)
unfolding receive
receive-open m ml e = elim (Bool-cases (monitors ml.mailbox m)) [
  | inr n ↦ inl (ground (arith, n, append-nil ml.queue))
  | inl y ↦ elim (Bool-cases (ltb (length ml.queue) capacity)) [
    | inl b ↦ inl (ground (arith, y, e, b))
    | inr b ↦ inr (ground (arith, y, e, b))
  ]
]

module _ (l : ℕ) (mailbox : Bytes) where
  -- What an event adds to the headers passed.
  abbrev gained : SocketEvent → List JsonMessageHeader
  gained (arrives m) = map json_header (one_more mailbox m)
  gained _ = []

  record Passes (e : SocketEvent) (sk : Socket) : Type 0 where
    works : Works mailbox (socket_event l e sk)
    adds : passed (socket_event l e sk) ≡ passed sk ++ gained e

  arrives-returned :
      (m : HubMessage) (sk : Socket)
      → Works mailbox sk
      → sk.hub_stopped ≡ false
      → receive m sk.listener
        ≡ returned
            (record sk.listener { queue = sk.listener.queue ++ one_more sk.listener.mailbox m })
      → Passes (arrives m) sk
  unfolding socket_event
  arrives-returned m sk w n e =
      let ml = record sk.listener { queue = sk.listener.queue ++ one_more sk.listener.mailbox m } in
      let after : socket_event l (arrives m) sk ≡ record sk { listener = ml } =
        ground (arith, n, e) in
      record {
        works =
            subst (Works mailbox) (sym after)
              (record { mine = w.mine; unclosed = w.unclosed; writing = w.writing });
        adds =
            ap passed after
            ∙ ap (◌++◌ (headers sk.sent))
                (map-append sk.listener.queue (one_more sk.listener.mailbox m))
            ∙ sym (
                append_assoc (headers sk.sent) (map json_header sk.listener.queue)
                  (map json_header (one_more sk.listener.mailbox m)))
            ∙ ap (λ b. passed sk ++ map json_header (one_more b m)) w.mine;
      }

  arrives-stopped :
      (m : HubMessage) (sk : Socket)
      → receive m sk.listener ≡ blocked
      → (socket_event l (arrives m) sk).hub_stopped ≡ true
  unfolding socket_event
  arrives-stopped m sk e = ground (arith, e)

  stays :
      (e : SocketEvent) (sk : Socket)
      → sk.hub_stopped ≡ true
      → (socket_event l e sk).hub_stopped ≡ true
  unfolding socket_event take_message write_frame close_socket
  stays (arrives m) sk h = ground (arith, h)
  stays (takes ok) sk h = ground (arith, h)
  stays (ticks ok) sk h = ground (arith, h)
  stays read_fails sk h = ground (arith, h)

  takes-Passes :
      (ok : Bool) (sk : Socket) (q : List HubMessage)
      → sk.listener.queue ≡ q
      → Works mailbox sk
      → ok ≡ true
      → Passes (takes ok) sk
  unfolding socket_event take_message write_frame
  takes-Passes ok sk [] e w h =
      let after : socket_event l (takes ok) sk ≡ sk = ground (arith, e, h, w.writing, w.unclosed) in
      record {
        works = subst (Works mailbox) (sym after) w;
        adds = ap passed after ∙ sym (append-nil (passed sk));
      }
  takes-Passes ok sk (m ∷ ms) e w h =
      let left = record sk.listener { queue = ms } in
      let after : socket_event l (takes ok) sk
          ≡ record sk { listener = left; sent = sk.sent ++ header (json_header m) ∷ [] } =
        ground (arith, e, h, w.writing) in
      record {
        works =
            subst (Works mailbox) (sym after)
              (record { mine = w.mine; unclosed = w.unclosed; writing = w.writing });
        adds =
            ap passed after
            ∙ ap (λ hs. hs ++ map json_header ms)
                (headers-append sk.sent (header (json_header m) ∷ []))
            ∙ append_assoc (headers sk.sent) (json_header m ∷ []) (map json_header ms)
            ∙ ap (λ q. headers sk.sent ++ map json_header q) (sym e)
            ∙ sym (append-nil (passed sk));
      }

  ticks-Passes : (ok : Bool) (sk : Socket) → Works mailbox sk → ok ≡ true → Passes (ticks ok) sk
  unfolding socket_event write_frame
  ticks-Passes ok sk w h =
      let after : socket_event l (ticks ok) sk ≡ record sk { sent = sk.sent ++ ping ∷ [] } =
        ground (arith, h, w.writing) in
      record {
        works =
            subst (Works mailbox) (sym after)
              (record { mine = w.mine; unclosed = w.unclosed; writing = w.writing });
        adds =
            ap passed after
            ∙ ap (λ hs. hs ++ map json_header sk.listener.queue)
                (headers-append sk.sent (ping ∷ []) ∙ append-nil (headers sk.sent))
            ∙ sym (append-nil (passed sk));
      }

  event-Passes :
      (e : SocketEvent) (sk : Socket)
      → Works mailbox sk
      → holds e ≡ true
      → (socket_event l e sk).hub_stopped ≡ false
      → Passes e sk
  event-Passes (arrives m) sk w h n = elim (Bool-cases sk.hub_stopped) [
    | inl y ↦ absurd (not_both _ (stays (arrives m) sk y) n)
    | inr y ↦ elim (receive-open m sk.listener w.unclosed) [
      | inl e ↦ arrives-returned m sk w y e
      | inr e ↦ absurd (not_both _ (arrives-stopped m sk e) n)
    ]
  ]
  event-Passes (takes ok) sk w h n = takes-Passes ok sk sk.listener.queue refl w h
  event-Passes (ticks ok) sk w h n = ticks-Passes ok sk w h
  event-Passes read_fails sk w h n = absurd (ground arith)

  run-stays :
      (es : List SocketEvent) (sk : Socket)
      → sk.hub_stopped ≡ true
      → (socket_run l es sk).hub_stopped ≡ true
  unfolding socket_run
  run-stays [] sk h = h
  run-stays (e ∷ es) sk h = run-stays es (socket_event l e sk) (stays e sk h)

  gained-arrivals :
      (e : SocketEvent) (es : List SocketEvent)
      → gained e ++ map json_header (monitored mailbox (arrivals es))
        ≡ map json_header (monitored mailbox (arrivals (e ∷ es)))
  gained-arrivals (arrives m) es = ground arith
  gained-arrivals (takes ok) es = refl
  gained-arrivals (ticks ok) es = refl
  gained-arrivals read_fails es = refl

  run-passed :
      (es : List SocketEvent) (sk : Socket)
      → Works mailbox sk
      → all_hold es ≡ true
      → (socket_run l es sk).hub_stopped ≡ false
      → passed (socket_run l es sk) ≡ passed sk ++ map json_header (monitored mailbox (arrivals es))
  unfolding socket_run
  run-passed [] sk w h n = sym (append-nil (passed sk))
  run-passed (e ∷ es) sk w h n = elim (Bool-cases (socket_event l e sk).hub_stopped) [
    | inl y ↦ absurd (not_both _ (run-stays es (socket_event l e sk) y) n)
    | inr y ↦
        let p = event-Passes e sk w (ground arith) y in
        run-passed es (socket_event l e sk) p.works (ground arith) n
        ∙ ap (λ hs. hs ++ map json_header (monitored mailbox (arrivals es))) p.adds
        ∙ append_assoc (passed sk) (gained e) (map json_header (monitored mailbox (arrivals es)))
        ∙ ap (◌++◌ (passed sk)) (gained-arrivals e es)
  ]

  -- While the connection holds and the hub has not had to wait for room in the channel, a websocket
  -- has been sent a header of each message of its mailbox that arrived, in order and once, but for
  -- those that still wait in the channel.
  pub socket_run-monitored :
      (es : List SocketEvent)
      → all_hold es ≡ true
      → (socket_run l es (open_socket l mailbox)).hub_stopped ≡ false
      → let sk = socket_run l es (open_socket l mailbox) in
        headers sk.sent ++ map json_header sk.listener.queue
        ≡ map json_header (monitored mailbox (arrivals es))
  unfolding open_socket new_msg_listener
  socket_run-monitored es h n =
      run-passed es (open_socket l mailbox)
        (record { mine = refl; unclosed = refl; writing = refl }) h n
