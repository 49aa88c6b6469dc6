-- ===== src/Socket/Closing.antt =====
-- When a websocket's listener leaves the hub.
use inbucket.Common.{
  ℕ, zero, suc, ◌+◌, ◌≤◌, ◌≡◌, refl, ap, ◌∙◌, arith, true, false, List, [], ◌∷◌, ◌++◌, ltb,
  if◌then◌else◌, length, length-append, Bytes, Bool-cases, inl, inr,
}
use mathlib.Core.List.{append_assoc, append-nil}
use inbucket.Hub.{HubMessage, remove_op}
use inbucket.Socket.{
  MsgListener, new_msg_listener, returned, monitors, receive, receive_all, close, close_all,
}

-- The messages of the mailbox that a listener monitors; the empty name is that of all.
abbrev pub monitored : Bytes → List HubMessage → List HubMessage
monitored mailbox [] = []
monitored mailbox (m ∷ ms) =
    let rest = monitored mailbox ms in if monitors mailbox m then m ∷ rest else rest

abbrev with_queue : Bytes → List HubMessage → MsgListener
with_queue mailbox q = record { mailbox = mailbox; queue = q; closed = false }

receive-monitored :
    (mailbox : Bytes) (m : HubMessage) (q : List HubMessage)
    → monitors mailbox m ≡ true
    → length q + 1 ≤ 100
    → receive m (with_queue mailbox q) ≡ returned (with_queue mailbox (q ++ m ∷ []))
unfolding receive
receive-monitored mailbox m q b h = ground arith

receive-unmonitored :
    (mailbox : Bytes) (m : HubMessage) (q : List HubMessage)
    → monitors mailbox m ≡ false
    → receive m (with_queue mailbox q) ≡ returned (with_queue mailbox q)
unfolding receive
receive-unmonitored mailbox m q b = ground arith

receive_all-monitored :
    (mailbox : Bytes) (ms q : List HubMessage)
    → length q + length (monitored mailbox ms) ≤ 100
    → receive_all ms (with_queue mailbox q)
      ≡ returned (with_queue mailbox (q ++ monitored mailbox ms))
unfolding receive_all
receive_all-monitored mailbox [] q h = rw (append-nil q) refl
receive_all-monitored mailbox (m ∷ ms) q h = elim (Bool-cases (monitors mailbox m)) [
  | inl b ↦
      let room : length q + 1 ≤ 100 = ground arith in
      let fits : length (q ++ m ∷ []) + length (monitored mailbox ms) ≤ 100 =
        ground (arith, length-append q (m ∷ [])) in
      rw (receive-monitored mailbox m q b room, receive_all)
        (rw b (
          receive_all-monitored mailbox ms (q ++ m ∷ []) fits
          ∙ ap (λ r. returned (with_queue mailbox r))
              (append_assoc q (m ∷ []) (monitored mailbox ms))))
  | inr b ↦
      rw (receive-unmonitored mailbox m q b, receive_all)
        (rw b (receive_all-monitored mailbox ms q (ground arith)))
]

close_all-closed :
    (l n : ℕ) (mailbox : Bytes)
    → (close_all l n (record { mailbox = mailbox; queue = []; closed = true })).0 ≡ []
unfolding close_all close
close_all-closed l zero mailbox = refl
close_all-closed l (suc n) mailbox = close_all-closed l n mailbox

close_all-queue :
    (l n : ℕ) (mailbox : Bytes) (q : List HubMessage)
    → (close_all l n (with_queue mailbox q)).0 ≡ (if ltb (length q) n then remove_op l ∷ [] else [])
unfolding close_all close
close_all-queue l zero mailbox q = ground arith
close_all-queue l (suc n) mailbox [] = ground (arith, close_all-closed l n mailbox)
close_all-queue l (suc n) mailbox (m ∷ q) = ground (arith, close_all-queue l n mailbox q)

-- Behind any messages, of which at most 100 are of the mailbox monitored, the calls of `Receive`
-- return with those waiting, in order; so many calls of `Close` then unregister the listener,
-- once, if they are more than the messages waiting, and do not otherwise.
pub close_all-receive_all :
    (l n : ℕ) (mailbox : Bytes) (ms : List HubMessage)
    → length (monitored mailbox ms) ≤ 100
    → (ml : MsgListener) × (receive_all ms (new_msg_listener l mailbox).1 ≡ returned ml)
      × (ml.queue ≡ monitored mailbox ms)
      × ((close_all l n ml).0
          ≡ (if ltb (length (monitored mailbox ms)) n then remove_op l ∷ [] else []))
unfolding new_msg_listener
close_all-receive_all l n mailbox ms h =
    let waiting = monitored mailbox ms in
    (
      with_queue mailbox waiting,
      receive_all-monitored mailbox ms [] (omega arith),
      refl,
      close_all-queue l n mailbox waiting,
    )
