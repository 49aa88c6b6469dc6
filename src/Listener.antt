-- ===== src/Listener.antt =====
-- smtpd/listener.go and pop3d/listener.go: the accept loop `serve`, which the two servers share, and
-- `pushMetric`. What `Accept` returns, and whether the context is done then, are inputs.
pub mod Backoff
use inbucket.Common.{
  ℕ, zero, ◌+◌, ◌*◌, Bool, true, false, List, [], ◌∷◌, ◌++◌, ltb, ◌==◌, if◌then◌else◌, length, drop,
  Bytes,
}
use inbucket.Address.Mailbox.{join_string_list}

-- A connection, a temporary error of `net.Error`, or any other error, with the state of the context.
pub data Accept : Type 0 where
  connection : Accept
  temporary : Accept
  permanent : Bool → Accept

-- What the loop does: a session with its identifier, a sleep of milliseconds, the shutdown of the
-- whole program.
pub data Event : Type 0 where
  start_session : ℕ → Event
  sleep : ℕ → Event
  emergency_shutdown : Event

-- The delay behind one more temporary error.
unfoldable pub next_delay : ℕ → ℕ
next_delay delay =
    let doubled = if delay == 0 then 5 else delay * 2 in if ltb 1000 doubled then 1000 else doubled

-- The loop, from a session identifier and a delay; without further input it waits in `Accept`.
unfoldable pub serve : ℕ → ℕ → List Accept → List Event
serve session_id delay [] = []
serve session_id delay (connection ∷ rest) =
    start_session session_id ∷ serve (session_id + 1) 0 rest
serve session_id delay (temporary ∷ rest) =
    sleep (next_delay delay) ∷ serve (session_id + 1) (next_delay delay) rest
serve session_id delay (permanent true ∷ rest) = []
serve session_id delay (permanent false ∷ rest) = emergency_shutdown ∷ []

-- `pushMetric`: the history behind the push, and the text of it.
unfoldable pub push_metric : Bytes → List Bytes → List Bytes × Bytes
push_metric value history =
    let pushed = history ++ value ∷ [] in
    let kept = if ltb 61 (length pushed) then drop 1 pushed else pushed in
    (kept, join_string_list kept)
