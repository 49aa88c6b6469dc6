-- ===== src/Tests/Hub.antt =====
-- The hub at concrete inputs.
use inbucket.Common.{ℕ, ◌≡◌, refl, true, not, ◌&&◌, none, some, List, [], ◌∷◌, ◌++◌, codes}
use inbucket.Hub
use inbucket.Hub.{
  Hub, HubMessage, Op, Input, takes, context_done, returns_error, dispatch_op, add_op, remove_op,
  receive, deliver, write_history, dispatch, replay, add_listener, remove_listener, remove, member,
}
use inbucket.Hub.Listeners.{calls, failing, dispatch-heard}

abbrev message : ℕ → HubMessage
message n = record {
  mailbox = codes "u1";
  id = n ∷ [];
  from = [];
  to = [];
  subject = [];
  date = n;
  size = n;
}

abbrev three : List Input
three =
    takes (dispatch_op (message 1))
    ∷ takes (add_op 7)
    ∷ takes (dispatch_op (message 2))
    ∷ takes (dispatch_op (message 3))
    ∷ context_done
    ∷ []

-- Two listeners, of which the first returns an error.
abbrev listening : Hub
listening = record {
  history = none ∷ [];
  listeners = 7 ∷ 8 ∷ [];
  received = [];
  answers = returns_error ∷ [];
  is_open = true;
}

abbrev heard : Hub
heard = record {
  history = some (message 1) ∷ [];
  listeners = 8 ∷ [];
  received = (8, message 1) ∷ (7, message 1) ∷ [];
  answers = [];
  is_open = true;
}

hears : dispatch (message 1) listening ≡ some heard
unfolding dispatch deliver receive write_history remove
hears = refl

dispatch-heard_example :
    (heard.received ≡ calls (message 1) listening.listeners ++ listening.received)
    × ((k : ℕ)
        → member k heard.listeners ≡ (
            member k listening.listeners
            && not (member k (failing listening.listeners listening.answers))))
dispatch-heard_example = dispatch-heard (message 1) listening heard hears
