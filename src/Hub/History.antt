-- ===== src/Hub/History.antt =====
-- The history of the hub keeps the latest messages.
use inbucket.Common.{
  ◌≡◌, Bool, true, false, all, Option, none, some, List, [], ◌∷◌, ◌++◌, map, length, drop,
}
use inbucket.Hub.{HubMessage, Receipt, panics, Hub, dispatch_op, Input, takes, context_done, run}

abbrev pub is_return : Receipt → Bool
is_return panics = false
is_return _ = true

-- Whether the calls to come all return.
abbrev pub all_return : Hub → Bool
all_return h = all is_return h.answers

-- What a part of an operation keeps: the history, and only a call of `Receive` panics.
Kept : Hub → Option Hub → Type 0
Kept h none = all_return h ≡ false
Kept h (some g) = (g.history ≡ h.history) × (all_return g ≡ false → all_return h ≡ false)

-- The messages dispatched before the context is done, in order.
abbrev pub dispatched : List Input → List HubMessage
dispatched [] = []
dispatched (takes (dispatch_op m) ∷ inputs) = m ∷ dispatched inputs
dispatched (takes _ ∷ inputs) = dispatched inputs
dispatched (context_done ∷ inputs) = []

-- The ring behind the inputs: as many of the latest of its values and the messages as it has
-- places; or a panic of a `Receive`.
Slides : List Input → Hub → Option Hub → Type 0
Slides inputs h none = all_return h ≡ false
Slides inputs h (some g) =
    g.history ≡ drop (length (dispatched inputs)) (h.history ++ map some (dispatched inputs))

-- The loop behind an operation.
abbrev rest : List Input → Option Hub → Option Hub
rest inputs o = elim o [ none ↦ none | some g ↦ run inputs g ]
