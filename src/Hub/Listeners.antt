-- ===== src/Hub/Listeners.antt =====
-- Who receives a message, and who is kept.
use inbucket.Common.{
  ℕ, ◌≡◌, refl, arith, Bool, true, false, not, ◌&&◌, Option, none, some, List, [], ◌∷◌, ◌++◌, ◌==◌,
  if◌then◌else◌,
}
use mathlib.Core.List.{append_assoc}
use inbucket.Hub.{
  HubMessage, Receipt, returns_error, Hub, taken, receive, member, remove, deliver, write_history,
  dispatch,
}

-- The calls of a loop over the listeners, the latest first.
abbrev pub calls : HubMessage → List ℕ → List (ℕ × HubMessage)
calls m [] = []
calls m (l ∷ ls) = calls m ls ++ (l, m) ∷ []

deliver-received :
    (m : HubMessage) (ls : List ℕ) (h h' : Hub)
    → deliver m ls h ≡ some h'
    → h'.received ≡ calls m ls ++ h.received
unfolding deliver receive
deliver-received m [] h h' e = ground arith
deliver-received m (l ∷ ls) h h' e = ground (
  arith,
  deliver-received m ls (taken l m h) h',
  deliver-received m ls (record (taken l m h) { listeners = remove l h.listeners }) h',
  append_assoc (calls m ls) ((l, m) ∷ []) h.received,
)

-- A message that is dispatched is received once by each listener, and by nobody else.
pub dispatch-received :
    (m : HubMessage) (h h' : Hub)
    → dispatch m h ≡ some h'
    → h'.received ≡ calls m h.listeners ++ h.received
unfolding dispatch write_history
dispatch-received m h h' e = go h.history e
  where
    go :
        (ring : List (Option HubMessage))
        → (elim (write_history m ring) [
          | none ↦ none
          | some r ↦ deliver m h.listeners (record h { history = r })
        ])
          ≡ some h'
        → h'.received ≡ calls m h.listeners ++ h.received
    go [] e = cc
    go (v ∷ vs) e =
        let g = record h { history = vs ++ some m ∷ [] } in deliver-received m h.listeners g h' e

-- The listeners whose call returns an error.
abbrev is_error : Receipt → Bool
is_error returns_error = true
is_error _ = false

abbrev pub failing : List ℕ → List Receipt → List ℕ
failing [] answers = []
failing (l ∷ ls) [] = []
failing (l ∷ ls) (a ∷ answers) =
    let rest = failing ls answers in if is_error a then l ∷ rest else rest

member-remove : (k l : ℕ) (ls : List ℕ) → member k (remove l ls) ≡ (member k ls && not (k == l))
unfolding remove
member-remove k l [] = refl
member-remove k l (x ∷ xs) = ground (arith, member-remove k l xs)

failing-nil : (ls : List ℕ) → failing ls [] ≡ []
failing-nil [] = refl
failing-nil (l ∷ ls) = refl

deliver-member :
    (k : ℕ) (m : HubMessage) (ls : List ℕ) (h h' : Hub)
    → deliver m ls h ≡ some h'
    → member k h'.listeners ≡ (member k h.listeners && not (member k (failing ls h.answers)))
unfolding deliver receive
deliver-member k m [] h h' e = ground arith
deliver-member k m (l ∷ ls) h h' e =
    let calm = taken l m h in
    let cut = record calm { listeners = remove l h.listeners } in
    ground (
      arith,
      deliver-member k m ls calm h',
      deliver-member k m ls cut h',
      member-remove k l h.listeners,
      failing-nil ls,
    )

-- Behind a dispatch a listener is registered exactly if it was before and its call returned no
-- error.
pub dispatch-member :
    (k : ℕ) (m : HubMessage) (h h' : Hub)
    → dispatch m h ≡ some h'
    → member k h'.listeners
      ≡ (member k h.listeners && not (member k (failing h.listeners h.answers)))
unfolding dispatch write_history
dispatch-member k m h h' e = go h.history e
  where
    go :
        (ring : List (Option HubMessage))
        → (elim (write_history m ring) [
          | none ↦ none
          | some r ↦ deliver m h.listeners (record h { history = r })
        ])
          ≡ some h'
        → member k h'.listeners
          ≡ (member k h.listeners && not (member k (failing h.listeners h.answers)))
    go [] e = cc
    go (v ∷ vs) e =
        let g = record h { history = vs ++ some m ∷ [] } in deliver-member k m h.listeners g h' e

-- A message that is dispatched is received once by each listener, and by nobody else, and behind
-- the dispatch a listener is registered exactly if it was before and its call returned no error.
pub dispatch-heard :
    (m : HubMessage) (h h' : Hub)
    → dispatch m h ≡ some h'
    → (h'.received ≡ calls m h.listeners ++ h.received)
      × ((k : ℕ)
          → member k h'.listeners
            ≡ (member k h.listeners && not (member k (failing h.listeners h.answers))))
dispatch-heard m h h' e = (dispatch-received m h h' e, λ k. dispatch-member k m h h' e)
