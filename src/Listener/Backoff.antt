-- ===== src/Listener/Backoff.antt =====
-- What the accept loop starts and how long it sleeps, and the history of a metric.
use inbucket.Common.{
  ℕ, suc, ◌+◌, ◌-◌, ◌≤◌, ◌≡◌, refl, ap, ◌∙◌, arith, Bool, true, false, List, [], ◌∷◌, ◌++◌, ltb,
  leb, ◌==◌, ◌&&◌, ◌⊎◌, Bool-cases, inl, inr, length, length-append, length-drop, drop, all, Bytes,
}
use mathlib.Core.List.{append_assoc, append-nil}
use inbucket.Listener.{
  Accept, connection, temporary, permanent, Event, start_session, sleep, emergency_shutdown,
  next_delay, serve, push_metric,
}

-- A sleep is of 5 to 1000 milliseconds.
abbrev pub is_patient : Event → Bool
is_patient (start_session k) = true
is_patient (sleep d) = leb 5 d && leb d 1000
is_patient emergency_shutdown = true

next_delay-least : (d : ℕ) → ((d == 0) ≡ true) ⊎ (3 ≤ d) → 3 ≤ next_delay d
unfolding next_delay
next_delay-least d h = ground arith

-- The identifiers of the sessions started are at least `k`, each greater than those before it.
abbrev pub ascending : ℕ → List Event → Bool
ascending k [] = true
ascending k (start_session i ∷ es) = leb k i && ascending (i + 1) es
ascending k (sleep d ∷ es) = ascending k es
ascending k (emergency_shutdown ∷ es) = ascending k es

ascending-lower :
    (j k : ℕ) (es : List Event) → j ≤ k → ascending k es ≡ true → ascending j es ≡ true
ascending-lower j k [] h a = refl
ascending-lower j k (start_session i ∷ es) h a = ground arith
ascending-lower j k (sleep d ∷ es) h a = ascending-lower j k es h a
ascending-lower j k (emergency_shutdown ∷ es) h a = ascending-lower j k es h a

-- Whatever `Accept` returns, each session that a new loop starts has a greater identifier than
-- those before it.
pub serve-ascending : (k d : ℕ) (accepts : List Accept) → ascending k (serve k d accepts) ≡ true
unfolding serve
serve-ascending k d [] = refl
serve-ascending k d (connection ∷ rest) = ground (arith, serve-ascending (k + 1) 0 rest)
serve-ascending k d (temporary ∷ rest) =
    ascending-lower k (k + 1) (serve (k + 1) (next_delay d) rest) (omega arith)
      (serve-ascending (k + 1) _ rest)
serve-ascending k d (permanent true ∷ rest) = refl
serve-ascending k d (permanent false ∷ rest) = refl

-- Each sleep of the loop is of 5 to 1000 milliseconds, whatever `Accept` returns, from a delay of
-- zero or of at least 3 milliseconds.
pub serve-is_patient :
    (k d : ℕ) (accepts : List Accept)
    → ((d == 0) ≡ true) ⊎ (3 ≤ d)
    → all is_patient (serve k d accepts) ≡ true
unfolding serve next_delay
serve-is_patient k d [] h = refl
serve-is_patient k d (connection ∷ rest) h = serve-is_patient (k + 1) 0 rest (inl refl)
serve-is_patient k d (temporary ∷ rest) h =
    ground (arith, serve-is_patient (k + 1) (next_delay d) rest (inr (next_delay-least d h)))
serve-is_patient k d (permanent true ∷ rest) h = refl
serve-is_patient k d (permanent false ∷ rest) h = refl

-- The history of a metric behind a list of pushes.
abbrev pub push_all : List Bytes → List Bytes → List Bytes
push_all [] history = history
push_all (v ∷ vs) history = push_all vs (push_metric v history).0

drop-cons :
    (v : Bytes) (history vs : List Bytes)
    → length history ≡ 61
    → drop (length (drop 1 (history ++ v ∷ []) ++ vs) - 61) (drop 1 (history ++ v ∷ []) ++ vs)
      ≡ drop (length (history ++ v ∷ vs) - 61) (history ++ v ∷ vs)
drop-cons v [] vs h = absurd (omega arith)
drop-cons v (x ∷ xs) vs h =
    ap (λ l. drop (length l - 61) l) (append_assoc xs (v ∷ []) vs)
    ∙ ap (λ n. drop n (x ∷ (xs ++ v ∷ vs))) (suc-less (xs ++ v ∷ vs) long)
  where
    long : 61 ≤ length (xs ++ v ∷ vs)
    long = ground (arith, length-append xs (v ∷ vs))

    suc-less : (l : List Bytes) → 61 ≤ length l → suc (length l - 61) ≡ suc (length l) - 61
    suc-less l h = omega arith

-- A history of at most 61 values keeps, behind any pushes, the latest 61 of its values and those
-- pushed, oldest first.
pub push_all-latest :
    (vs history : List Bytes)
    → length history ≤ 61
    → push_all vs history ≡ drop (length (history ++ vs) - 61) (history ++ vs)
unfolding push_metric
push_all-latest [] history h =
    let none_over : length history - 61 ≡ 0 = omega arith in rw (append-nil history, none_over) refl
push_all-latest (v ∷ vs) history h = elim (Bool-cases (ltb 61 (length (history ++ v ∷ [])))) [
  | inl over ↦ rw over (
      push_all-latest vs (drop 1 (history ++ v ∷ []))
        (ground (arith, length-append history (v ∷ []), length-drop 1 (history ++ v ∷ [])))
      ∙ drop-cons v history vs (ground (arith, length-append history (v ∷ []))))
  | inr fits ↦ rw fits (
      push_all-latest vs (history ++ v ∷ []) (ground arith)
      ∙ ap (λ l. drop (length l - 61) l) (append_assoc history (v ∷ []) vs))
]
