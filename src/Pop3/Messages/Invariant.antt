-- ===== src/Pop3/Messages/Invariant.antt =====
-- No command of TRANSACTION indexes out of range, and each keeps the invariant.
use inbucket.Common.{
  ℕ, suc, ◌+◌, ◌-◌, ◌≤◌, ◌≡◌, refl, arith, Bool, true, false, Option, none, some, List, [], ◌∷◌,
  length, length-set, get_elem?, get_elem?-lt, set, Bytes, Option-cases, inl, inr, ℤ, pos, negsuc,
  parse_int32,
}
use inbucket.DataStore.{DataStore}
use inbucket.Pop3.Reply.{Reply, end_of_list, you_deleted, already_deleted, retr_failed}
use inbucket.Pop3.Messages.{
  Number, number, wrong, check_number, command_number, stat_totals, list_items, list_one,
  list_command, dele_number, top_from, retr_number, top_number, send_message, send_message_top,
  with_session,
}
use inbucket.Pop3.Session.{Session, World}
use inbucket.Pop3.Session.Flags.{Inv, trues, trues-set, send-Inv, send_all-Inv}

-- A number that passed the checks is that of a message.
abbrev pub InRange : ℕ → Number → Type 0
InRange count (wrong r) = Unit
InRange count (number n) = (1 ≤ n) × (n ≤ count)

pub check_number-InRange :
    (count : ℕ) (r p b : Reply) (arg : Bytes) → InRange count (check_number count r p b arg)
unfolding check_number
check_number-InRange count r p b arg = ground arith

pub command_number-InRange :
    (name : Bytes) (count : ℕ) (arg : Bytes) → InRange count (command_number name count arg)
unfolding command_number
command_number-InRange name count arg = check_number-InRange count _ _ _ arg

-- An index of a checked number is in range.
pub at_number {ℓ} :
    {A : Type ℓ} (xs : List A) (n : ℕ)
    → 1 ≤ n
    → n ≤ length xs
    → (x : A) × (get_elem? xs (n - 1) ≡ some x)
at_number xs n h k = get_elem?-lt xs (n - 1) (omega arith)

module _ (ds : DataStore) where
  abbrev pub Kept : Option (Session ds) → Type 0
  Kept none = ⊥
  Kept (some s) = Inv ds s

  pub stat_totals-some :
      (st : ds.Store) (ms : List ds.Message) (flags : List Bool)
      → length flags ≡ length ms
      → (total : ℕ) × (stat_totals ds st ms flags ≡ some (trues flags, total))
  unfolding stat_totals
  stat_totals-some st [] [] h = (0, refl)
  stat_totals-some st [] (b ∷ bs) h = absurd (omega arith)
  stat_totals-some st (m ∷ ms) [] h = absurd (omega arith)
  stat_totals-some st (m ∷ ms) (true ∷ bs) h =
      let (total, e) = stat_totals-some st ms bs (omega arith) in
      (ds.size m st + total, ground arith)
  stat_totals-some st (m ∷ ms) (false ∷ bs) h =
      let (total, e) = stat_totals-some st ms bs (omega arith) in (total, ground arith)

  pub list_items-some :
      (item : ℕ → ds.Message → Reply) (i : ℕ) (ms : List ds.Message) (flags : List Bool)
      → length flags ≡ length ms
      → (items : List Reply) × (list_items ds item i ms flags ≡ some items)
        × (length items ≡ trues flags)
  unfolding list_items
  list_items-some item i [] [] h = ([], refl, refl)
  list_items-some item i [] (b ∷ bs) h = absurd (omega arith)
  list_items-some item i (m ∷ ms) [] h = absurd (omega arith)
  list_items-some item i (m ∷ ms) (true ∷ bs) h =
      let (items, e, l) = list_items-some item (suc i) ms bs (omega arith) in
      (item i m ∷ items, ground arith, omega arith)
  list_items-some item i (m ∷ ms) (false ∷ bs) h =
      let (items, e, l) = list_items-some item (suc i) ms bs (omega arith) in
      (items, ground arith, omega arith)

  list_one-Kept :
      (one : ℕ → ds.Message → Reply) (n : Number) (s : Session ds)
      → Inv ds s
      → InRange (length s.messages) n
      → Kept (list_one ds one n s)
  unfolding list_one
  list_one-Kept one (wrong r) s i h = send-Inv ds r s i
  list_one-Kept one (number n) s i h =
      let (b, e) = at_number s.retain n h.0 (omega arith) in
      let (m, f) = at_number s.messages n h.0 h.1 in
      ground (arith, e, f, send-Inv ds (you_deleted n) s, send-Inv ds (one n m) s)

  pub list_command-Kept :
      (name : Bytes) (one item : ℕ → ds.Message → Reply) (args : List Bytes) (s : Session ds)
      → Inv ds s
      → Kept (list_command ds name one item args s)
  unfolding list_command
  list_command-Kept name one item [] s i =
      let (items, e, l) = list_items-some item 1 s.messages s.retain i.flagged in
      rw (e, list_command) (send-Inv ds end_of_list _ (send_all-Inv ds items _ (send-Inv ds _ s i)))
  list_command-Kept name one item (a ∷ []) s i =
      list_one-Kept one _ s i (check_number-InRange _ _ _ _ a)
  list_command-Kept name one item (a ∷ b ∷ args) s i = send-Inv ds _ s i

  pub dele_number-Kept :
      (n : Number) (s : Session ds)
      → Inv ds s
      → InRange (length s.messages) n
      → Kept (dele_number ds n s)
  unfolding dele_number
  dele_number-Kept (wrong r) s i h = send-Inv ds r s i
  dele_number-Kept (number n) s i h =
      let (b, e) = at_number s.retain n h.0 (omega arith) in
      let marked = record s { retain = set s.retain (n - 1) false; msg_count = s.msg_count - 1 } in
      ground (
        arith,
        e,
        send-Inv ds (already_deleted n) s,
        send-Inv ds (Reply.deleted n) marked,
        trues-set s.retain (n - 1),
        length-set s.retain (n - 1) false,
      )

  send_message-Inv :
      (m : ds.Message) (st : ds.Store) (s : Session ds) → Inv ds s → Inv ds (send_message ds m st s)
  unfolding send_message
  send_message-Inv m st s i = elim (Option-cases (ds.raw m st)) [
    | inl e ↦ rw (e, send_message) (send-Inv ds retr_failed s i)
    | inr (bytes, e) ↦ rw (e, send_message) (send_all-Inv ds _ s i)
  ]

  send_message_top-Inv :
      (m : ds.Message) (n : ℕ) (st : ds.Store) (s : Session ds)
      → Inv ds s
      → Inv ds (send_message_top ds m n st s)
  unfolding send_message_top
  send_message_top-Inv m n st s i = elim (Option-cases (ds.raw m st)) [
    | inl e ↦ rw (e, send_message_top) (send-Inv ds retr_failed s i)
    | inr (bytes, e) ↦ rw (e, send_message_top) (send_all-Inv ds _ s i)
  ]

  pub retr_number-Kept :
      (n : Number) (w : World ds)
      → Inv ds w.session
      → InRange (length w.session.messages) n
      → Kept (retr_number ds n w)
  unfolding retr_number
  retr_number-Kept (wrong r) w i h = send-Inv ds r w.session i
  retr_number-Kept (number n) w i h =
      let (m, e) = at_number w.session.messages n h.0 h.1 in
      rw (e, retr_number) (send_message-Inv m w.store _ (send-Inv ds _ w.session i))

  top_from-Kept :
      (lines : Option ℤ) (n : ℕ) (w : World ds)
      → Inv ds w.session
      → InRange (length w.session.messages) (number n)
      → Kept (top_from ds lines n w)
  top_from-Kept none n w i h = send-Inv ds _ w.session i
  top_from-Kept (some (negsuc k)) n w i h = send-Inv ds _ w.session i
  top_from-Kept (some (pos count)) n w i h =
      let (m, e) = at_number w.session.messages n h.0 h.1 in
      rw (e, top_from) (send_message_top-Inv m count w.store _ (send-Inv ds _ w.session i))

  pub top_number-Kept :
      (n : Number) (b : Bytes) (w : World ds)
      → Inv ds w.session
      → InRange (length w.session.messages) n
      → Kept (top_number ds n b w)
  unfolding top_number
  top_number-Kept (wrong r) b w i h = send-Inv ds r w.session i
  top_number-Kept (number n) b w i h = top_from-Kept (parse_int32 b) n w i h

  abbrev pub KeptWorld : Option (World ds) → Type 0
  KeptWorld none = ⊥
  KeptWorld (some w) = Inv ds w.session

  pub with_session-Kept :
      (w : World ds) (o : Option (Session ds)) → Kept o → KeptWorld (with_session ds w o)
  with_session-Kept w (some s) h = h
  with_session-Kept w none h = h
