-- ===== src/Pop3/Messages/Marks.antt =====
-- The marks of DELE and RSET, and what STAT, LIST and RETR make of them.
use inbucket.Common.{
  ℕ, ◌-◌, ◌≤◌, ◌≡◌, refl, ap, sym, ◌∙◌, arith, Bool, true, false, Option, none, some, List, [], ◌∷◌,
  length, replicate, get_elem?, set, set-get_elem?, Bytes, codes, Option-cases, inl, inr,
}
use inbucket.DataStore.{DataStore}
use inbucket.Pop3.Messages.{
  Number, number, wrong, command_number, dele_number, retr_command, retr_number, send_message,
  list_items, stat_totals,
}
use inbucket.Pop3.Messages.Invariant.{at_number, stat_totals-some, list_items-some}
use inbucket.Pop3.Messages.Update.{marked}
use inbucket.Pop3.Reply.{Reply, already_deleted, retr_failed}
use inbucket.Pop3.Session.{Session, World, send, send_all, retain_all}
use inbucket.Pop3.Session.Flags.{Inv}

module _ (ds : DataStore) where
  -- DELE of a message's number returns, with that message marked, whether it was before or not,
  -- every other mark as it was, and the messages unchanged.
  pub dele_number-marks :
      (n : ℕ) (s : Session ds)
      → Inv ds s
      → 1 ≤ n
      → n ≤ length s.messages
      → (t : Session ds) × (dele_number ds (number n) s ≡ some t)
        × (t.retain ≡ set s.retain (n - 1) false)
        × (t.messages ≡ s.messages)
  unfolding dele_number send
  dele_number-marks n s i h k =
      let (b, e) = at_number s.retain n h (omega (arith, i.flagged)) in go b e
    where
      go :
          (b : Bool)
          → get_elem? s.retain (n - 1) ≡ some b
          → (t : Session ds) × (dele_number ds (number n) s ≡ some t)
            × (t.retain ≡ set s.retain (n - 1) false)
            × (t.messages ≡ s.messages)
      go false e = (
        send ds (already_deleted n) s,
        ground (arith, e),
        ground (arith, set-get_elem? s.retain (n - 1) false),
        ground arith,
      )
      go true e =
          let marking = record s {
            retain = set s.retain (n - 1) false;
            msg_count = s.msg_count - 1;
          } in
          (send ds (Reply.deleted n) marking, ground (arith, e), ground arith, ground arith)

  marked-replicate : (ms : List ds.Message) → marked ds ms (replicate (length ms) true) ≡ []
  marked-replicate [] = refl
  marked-replicate (m ∷ ms) = marked-replicate ms

  -- Behind RSET no message is marked, whatever was marked before it, and the count is that of all
  -- messages.
  pub retain_all-marked :
      (s : Session ds)
      → let t = retain_all ds s in
        (marked ds t.messages t.retain ≡ []) × (t.msg_count ≡ length s.messages)
  unfolding retain_all
  retain_all-marked s = (marked-replicate s.messages, refl)

  -- The count of STAT, the number that LIST and UIDL announce and the number of lines that they
  -- list are the same.
  pub stat_totals-list_items :
      (item : ℕ → ds.Message → Reply) (st : ds.Store) (s : Session ds)
      → Inv ds s
      → (total : ℕ) × (items : List Reply) × (stat_totals ds st s.messages s.retain
          ≡ some (s.msg_count, total))
        × (list_items ds item 1 s.messages s.retain ≡ some items)
        × (length items ≡ s.msg_count)
  stat_totals-list_items item st s i =
      let (total, e) = stat_totals-some ds st s.messages s.retain i.flagged in
      let (items, f, l) = list_items-some ds item 1 s.messages s.retain i.flagged in
      (
        total,
        items,
        e ∙ ap (λ (c : ℕ). some (c, total)) (sym i.counted),
        f,
        omega (arith, i.counted),
      )

  -- The session with other marks.
  abbrev pub mark_with : List Bool → Session ds → Session ds
  mark_with flags s = record s { retain = flags }

  send-mark_with :
      (flags : List Bool) (r : Reply) (s : Session ds)
      → send ds r (mark_with flags s) ≡ mark_with flags (send ds r s)
  unfolding send
  send-mark_with flags r s = ground arith

  send_all-mark_with :
      (flags : List Bool) (rs : List Reply) (s : Session ds)
      → send_all ds rs (mark_with flags s) ≡ mark_with flags (send_all ds rs s)
  unfolding send_all
  send_all-mark_with flags [] s = refl
  send_all-mark_with flags (r ∷ rs) s =
      rw (send-mark_with flags r s) (send_all-mark_with flags rs (send ds r s))

  send_message-mark_with :
      (flags : List Bool) (m : ds.Message) (st : ds.Store) (s : Session ds)
      → send_message ds m st (mark_with flags s) ≡ mark_with flags (send_message ds m st s)
  unfolding send_message
  send_message-mark_with flags m st s = elim (Option-cases (ds.raw m st)) [
    | inl e ↦ rw (e, send_message) (send-mark_with flags retr_failed s)
    | inr (bytes, e) ↦ rw (e, send_message) (send_all-mark_with flags _ s)
  ]

  abbrev pub map_marks : List Bool → Option (Session ds) → Option (Session ds)
  map_marks flags none = none
  map_marks flags (some s) = some (mark_with flags s)

  retr_number-mark_with :
      (n : Number) (flags : List Bool) (w : World ds)
      → retr_number ds n (record w { session = mark_with flags w.session })
        ≡ map_marks flags (retr_number ds n w)
  unfolding retr_number
  retr_number-mark_with (wrong r) flags w = ap some (send-mark_with flags r w.session)
  retr_number-mark_with (number n) flags w =
      elim (Option-cases (get_elem? w.session.messages (n - 1))) [
        | inl e ↦ rw (e, retr_number)
        | inr (m, e) ↦
            rw (e, retr_number)
              (ap some (
                ap (send_message ds m w.store) (send-mark_with flags _ w.session)
                ∙ send_message-mark_with flags m w.store _))
      ]

  -- RETR does not look at the marks: with any other marks it sends the same and leaves the session
  -- the same but for them.
  pub retr_command-mark_with :
      (args : List Bytes) (flags : List Bool) (w : World ds)
      → retr_command ds args (record w { session = mark_with flags w.session })
        ≡ map_marks flags (retr_command ds args w)
  unfolding retr_command
  retr_command-mark_with [] flags w = ap some (send-mark_with flags _ w.session)
  retr_command-mark_with (a ∷ []) flags w =
      retr_number-mark_with (command_number (codes "RETR") (length w.session.messages) a) flags w
  retr_command-mark_with (a ∷ b ∷ args) flags w = ap some (send-mark_with flags _ w.session)
