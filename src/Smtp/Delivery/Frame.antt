-- ===== src/Smtp/Delivery/Frame.antt =====
-- The mail data ends a session's DATA in READY or in QUIT, with no more input than before.
use inbucket.Common.{
  ℕ, ◌+◌, ◌≤◌, ◌≡◌, refl, ap, arith, ◌⊎◌, inl, inr, Option, none, some, List, [], ◌∷◌, ◌++◌, length,
  Bytes,
}
use inbucket.Smtp.Reply.{start_input}
use inbucket.DataStore.{DataStore}
use inbucket.Smtp.Session.{Server, Read, line, ready, quit_state, send, reset}
use inbucket.Smtp.Session.Inputs.{send-input}
use inbucket.Smtp.Delivery.{
  World, RecipientDetails, Opened, read_data, opened, not_opened, deliver_message, write_message,
  deliver_all, finish_data, collect, data_handler, open_mailboxes, with_session, unstuff, broadcast,
}

module _ (ds : DataStore) (srv : Server) where
  deliver_message-input :
      (r : RecipientDetails ds) (buf : List Bytes) (w : World ds)
      → (deliver_message ds srv r buf w).1.session.input ≡ w.session.input
  unfolding deliver_message write_message broadcast
  deliver_message-input r buf w = ground arith

  deliver_all-input :
      (rs : List (RecipientDetails ds)) (buf : List Bytes) (w : World ds)
      → (deliver_all ds srv rs buf w).1.session.input ≡ w.session.input
  unfolding deliver_all
  deliver_all-input [] buf w = refl
  deliver_all-input (r ∷ rs) buf w =
      let w' = (deliver_message ds srv r buf w).1 in
      ground (
        arith,
        deliver_message-input r buf w,
        deliver_all-input rs buf (record w' { received_total = w'.received_total + 1 }),
      )

  abbrev pub Done : ℕ → World ds → Type 0
  Done n w =
      ((w.session.state ≡ ready) ⊎ (w.session.state ≡ quit_state)) × (length w.session.input ≤ n)

  finish_data-Done :
      (rs : List (RecipientDetails ds)) (buf : List Bytes) (w : World ds)
      → Done (length w.session.input) (finish_data ds srv rs buf w)
  unfolding finish_data reset send
  finish_data-Done rs buf w = ground (arith, deliver_all-input rs buf w)

  collect-Done :
      (reads : List Read) (rs : List (RecipientDetails ds)) (buf : List Bytes) (n : ℕ)
      (w : World ds)
      → Done (length reads) (collect ds srv rs buf n reads w)
  unfolding collect reset send
  collect-Done [] rs buf n w = ground arith
  collect-Done (line l ∷ rest) rs buf n w =
      let w' = with_session ds (λ s. record s { input = rest }) w in
      ground (
        arith,
        finish_data-Done rs buf w',
        collect-Done rest rs (buf ++ unstuff l ∷ []) (n + length (unstuff l)) w',
      )
  collect-Done (_ ∷ rest) rs buf n w = ground arith

  abbrev pub DoneSome : ℕ → Option (World ds) → Type 0
  DoneSome n none = ⊥
  DoneSome n (some w) = Done n w

  read_data-Done :
      (rs : List (RecipientDetails ds)) (w : World ds)
      → Done (length w.session.input) (read_data ds srv rs w)
  read_data-Done rs w =
      let w' = with_session ds (send start_input) w in
      let (state, fewer) = collect-Done w'.session.input rs [] 0 w' in
      (state, omega (arith, fewer, ap length (send-input start_input w.session)))

  -- With recipients `dataHandler` returns, in READY or in QUIT.
  pub data_handler-Done :
      (w : World ds) (recips : List Bytes)
      → w.session.recipients ≡ some recips
      → DoneSome (length w.session.input) (data_handler ds srv w)
  unfolding data_handler reset send
  data_handler-Done w recips h = elim (Opened-cases (open_mailboxes ds srv [] recips w.store)) [
    | inl (rs, st, e) ↦
        ground (arith, read_data-Done rs (record w { store = st }), read_data-Done [] w)
    | inr (who, st, e) ↦ ground (arith, read_data-Done [] w)
  ]
    where
      Opened-cases :
          (o : Opened ds)
          → ((rs : List (RecipientDetails ds)) × (st : ds.Store) × (o ≡ opened rs st))
            ⊎ ((who : Bytes) × (st : ds.Store) × (o ≡ not_opened who st))
      Opened-cases (opened rs st) = inl (rs, st, refl)
      Opened-cases (not_opened who st) = inr (who, st, refl)
