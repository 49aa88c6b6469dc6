-- ===== src/Smtp/Delivery/Recipients.antt =====
-- What `dataHandler` counts and broadcasts of a delivery to its recipients.
use inbucket.Common.{
  ◌+◌, ◌≡◌, refl, sym, ap, arith, true, false, Bool, Option, none, some, List, [], ◌∷◌, ◌++◌,
  length, drop, Bytes,
}
use inbucket.DataStore.{DataStore}
use inbucket.Hub.{HubMessage}
use mathlib.Core.Path.{subst}
use inbucket.Smtp.Session.{Server, log_error}
use inbucket.Smtp.Delivery.{
  World, RecipientDetails, deliver_message, write_message, broadcast, append_lines, fail_store,
  received_header, first_stamp, deliver_all,
}

module _ (ds : DataStore) (srv : Server) where
  -- A broadcast message is the header of one that was created in the recipient's mailbox, as the
  -- store has it behind its `Close`.
  pub record IsHeader (r : RecipientDetails ds) (hm : HubMessage) : Type 0 where
    pub message : ds.Message
    pub before : ds.Store
    pub written : ds.Store
    pub created : (ds.new_message r.mailbox before).0 ≡ some message
    pub closed : (ds.close message written).0 ≡ true
    pub mailbox : hm.mailbox ≡ ds.name r.mailbox (ds.close message written).1
    pub id : hm.id ≡ ds.id message (ds.close message written).1
    pub from : hm.from ≡ ds.from message (ds.close message written).1
    pub to : hm.to ≡ ds.to message (ds.close message written).1
    pub subject : hm.subject ≡ ds.subject message (ds.close message written).1
    pub date : hm.date ≡ ds.date message (ds.close message written).1
    pub size : hm.size ≡ ds.size message (ds.close message written).1

  -- Between two lists of broadcast messages, the latest first, lies one for each recipient, in the
  -- order of the recipients.
  pub data Announced : List (RecipientDetails ds) → List HubMessage → List HubMessage → Type 0 where
    nobody : {hms : List HubMessage} → Announced [] hms hms
    also :
        {r : RecipientDetails ds} {rs : List (RecipientDetails ds)} {hm : HubMessage}
        {hms later : List HubMessage}
        → IsHeader r hm
        → Announced rs (hm ∷ hms) later
        → Announced (r ∷ rs) hms later

  -- What a delivery to one recipient leaves alone, and what it broadcasts.
  Announces : RecipientDetails ds → World ds → Bool × World ds → Type 0
  Announces r w (false, v) = (v.received_total ≡ w.received_total) × (v.dispatched ≡ w.dispatched)
  Announces r w (true, v) =
      (v.received_total ≡ w.received_total)
      × ((hm : HubMessage) × IsHeader r hm × (v.dispatched ≡ hm ∷ w.dispatched))

  write_message-Announces :
      (r : RecipientDetails ds) (buf : List Bytes) (m : ds.Message) (before : ds.Store)
      (w : World ds)
      → (ds.new_message r.mailbox before).0 ≡ some m
      → Announces r w (write_message ds srv r buf m w)
  unfolding write_message broadcast Announces
  write_message-Announces r buf m before w e =
      go (ds.append m recd w.store).0 filled.0 (ds.close m filled.1).0 refl
    where
      recd : Bytes
      recd = received_header srv w.session r.address (first_stamp w.stamps)

      filled : Bool × ds.Store
      filled = append_lines ds m buf (ds.append m recd w.store).1

      w' : World ds
      w' = record w { stamps = drop 1 w.stamps }

      go :
          (headed done closed : Bool)
          → (ds.close m filled.1).0 ≡ closed
          → Announces r w (elim headed [
            | false ↦ fail_store ds w' (ds.append m recd w.store).1
            | true ↦ elim done [
              | false ↦ fail_store ds w' filled.1
              | true ↦ elim closed [
                | false ↦ fail_store ds w' (ds.close m filled.1).1
                | true ↦ (true, broadcast ds r m (ds.close m filled.1).1 w')
              ]
            ]
          ])
      go false done closed f = (refl, refl)
      go true false closed f = (refl, refl)
      go true true false f = (refl, refl)
      go true true true f = (
        refl,
        (
          _,
          record {
            message = m;
            before = before;
            written = filled.1;
            created = e;
            closed = f;
            mailbox = refl;
            id = refl;
            from = refl;
            to = refl;
            subject = refl;
            date = refl;
            size = refl;
          },
          refl,
        ),
      )

  deliver_message-Announces :
      (r : RecipientDetails ds) (buf : List Bytes) (w : World ds)
      → Announces r w (deliver_message ds srv r buf w)
  unfolding deliver_message Announces
  deliver_message-Announces r buf w = go (ds.new_message r.mailbox w.store).0 refl
    where
      go :
          (created : Option ds.Message)
          → (ds.new_message r.mailbox w.store).0 ≡ created
          → Announces r w (elim created [
            | none ↦ (
              false,
              record w {
                store = (ds.new_message r.mailbox w.store).1;
                session = log_error w.session;
              },
            )
            | some m ↦
                write_message ds srv r buf m
                  (record w { store = (ds.new_message r.mailbox w.store).1 })
          ])
      go none e = (refl, refl)
      go (some m) e =
          write_message-Announces r buf m w.store
            (record w { store = (ds.new_message r.mailbox w.store).1 }) e

  -- The counts and broadcasts behind a delivery that failed for nobody, and behind one that failed:
  -- there `rs` is split at the recipient that failed.
  abbrev pub Delivered : List (RecipientDetails ds) → World ds → Option Bytes × World ds → Type 0
  Delivered rs w (none, w') =
      (w'.received_total ≡ w.received_total + length rs) × Announced rs w.dispatched w'.dispatched
  Delivered rs w (some local, w') =
      (before : List (RecipientDetails ds)) × (missed : RecipientDetails ds) × (after : List
        (RecipientDetails ds))
      × (rs ≡ before ++ missed ∷ after)
      × (missed.local_part ≡ local)
      × (w'.received_total ≡ w.received_total + length before)
      × Announced before w.dispatched w'.dispatched

  Delivered-cons :
      (r : RecipientDetails ds) (rs : List (RecipientDetails ds)) (w w' : World ds)
      (hm : HubMessage) (result : Option Bytes × World ds)
      → w'.received_total ≡ w.received_total + 1
      → IsHeader r hm
      → w'.dispatched ≡ hm ∷ w.dispatched
      → Delivered rs w' result
      → Delivered (r ∷ rs) w result
  Delivered-cons r rs w w' hm (none, v) h i k (c, d) =
      (omega arith, also i (subst (λ hms. Announced rs hms v.dispatched) k d))
  Delivered-cons r rs w w' hm (some local, v) h i k (before, missed, after, e, l, c, b) = (
    r ∷ before,
    missed,
    after,
    ap (◌∷◌ r) e,
    l,
    omega arith,
    also i (subst (λ hms. Announced before hms v.dispatched) k b),
  )

  -- A delivery to all recipients counts and broadcasts one message for each, in their order: the
  -- header of the message that was created in the recipient's mailbox, as the store has it behind
  -- its `Close`. One that fails names the recipient that failed, and the messages counted and
  -- broadcast are those of the recipients before it.
  pub deliver_all-Delivered :
      (rs : List (RecipientDetails ds)) (buf : List Bytes) (w : World ds)
      → Delivered rs w (deliver_all ds srv rs buf w)
  unfolding deliver_all Announces
  deliver_all-Delivered [] buf w = (omega arith, nobody)
  deliver_all-Delivered (r ∷ rs) buf w =
      let result = deliver_message ds srv r buf w in
      go result.0 result.1 (deliver_message-Announces r buf w) (deliver_all-Delivered rs buf)
    where
      go :
          (ok : Bool) (v : World ds)
          → Announces r w (ok, v)
          → ((u : World ds) → Delivered rs u (deliver_all ds srv rs buf u))
          → Delivered (r ∷ rs) w (elim ok [
            | false ↦ (some r.local_part, v)
            | true ↦ deliver_all ds srv rs buf (record v { received_total = v.received_total + 1 })
          ])
      go false v (c, d) ih = (
        [],
        r,
        rs,
        refl,
        refl,
        omega arith,
        subst (λ hms. Announced [] w.dispatched hms) (sym d) nobody,
      )
      go true v (c, (hm, i, d)) ih =
          let u = record v { received_total = v.received_total + 1 } in
          Delivered-cons r rs w u hm (deliver_all ds srv rs buf u) (omega arith) i d (ih u)
