-- ===== src/Smtp/Delivery/Opening.antt =====
-- Which recipients of `dataHandler` get a mailbox.
use inbucket.Common.{
  ◌≡◌, refl, ap, arith, true, Bool, not, List, [], ◌∷◌, ◌++◌, Bytes, equal, to_lower, if◌then◌else◌,
  inl, inr, Option-cases, ◌⊎◌,
}
use mathlib.Core.List.{append_assoc, append-nil}
use inbucket.Address.Email.{parse_email_address, parsed, failed, Parsed, AddressError}
use inbucket.DataStore.{DataStore}
use inbucket.Smtp.Session.{Server}
use inbucket.Smtp.Delivery.{RecipientDetails, opened, open_mailboxes}

-- An address is stored unless its domain, in lower case, is the one that is not stored.
abbrev pub is_stored : Server → Bytes → Bool
is_stored srv recip = elim (parse_email_address recip) [
  | failed e ↦ true
  | parsed local domain ↦ not (equal (to_lower srv.unicode domain) srv.domain_no_store)
]

abbrev pub stored_recipients : Server → List Bytes → List Bytes
stored_recipients srv [] = []
stored_recipients srv (r ∷ rs) =
    let rest = stored_recipients srv rs in if is_stored srv r then r ∷ rest else rest

module _ (ds : DataStore) (srv : Server) where
  abbrev pub addresses : List (RecipientDetails ds) → List Bytes
  addresses [] = []
  addresses (r ∷ rs) = r.address ∷ addresses rs

  addresses-append :
      (xs ys : List (RecipientDetails ds)) → addresses (xs ++ ys) ≡ addresses xs ++ addresses ys
  addresses-append [] ys = refl
  addresses-append (x ∷ xs) ys = ap (◌∷◌ x.address) (addresses-append xs ys)

  Parsed-cases :
      (p : Parsed)
      → ((e : AddressError) × (p ≡ failed e)) ⊎ ((l : Bytes) × (d : Bytes) × (p ≡ parsed l d))
  Parsed-cases (failed e) = inl (e, refl)
  Parsed-cases (parsed l d) = inr (l, d, refl)

  open_mailboxes-addresses_from :
      (recips : List Bytes) (done details : List (RecipientDetails ds)) (st st' : ds.Store)
      → open_mailboxes ds srv done recips st ≡ opened details st'
      → addresses details ≡ addresses done ++ stored_recipients srv recips
  unfolding open_mailboxes
  open_mailboxes-addresses_from [] done details st st' h =
      ground (arith, append-nil (addresses done))
  open_mailboxes-addresses_from (r ∷ rs) done details st st' h =
      elim (Parsed-cases (parse_email_address r)) [
        | inl (e, p) ↦ ground arith
        | inr (l, d, p) ↦ elim (Option-cases (ds.mailbox_for l st).0) [
          | inl m ↦ ground (arith, open_mailboxes-addresses_from rs done details st st')
          | inr (mb, m) ↦
              let more : List (RecipientDetails ds) =
                record { address = r; local_part = l; domain_part = d; mailbox = mb } ∷ [] in
              ground (
                arith,
                open_mailboxes-addresses_from rs done details st st',
                open_mailboxes-addresses_from rs (done ++ more) details (ds.mailbox_for l st).1 st',
                addresses-append done more,
                append_assoc (addresses done) (r ∷ []) (stored_recipients srv rs),
              )
        ]
      ]

  -- Where every mailbox could be opened, the message goes to the recipients of the session in
  -- their order, less those at the domain that is not stored.
  pub open_mailboxes-addresses :
      (recips : List Bytes) (details : List (RecipientDetails ds)) (st st' : ds.Store)
      → open_mailboxes ds srv [] recips st ≡ opened details st'
      → addresses details ≡ stored_recipients srv recips
  open_mailboxes-addresses recips details st st' =
      open_mailboxes-addresses_from recips [] details st st'
