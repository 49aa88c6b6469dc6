-- ===== src/Smtp/Configured.antt =====
-- smtpd/listener.go: `NewServer`, and what its lower case of `domain.nostore` is for.
use inbucket.Common.{
  ◌≡◌, refl, Bool, true, false, List, [], ◌∷◌, all, Unicode, Bytes, equal, to_lower, pos_part,
  arith,
}
use inbucket.Address.Email.{parse_email_address, parsed, failed}
use inbucket.Config.{SmtpConfig}
use inbucket.DataStore.{DataStore}
use inbucket.Smtp.Session.{Server}
use inbucket.Smtp.Delivery.{RecipientDetails, opened, open_mailboxes}

-- `NewServer`, for what a session reads of it.
unfoldable pub new_smtp_server : {Ip : Type 0} → Unicode → SmtpConfig Ip → Server
new_smtp_server unicode cfg = record {
  domain = cfg.domain;
  domain_no_store = to_lower unicode cfg.domain_no_store;
  max_recips = pos_part cfg.max_recipients;
  max_message_bytes = pos_part cfg.max_message_bytes;
  store_messages = cfg.store_messages;
  unicode = unicode;
}

-- Whether an address is of the configured domain, whatever the case of either.
abbrev pub is_unstored : {Ip : Type 0} → Unicode → SmtpConfig Ip → Bytes → Bool
is_unstored unicode cfg recip = elim (parse_email_address recip) [
  | failed e ↦ false
  | parsed local domain ↦ equal (to_lower unicode domain) (to_lower unicode cfg.domain_no_store)
]

-- No mailbox is opened for recipients of the domain that is not stored, and the store stays as it
-- is: the message is accepted for nobody.
pub open_mailboxes-is_unstored :
    {Ip : Type 0} (unicode : Unicode) (cfg : SmtpConfig Ip) (ds : DataStore)
    (done : List (RecipientDetails ds)) (rs : List Bytes) (st : ds.Store)
    → all (is_unstored unicode cfg) rs ≡ true
    → open_mailboxes ds (new_smtp_server unicode cfg) done rs st ≡ opened done st
unfolding open_mailboxes new_smtp_server
open_mailboxes-is_unstored unicode cfg ds done [] st e = refl
open_mailboxes-is_unstored unicode cfg ds done (r ∷ rs) st e =
    ground (arith, e, open_mailboxes-is_unstored unicode cfg ds done rs st)
