-- ===== src/DataStore.antt =====
-- smtpd/datastore.go: the interfaces of a data store, its mailboxes and its messages, as the
-- servers, the handlers of HTTP and the retention scanner take them. Mailboxes and messages are
-- references to objects that live in the store's state; `none` and `false` are errors.
use inbucket.Common.{ℕ, Bool, Option, List, Bytes}

-- What `GetMessage` returns: a message, `ErrNotExist`, or another error.
pub data Lookup (A : Type 0) : Type 0 where
  found : A → Lookup A
  not_exist lookup_failed : Lookup A

pub record DataStore : Type 1 where
  pub Store : Type 0
  pub Mailbox : Type 0
  pub Message : Type 0
  pub Header : Type 0
  pub Body : Type 0
  pub mailbox_for : Bytes → Store → Option Mailbox × Store
  pub all_mailboxes : Store → Option (List Mailbox) × Store
  pub get_messages : Mailbox → Store → Option (List Message) × Store
  pub get_message : Mailbox → Bytes → Store → Lookup Message × Store
  pub purge : Mailbox → Store → Bool × Store
  pub new_message : Mailbox → Store → Option Message × Store
  pub name : Mailbox → Store → Bytes
  pub id : Message → Store → Bytes
  pub from : Message → Store → Bytes
  pub to : Message → Store → List Bytes
  pub date : Message → Store → ℕ
  pub subject : Message → Store → Bytes
  pub size : Message → Store → ℕ
  pub raw : Message → Store → Option Bytes
  pub read_header : Message → Store → Option Header × Store
  pub read_body : Message → Store → Option Body × Store
  pub append : Message → Bytes → Store → Bool × Store
  pub close : Message → Store → Bool × Store
  pub delete : Message → Store → Bool × Store
