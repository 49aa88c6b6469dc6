-- ===== src/FileStore.antt =====
-- smtpd/filestore.go and smtpd/filemsg.go: the data store that keeps mail in files. The objects of
-- mailboxes and messages live in heaps, so that a message and its mailbox share what they change.
pub mod Files
pub mod Index
pub mod Mailbox
pub mod Message
pub mod Interface
pub mod Delivery
pub mod Quit
use inbucket.Common.{
  ℕ, suc, ◌+◌, ◌≡◌, Bool, true, false, Option, none, some, List, [], ◌∷◌, ◌==◌, if◌then◌else◌,
  Unicode, Bytes,
}
use inbucket.FileStore.Files.{Meta, FilePath, Disk}

-- What the store takes from other packages: the tables of the package unicode, SHA-1 in
-- hexadecimal, `time.Format` of the layout of `generatePrefix`, and of enmime and net/mail the
-- reading of a message's header and of an envelope, a header of it, an address that is parsed and
-- printed again, and a list of them.
pub record Library : Type 1 where
  pub unicode : Unicode
  pub sha1_hex : Bytes → Bytes
  pub format : ℕ → Bytes
  pub Header : Type 0
  pub read_mail_header : Bytes → Option Header
  pub Envelope : Type 0
  pub read_envelope : Bytes → Option Envelope
  pub get_header : Envelope → Bytes → Bytes
  pub parse_address : Bytes → Option Bytes
  pub address_list : Envelope → Bytes → Option (List Bytes)

-- `FileMailbox`. A pointer is a number.
pub record FileMailbox : Type 0 where
  pub name : Bytes
  pub path : FilePath
  pub index_loaded : Bool
  pub messages : List ℕ

-- A buffered writer: what was written since the raw file was created, how many of these bytes are on
-- the file, and the error of an earlier `Write`, which it remembers.
pub record Writer : Type 0 where
  pub buffer : Bytes
  pub on_file : ℕ
  pub broken : Bool

-- `FileMessage`. The writer and its file are set together; `none` is nil.
pub record FileMessage : Type 0 where
  pub mailbox : ℕ
  pub fields : Meta
  pub writable : Bool
  pub writer : Option Writer

-- The outcome of a call of the operating system. One that fails may have done a part: of a list of
-- records the first ones, and then a damaged one or none.
pub data Outcome : Type 0 where
  done : Outcome
  failed : ℕ → Bool → Outcome

-- The disk, the heaps, the counter behind `countChannel`, the times that the clock will give, and
-- the outcomes of the calls to come; all succeed behind the end of the list.
pub record Store : Type 0 where
  pub disk : Disk
  pub mailboxes : ℕ → FileMailbox
  pub next_mailbox : ℕ
  pub messages : ℕ → FileMessage
  pub next_message : ℕ
  pub count : ℕ
  pub times : List ℕ
  pub outcomes : List Outcome

-- A method that may return an error, as `none`.
abbrev pub M : Type 0 → Type 0
M A = Store → Option A × Store

abbrev pub pure : {A : Type 0} → A → M A
pure a s = (some a, s)

abbrev pub fail : {A : Type 0} → M A
fail s = (none, s)

abbrev pub and_then : {A B : Type 0} → Option A → (A → M B) → M B
and_then none f s = (none, s)
and_then (some a) f s = f a s

infixl 5 ◌>>=◌
abbrev pub ◌>>=◌ : {A B : Type 0} → M A → (A → M B) → M B
◌>>=◌ m f s = and_then (m s).0 f (m s).1

infixl 5 ◌>>◌
abbrev pub ◌>>◌ : {A : Type 0} → M (Unit {0}) → M A → M A
first >> next = first >>= λ done. next

-- The error is logged, or dropped.
abbrev pub ignore : M (Unit {0}) → M (Unit {0})
ignore m s = (some tt, (m s).1)

abbrev pub modify : (Store → Store) → M (Unit {0})
modify f s = (some tt, f s)

abbrev pub update : {A : Type 0} → (ℕ → A) → ℕ → A → ℕ → A
update f p v q = if p == q then v else f q

abbrev pub set_mailbox : ℕ → FileMailbox → Store → Store
set_mailbox h mb s = record s { mailboxes = update s.mailboxes h mb }

abbrev pub set_message : ℕ → FileMessage → Store → Store
set_message p m s = record s { messages = update s.messages p m }

-- A call of the operating system that has no effect of its own.
abbrev call_with : List Outcome → M (Unit {0})
call_with [] s = (some tt, s)
call_with (done ∷ rest) s = (some tt, record s { outcomes = rest })
call_with (failed n whole ∷ rest) s = (none, record s { outcomes = rest })

unfoldable pub call : M (Unit {0})
call s = call_with s.outcomes s

-- The fields that the messages of a list of pointers have.
unfoldable pub fields_of : (ℕ → FileMessage) → List ℕ → List Meta
fields_of heap [] = []
fields_of heap (p ∷ ps) = (heap p).fields ∷ fields_of heap ps

-- The messages of a list are of the mailbox `h`.
abbrev pub Owned : (ℕ → FileMessage) → ℕ → List ℕ → Type 0
Owned heap h [] = Unit
Owned heap h (p ∷ ps) = ((heap p).mailbox ≡ h) × Owned heap h ps
