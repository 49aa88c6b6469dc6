-- ===== src/FileStore/Mailbox/Unchanged.antt =====
-- The reading methods of the file store, whatever the operating system answers.
use inbucket.Common.{ℕ, ◌≡◌, refl, arith, List, [], ◌∷◌, Bytes}
use inbucket.FileStore.{FileMailbox, Store, M, call, set_mailbox}
use inbucket.FileStore.Files.{FilePath, find}
use inbucket.FileStore.Index.{
  index_path, stat, decode_with, decode_index, read_index, load_messages,
}
use inbucket.FileStore.Index.Loaded.{load_messages-Loads}
use inbucket.FileStore.Mailbox.{load_index, find_message}
use inbucket.FileStore.Message.{read_raw, raw_path_of}

-- A method that changes no file, whatever the operating system answers.
abbrev pub KeepsDisk : {A : Type 0} → M A → Type 0
KeepsDisk m = (s : Store) → (m s).1.disk ≡ s.disk

KeepsDisk-call : KeepsDisk call
unfolding call
KeepsDisk-call s = ground arith

KeepsDisk-stat : (p : FilePath) → KeepsDisk (stat p)
unfolding stat
KeepsDisk-stat p s = ground (arith, KeepsDisk-call s)

KeepsDisk-decode_index : (h : ℕ) (mb : FileMailbox) → KeepsDisk (decode_index h mb)
unfolding decode_index
KeepsDisk-decode_index h mb s =
    let (ms, whole) = decode_with s.outcomes (find (index_path mb.path) s.disk) in
    let t = (load_messages h ms s).1 in
    ground (arith, (load_messages-Loads h ms s).disk, KeepsDisk-call t)

KeepsDisk-read_index : (h : ℕ) → KeepsDisk (read_index h)
unfolding read_index
KeepsDisk-read_index h s =
    let mb = record (s.mailboxes h) { messages = [] } in
    let path = index_path mb.path in
    let t = (stat path (set_mailbox h mb s)).1 in
    ground (
      arith,
      KeepsDisk-stat path (set_mailbox h mb s),
      KeepsDisk-stat path t,
      KeepsDisk-decode_index h mb (stat path t).1,
    )

pub KeepsDisk-load_index : (h : ℕ) → KeepsDisk (load_index h)
unfolding load_index
KeepsDisk-load_index h s = ground (arith, KeepsDisk-read_index h s)

pub disk-find_message :
    (id : Bytes) (ps : List ℕ) (s : Store) → (find_message id ps s).1.disk ≡ s.disk
unfolding find_message
disk-find_message id [] s = refl
disk-find_message id (p ∷ ps) s = ground (arith, disk-find_message id ps s)

pub KeepsDisk-read_raw : (p : ℕ) → KeepsDisk (read_raw p)
unfolding read_raw raw_path_of
KeepsDisk-read_raw p s =
    let t = (stat (raw_path_of p s) s).1 in
    ground (arith, KeepsDisk-stat (raw_path_of p s) s, KeepsDisk-call t)
