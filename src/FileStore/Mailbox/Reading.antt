-- ===== src/FileStore/Mailbox/Reading.antt =====
-- What a mailbox object shows of its index.
use inbucket.Common.{ℕ, ◌≡◌, refl, true, false, some, List}
use inbucket.FileStore.Files.{find}
use inbucket.FileStore.{Store, fields_of}
use inbucket.FileStore.Index.{index_path}
use inbucket.FileStore.Index.Written.{calm, listing}
use inbucket.FileStore.Index.Loaded.{is_whole, reread, reread-Rereads, read_index_lem}
use inbucket.FileStore.Mailbox.{load_index, get_messages}

-- A mailbox object that has not read its index reads it at `GetMessages`, where it is not damaged
-- and no call of the operating system fails: the messages have the fields that the index lists, in
-- its order, and the disk is as it was.
pub get_messages-listing :
    (h : ℕ) (s : Store)
    → (s.mailboxes h).index_loaded ≡ false
    → is_whole (find (index_path (s.mailboxes h).path) s.disk) ≡ true
    → (ps : List ℕ) × (t : Store) × (get_messages h (calm s) ≡ (some ps, t))
      × (fields_of t.messages ps ≡ listing (s.mailboxes h).path s.disk)
      × (t.disk ≡ s.disk)
unfolding get_messages load_index
get_messages-listing h s n w =
    let r = reread-Rereads h s in
    (
      ((reread h s).mailboxes h).messages,
      reread h s,
      rw (n, read_index_lem h s w) refl,
      r.fields,
      r.disk,
    )
