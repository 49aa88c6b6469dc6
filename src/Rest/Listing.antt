-- ===== src/Rest/Listing.antt =====
-- The handlers of a mailbox on the file store.
use inbucket.Common.{
  ℕ, ◌<◌, ◌≡◌, ◌≢◌, refl, ap, ◌∙◌, arith, true, false, none, some, List, [], ◌∷◌, map, length,
  if◌then◌else◌, Unicode, Bytes,
}
use mathlib.Core.Path.{subst}
use inbucket.Address.Mailbox.{named, parse_mailbox_name, hash_mailbox_name}
use inbucket.Address.Mailbox.Laws.{parse_mailbox_name_twice}
use inbucket.DataStore.{DataStore}
use inbucket.FileStore.{Library, Store, fields_of}
use inbucket.FileStore.Files.{Meta, FilePath, find, file_at, is_under, is_some}
use inbucket.FileStore.Index.{index_path}
use inbucket.FileStore.Index.Written.{calm, listing}
use inbucket.FileStore.Index.Loaded.{is_whole}
use inbucket.FileStore.Interface.{file_store}
use inbucket.FileStore.Mailbox.{mailbox_for, new_mailbox, mailbox_path, purge}
use inbucket.FileStore.Mailbox.Reading.{get_messages-listing}
use inbucket.FileStore.Message.Deleting.{purge-empty}
use inbucket.Rest.{
  Request, listed, ok, Mime, JsonMessageHeader, json_header, with_mailbox, mailbox_list,
  mailbox_purge,
}

-- The steps of the handlers on any data store.
module _ (unicode : Unicode) (ds : DataStore) (mime : Mime ds.Body) where
  mailbox_list_lem :
      (req : Request) (name : Bytes) (mb : ds.Mailbox) (ms : List ds.Message)
      (st st' st'' : ds.Store)
      → parse_mailbox_name unicode req.name ≡ named name
      → ds.mailbox_for name st ≡ (some mb, st')
      → ds.get_messages mb st' ≡ (some ms, st'')
      → mailbox_list unicode ds mime req st
        ≡ (listed (map (λ m. json_header unicode ds mime name m st'') ms), st'')
  unfolding mailbox_list with_mailbox
  mailbox_list_lem req name mb ms st st' st'' e f g = ground (arith, e, f, g)

  mailbox_purge_lem :
      (req : Request) (name : Bytes) (mb : ds.Mailbox) (st st' st'' : ds.Store)
      → parse_mailbox_name unicode req.name ≡ named name
      → ds.mailbox_for name st ≡ (some mb, st')
      → ds.purge mb st' ≡ (true, st'')
      → mailbox_purge unicode ds mime req st ≡ (ok, st'')
  unfolding mailbox_purge with_mailbox
  mailbox_purge_lem req name mb st st' st'' e f g = ground (arith, e, f, g)

-- The header that a handler renders of the fields of an index.
abbrev pub header_of : Bytes → Meta → JsonMessageHeader
header_of name m = record {
  mailbox = name;
  id = m.fid;
  from = m.ffrom;
  to = m.fto;
  subject = m.fsubject;
  date = m.fdate;
  size = m.fsize;
}

module _ (lib : Library) (message_cap : ℕ) (mime : Mime lib.Envelope) where
  abbrev pub files : DataStore
  files = file_store lib message_cap

  json_headers :
      (name : Bytes) (ps : List ℕ) (t : Store)
      → map (λ p. json_header lib.unicode files mime name p t) ps
        ≡ map (header_of name) (fields_of t.messages ps)
  unfolding json_header fields_of
  json_headers name [] t = refl
  json_headers name (p ∷ ps) t =
      ap (◌∷◌ (header_of name (t.messages p).fields)) (json_headers name ps t)

  abbrev pub path_of : Bytes → FilePath
  path_of name = mailbox_path (hash_mailbox_name lib.sha1_hex name)

  -- The new object of a mailbox.
  abbrev pub with_object : Bytes → Store → Store
  with_object name s = (new_mailbox name (path_of name) s).1

  pub mailbox_for-named :
      (local name : Bytes) (s : Store)
      → parse_mailbox_name lib.unicode local ≡ named name
      → name ≢ []
      → mailbox_for lib name s ≡ (some s.next_mailbox, with_object name s)
  unfolding mailbox_for new_mailbox
  mailbox_for-named local name s e ne =
      let twice = parse_mailbox_name_twice lib.unicode local name e ne in ground (arith, twice)

  -- A request for the list of a mailbox, by a text that `ParseMailboxName` gives a name that is not
  -- empty, where no call of the operating system fails and the mailbox's index is not damaged, is
  -- answered with what the index lists, in its order, and changes no file.
  pub mailbox_list-listing :
      (req : Request) (name : Bytes) (s : Store)
      → parse_mailbox_name lib.unicode req.name ≡ named name
      → name ≢ []
      → is_whole (find (index_path (path_of name)) s.disk) ≡ true
      → (t : Store) × (mailbox_list lib.unicode files mime req (calm s)
          ≡ (listed (map (header_of name) (listing (path_of name) s.disk)), t))
        × (t.disk ≡ s.disk)
  unfolding new_mailbox
  mailbox_list-listing req name s e ne w =
      let h = s.next_mailbox in
      let o = with_object name (calm s) in
      let fresh : o.mailboxes h
          ≡ record { name = name; path = path_of name; index_loaded = false; messages = [] } =
        ground arith in
      let (ps, t, got, fields, disk) =
        get_messages-listing h o (ap (λ mb. mb.index_loaded) fresh)
          (ap (λ mb. is_whole (find (index_path mb.path) s.disk)) fresh ∙ w) in
      (
        t,
        mailbox_list_lem lib.unicode files mime req name h ps (calm s) o t e
              (mailbox_for-named req.name name (calm s) e ne) got
            ∙ ap (λ l. (listed l, t))
                (json_headers name ps t
                  ∙ ap (map (header_of name)) (fields ∙ ap (λ mb. listing mb.path s.disk) fresh)),
        disk,
      )

  -- A request to purge a mailbox, by a text that `ParseMailboxName` gives a name that is not empty,
  -- where no call of the operating system fails, is answered OK, leaves no file in the mailbox's
  -- directory, and every file of another directory.
  pub mailbox_purge-empty :
      (req : Request) (name : Bytes) (s : Store)
      → parse_mailbox_name lib.unicode req.name ≡ named name
      → name ≢ []
      → (t : Store) × (mailbox_purge lib.unicode files mime req (calm s) ≡ (ok, t))
        × ((q : FilePath)
            → 3 < length q
            → file_at q t.disk ≡ (if is_under (path_of name) q then none else file_at q s.disk))
  unfolding new_mailbox mailbox_path
  mailbox_purge-empty req name s e ne =
      let h = s.next_mailbox in
      let o = with_object name (calm s) in
      let place : (o.mailboxes h).path ≡ path_of name = ground arith in
      let (done, files_left) = purge-empty h o in
      (
        (purge h o).1,
        mailbox_purge_lem lib.unicode files mime req name h (calm s) o (purge h o).1 e
            (mailbox_for-named req.name name (calm s) e ne)
            (ap (λ r. (is_some r, (purge h o).1)) done),
        λ q deep.
            subst
              (λ path.
                length path < length q
                → file_at q (purge h o).1.disk
                  ≡ (if is_under path q then none else file_at q s.disk))
              place (files_left q) deep,
      )
