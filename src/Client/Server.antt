-- ===== src/Client/Server.antt =====
-- The client against the server on the file store.
use inbucket.Common.{
  ℕ, ◌<◌, ◌≡◌, ◌≢◌, refl, ap, ◌∙◌, arith, Bool, true, false, not, none, some, List, [], ◌∷◌, ◌++◌,
  map, length, is_nil, if◌then◌else◌, Unicode, Bytes,
}
use inbucket.Address.Mailbox.{named, parse_mailbox_name}
use inbucket.Client.{
  Urls, Json, sent_header, base, send_request, do_json, list_mailbox, delete_message, purge_mailbox,
}
use inbucket.DataStore.{DataStore}
use inbucket.FileStore.{Library, Store}
use inbucket.FileStore.Files.{FilePath, find, file_at, is_under}
use inbucket.FileStore.Index.{index_path}
use inbucket.FileStore.Index.Loaded.{is_whole}
use inbucket.FileStore.Index.Written.{calm, listing}
use inbucket.Httpd.{Answer, serve_http}
use inbucket.Rest.{
  Request, Response, listed, ok, not_found, error, JsonMessageHeader, Mime, mailbox_list,
  mailbox_purge, mailbox_delete,
}
use inbucket.Rest.Deleting.{has_id, without_id, is_not_found, mailbox_delete-listing}
use inbucket.Rest.Listing.{files, path_of, header_of, mailbox_list-listing, mailbox_purge-empty}
use inbucket.Rest.Routes.{Method, find_route, run_handler, serve_api}

-- Whether a response has the status of success.
abbrev is_success : {H : Type 0} → Response H → Bool
is_success not_found = false
is_success error = false
is_success _ = true

not_found-fails : {H : Type 0} (r : Response H) → is_not_found r ≡ true → is_success r ≡ false
not_found-fails r e = ground arith

module _ (unicode : Unicode) (ds : DataStore) (mime : Mime ds.Body) (urls : Urls)
    (json : Json ds.Header) (host : Bytes) where
  abbrev api : Method → List Bytes → ds.Store → Answer (Response ds.Header) × ds.Store
  api = serve_api unicode ds mime host

  list_mailbox_lem :
      (local : Bytes) (hs : List JsonMessageHeader) (st st' : ds.Store)
      → urls.segments (base ++ urls.query_escape local) ≡ some (local ∷ [])
      → is_nil local ≡ false
      → mailbox_list unicode ds mime (record { name = local; id = []; host = host }) st
        ≡ (listed hs, st')
      → list_mailbox urls json api local st ≡ (some (map (sent_header json) hs), st')
  unfolding list_mailbox do_json send_request serve_api find_route run_handler serve_http
  list_mailbox_lem local hs st st' u n e = ground (arith, u, n, e)

  purge_mailbox_lem :
      (local : Bytes) (st st' : ds.Store)
      → urls.segments (base ++ urls.query_escape local) ≡ some (local ∷ [])
      → is_nil local ≡ false
      → mailbox_purge unicode ds mime (record { name = local; id = []; host = host }) st ≡ (ok, st')
      → purge_mailbox urls json api local st ≡ (true, st')
  unfolding purge_mailbox send_request serve_api find_route run_handler serve_http
  purge_mailbox_lem local st st' u n e = ground (arith, u, n, e)

  delete_message_lem :
      (local id : Bytes) (r : Response ds.Header) (st st' : ds.Store)
      → urls.segments (base ++ (urls.query_escape local ++ b'/' ∷ id)) ≡ some (local ∷ id ∷ [])
      → is_nil local ≡ false
      → is_nil id ≡ false
      → mailbox_delete unicode ds mime (record { name = local; id = id; host = host }) st ≡ (r, st')
      → delete_message urls json api local id st ≡ (is_success r, st')
  unfolding delete_message send_request serve_api find_route run_handler serve_http
  delete_message_lem local id r st st' u n m e = ground (arith, u, n, m, e)

module _ (lib : Library) (message_cap : ℕ) (mime : Mime lib.Envelope) (urls : Urls)
    (json : Json lib.Header) (host : Bytes) where
  -- The server on the file store.
  abbrev pub server : Method → List Bytes → Store → Answer (Response lib.Header) × Store
  server = serve_api lib.unicode (files lib message_cap mime) mime host

  -- What the client sends arrives: the router reads back the name from the URL of a call.
  abbrev pub Arrives : Bytes → Type 0
  Arrives local = urls.segments (base ++ urls.query_escape local) ≡ some (local ∷ [])

  abbrev pub ArrivesWith : Bytes → Bytes → Type 0
  ArrivesWith local id =
      urls.segments (base ++ (urls.query_escape local ++ b'/' ∷ id)) ≡ some (local ∷ id ∷ [])

  -- Where the router reads back the name from the URL, the name is one that `ParseMailboxName` gives
  -- a name that is not empty, no call of the operating system fails and the index is not damaged,
  -- `ListMailbox` of the client returns the headers of what the index on the server's disk lists,
  -- as JSON carries them, and changes no file.
  pub list_mailbox-listing :
      (local name : Bytes) (s : Store)
      → Arrives local
      → is_nil local ≡ false
      → parse_mailbox_name lib.unicode local ≡ named name
      → name ≢ []
      → is_whole (find (index_path (path_of lib message_cap mime name)) s.disk) ≡ true
      → (t : Store) × (list_mailbox urls json server local (calm s) ≡ (
        some (
            map
              (sent_header json)
              (map (header_of name) (listing (path_of lib message_cap mime name) s.disk))),
        t,
      ))
        × (t.disk ≡ s.disk)
  list_mailbox-listing local name s u n e ne w =
      let req : Request = record { name = local; id = []; host = host } in
      let (t, answered, disk) = mailbox_list-listing lib message_cap mime req name s e ne w in
      (
        t,
        list_mailbox_lem lib.unicode (files lib message_cap mime) mime urls json host local _
            (calm s) t u n answered,
        disk,
      )

  -- `PurgeMailbox` of the client, where no call of the operating system fails, succeeds, and leaves no
  -- file in the directory of the mailbox and every other file.
  pub purge_mailbox-empty :
      (local name : Bytes) (s : Store)
      → Arrives local
      → is_nil local ≡ false
      → parse_mailbox_name lib.unicode local ≡ named name
      → name ≢ []
      → (t : Store) × (purge_mailbox urls json server local (calm s) ≡ (true, t))
        × ((q : FilePath)
            → 3 < length q
            → file_at q t.disk
              ≡ (if is_under (path_of lib message_cap mime name) q then none else file_at q s.disk))
  purge_mailbox-empty local name s u n e ne =
      let req : Request = record { name = local; id = []; host = host } in
      let (t, answered, left) = mailbox_purge-empty lib message_cap mime req name s e ne in
      (
        t,
        purge_mailbox_lem lib.unicode (files lib message_cap mime) mime urls json host local
            (calm s) t u n answered,
        left,
      )

  -- `DeleteMessage` of the client, where no call of the operating system fails and the index is not
  -- damaged, takes the first message of the identifier off the index, and returns an error if the
  -- index lists none.
  pub delete_message-listing :
      (local id name : Bytes) (s : Store)
      → ArrivesWith local id
      → is_nil local ≡ false
      → is_nil id ≡ false
      → parse_mailbox_name lib.unicode local ≡ named name
      → name ≢ []
      → is_whole (find (index_path (path_of lib message_cap mime name)) s.disk) ≡ true
      → let path = path_of lib message_cap mime name in
        let r = delete_message urls json server local id (calm s) in
        (listing path r.1.disk ≡ without_id id (listing path s.disk))
        × (has_id id (listing path s.disk) ≡ false → r.0 ≡ false)
  delete_message-listing local id name s u n m e ne w =
      let path = path_of lib message_cap mime name in
      let req : Request = record { name = local; id = id; host = host } in
      let (result, left) =
        mailbox_delete lib.unicode (files lib message_cap mime) mime req (calm s) in
      let (gone, missing) = mailbox_delete-listing lib message_cap mime req name s e ne w in
      let done =
        delete_message_lem lib.unicode (files lib message_cap mime) mime urls json host local id
          result (calm s) left u n m refl in
      (
        ap (λ r. listing path r.1.disk) done ∙ gone,
        λ h. ap (λ r. r.0) done ∙ not_found-fails result (missing ∙ ap not h),
      )
