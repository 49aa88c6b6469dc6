-- ===== src/Rest/Routes.antt =====
-- rest/routes.go: the handlers by method and path, behind `ServeHTTP`.
use inbucket.Common.{
  ◌||◌, Option, none, some, List, [], ◌∷◌, if◌then◌else◌, is_nil, Unicode, Bytes, codes, equal,
}
use inbucket.DataStore.{DataStore}
use inbucket.Httpd.{Handled, wrote, failed, Answer, serve_http}
use inbucket.Rest.{
  Request, Response, not_found, error, Mime, mailbox_list, mailbox_show, mailbox_purge,
  mailbox_source, mailbox_delete,
}

pub data Method : Type 0 where
  get delete : Method

pub data Route : Type 0 where
  list_route purge_route show_route delete_route source_route : Route

-- What the router of gorilla finds for the segments of a path behind `/api/v1/mailbox`: the
-- variables `{name}` and `{id}` stand for one segment that is not empty.
unfoldable pub find_route : Method → List Bytes → Option (Route × Bytes × Bytes)
find_route method [] = none
find_route method (name ∷ []) =
    if is_nil name
    then none
    else elim method [ get ↦ some (list_route, name, []) | delete ↦ some (purge_route, name, []) ]
find_route method (name ∷ id ∷ []) =
    if is_nil name || is_nil id
    then none
    else elim method [ get ↦ some (show_route, name, id) | delete ↦ some (delete_route, name, id) ]
find_route method (name ∷ id ∷ tail ∷ []) = if is_nil name || is_nil id then none else elim method [
  | get ↦ if equal tail (codes "source") then some (source_route, name, id) else none
  | delete ↦ none
]
find_route method (name ∷ id ∷ tail ∷ more ∷ path) = none

-- The status that a handler writes.
abbrev pub handled : {Header : Type 0} → Response Header → Handled (Response Header)
handled not_found = wrote 404 not_found
handled error = failed
handled r = wrote 200 r

module _ (unicode : Unicode) (ds : DataStore) (mime : Mime ds.Body) where
  unfoldable pub run_handler : Route → Request → ds.Store → Response ds.Header × ds.Store
  run_handler list_route req = mailbox_list unicode ds mime req
  run_handler purge_route req = mailbox_purge unicode ds mime req
  run_handler show_route req = mailbox_show unicode ds mime req
  run_handler delete_route req = mailbox_delete unicode ds mime req
  run_handler source_route req = mailbox_source unicode ds mime req

  -- A request to the server with a path, its context made without an error.
  unfoldable pub serve_api :
      Bytes → Method → List Bytes → ds.Store → Answer (Response ds.Header) × ds.Store
  unfolding find_route run_handler serve_http
  serve_api host method path st = elim (find_route method path) [
    | none ↦ (record { status = 404; body = none }, st)
    | some (route, name, id) ↦
        let req : Request = record { name = name; id = id; host = host } in
        serve_http (some req)
          (λ req st. let (r, st') = run_handler route req st in (handled r, st')) st
  ]
