-- ===== src/Web/Reading.antt =====
-- What the web pages leave of the data store.
use inbucket.Common.{
  ℕ, ◌≡◌, refl, ◌∙◌, arith, Bool, Option, none, some, List, Bytes, is_nil, true, false, not,
  if◌then◌else◌, parse_uint32,
}
use inbucket.Address.Mailbox.{MailboxError, MailboxResult, named, refused, parse_mailbox_name}
use inbucket.DataStore.{DataStore, Lookup, found, not_exist, lookup_failed}
use inbucket.Rest.{Attachment}
use inbucket.Web.{
  Flash, monitor_disabled, account_required, monitor_page, download_page, view_page, to_message,
  missing, failed, list_page, not_numeric, Page, Site, State, Answer, Vars, refuse, with_flashes,
}
use inbucket.Web.Mailbox.{
  visit, body_page, show_body, html_body, with_name, flash_name, fail_name, find_in, list_messages,
  send_source, with_number, send_part, with_mailbox, with_message, with_body, mailbox_index,
  mailbox_link, mailbox_list, mailbox_show, mailbox_html, mailbox_source, with_attachment,
  mailbox_download_attach, mailbox_view_attach,
}
use inbucket.Web.Root.{root_index, root_monitor, root_monitor_mailbox, root_status}
use inbucket.Web.Routes.{
  Route, root, monitor, monitor_mailbox, status, link, index, list, show, html, source,
  download_attach, view_attach, serve,
}

-- A view of a data store that its reading operations keep.
pub record Readable (ds : DataStore) (View : Type 0) (view : ds.Store → View) : Type 0 where
  pub mailbox_for : (name : Bytes) (st : ds.Store) → view (ds.mailbox_for name st).1 ≡ view st
  pub get_messages : (mb : ds.Mailbox) (st : ds.Store) → view (ds.get_messages mb st).1 ≡ view st
  pub get_message :
      (mb : ds.Mailbox) (id : Bytes) (st : ds.Store) → view (ds.get_message mb id st).1 ≡ view st
  pub read_body : (m : ds.Message) (st : ds.Store) → view (ds.read_body m st).1 ≡ view st

module _ (site : Site) (View : Type 0) (view : site.data_store.Store → View)
    (r : Readable site.data_store View view) where
  -- A handler that keeps the view.
  abbrev Keeps : (State site → Answer site) → Type 0
  Keeps handle = (w : State site) → view (handle w).1.store ≡ view w.store

  with_flashes-Keeps :
      (page : List Flash → Page site.data_store.Message site.data_store.Body)
      → Keeps (with_flashes site page)
  unfolding with_flashes
  with_flashes-Keeps page w = refl

  with_name-Keeps :
      (refusal : MailboxError → State site → Answer site) (local : Bytes)
      (handle : Bytes → State site → Answer site)
      → ((e : MailboxError) → Keeps (refusal e))
      → ((name : Bytes) → Keeps (handle name))
      → Keeps (with_name site refusal local handle)
  unfolding with_name
  with_name-Keeps refusal local handle k l w = go (parse_mailbox_name site.unicode local)
    where
      go :
          (r : MailboxResult)
          → view
              (elim r as (λ x. Answer site) [
                | refused e ↦ refusal e w
                | named name ↦ handle name w
              ]).1.store
            ≡ view w.store
      go (refused e) = k e w
      go (named name) = l name w

  -- A step that reads a store keeps the view where what follows does.
  option-Keeps :
      {A : Type 0} (o : Option A) (st : site.data_store.Store)
      (handle : A → State site → Answer site) (w : State site)
      → ((a : A) → Keeps (handle a))
      → view st ≡ view w.store
      → view
          (elim o as (λ x. Answer site) [
            | none ↦ (failed, record w { store = st })
            | some a ↦ handle a (record w { store = st })
          ]).1.store
        ≡ view w.store
  option-Keeps none st handle w k e = e
  option-Keeps (some a) st handle w k e = k a (record w { store = st }) ∙ e

  lookup-Keeps :
      {A : Type 0} (result : Lookup A) (st : site.data_store.Store)
      (handle : A → State site → Answer site) (w : State site)
      → ((a : A) → Keeps (handle a))
      → view st ≡ view w.store
      → view
          (elim result as (λ x. Answer site) [
            | found a ↦ handle a (record w { store = st })
            | not_exist ↦ (missing, record w { store = st })
            | lookup_failed ↦ (failed, record w { store = st })
          ]).1.store
        ≡ view w.store
  lookup-Keeps (found a) st handle w k e = k a (record w { store = st }) ∙ e
  lookup-Keeps not_exist st handle w k e = e
  lookup-Keeps lookup_failed st handle w k e = e

  with_mailbox-Keeps :
      (name : Bytes) (handle : site.data_store.Mailbox → State site → Answer site)
      → ((mb : site.data_store.Mailbox) → Keeps (handle mb))
      → Keeps (with_mailbox site name handle)
  unfolding with_mailbox
  with_mailbox-Keeps name handle k w =
      let (mailbox, st) = site.data_store.mailbox_for name w.store in
      option-Keeps mailbox st handle w k (r.mailbox_for name w.store)

  with_message-Keeps :
      (name id : Bytes) (handle : site.data_store.Message → State site → Answer site)
      → ((m : site.data_store.Message) → Keeps (handle m))
      → Keeps (with_message site name id handle)
  unfolding with_message find_in
  with_message-Keeps name id handle k = with_mailbox-Keeps name (find_in site id handle) λ mb w.
      let (result, st) = site.data_store.get_message mb id w.store in
      lookup-Keeps result st handle w k (r.get_message mb id w.store)

  with_body-Keeps :
      (m : site.data_store.Message) (handle : site.data_store.Body → State site → Answer site)
      → ((b : site.data_store.Body) → Keeps (handle b))
      → Keeps (with_body site m handle)
  unfolding with_body
  with_body-Keeps m handle k w =
      let (body, st) = site.data_store.read_body m w.store in
      option-Keeps body st handle w k (r.read_body m w.store)

  list_messages-Keeps :
      (name : Bytes) (mb : site.data_store.Mailbox) → Keeps (list_messages site name mb)
  unfolding list_messages
  list_messages-Keeps name mb w =
      let (messages, st) = site.data_store.get_messages mb w.store in
      option-Keeps messages st (λ ms w'. (list_page name ms, w')) w (λ ms w'. refl)
        (r.get_messages mb w.store)

  send_source-Keeps : (m : site.data_store.Message) → Keeps (send_source site m)
  unfolding send_source
  send_source-Keeps m w = ground arith

  with_number-Keeps :
      (handle : ℕ → State site → Answer site) (num : Bytes)
      → ((n : ℕ) → Keeps (handle n))
      → Keeps (with_number site handle num)
  unfolding with_number refuse
  with_number-Keeps handle num k w = go (parse_uint32 num)
    where
      go :
          (o : Option ℕ)
          → view
              (elim o as (λ x. Answer site) [
                | none ↦ refuse site not_numeric w
                | some n ↦ handle n w
              ]).1.store
            ≡ view w.store
      go none = refl
      go (some n) = k n w

  send_part-Keeps :
      (page : Attachment → Page site.data_store.Message site.data_store.Body) (n : ℕ)
      (b : site.data_store.Body)
      → Keeps (send_part site page n b)
  unfolding send_part refuse
  send_part-Keeps page n b w = ground arith

  with_attachment-Keeps :
      (page : Attachment → Page site.data_store.Message site.data_store.Body) (vars : Vars)
      → Keeps (with_attachment site page vars)
  unfolding with_attachment refuse
  with_attachment-Keeps page vars =
      let parts = λ (name : Bytes) (n : ℕ).
        with_message site name vars.id λ m. with_body site m (send_part site page n) in
      with_name-Keeps (flash_name site) vars.name (λ name. with_number site (parts name) vars.num)
        (λ e w. refl)
        λ name. with_number-Keeps (parts name) vars.num λ n.
          with_message-Keeps name vars.id (λ m. with_body site m (send_part site page n))
            λ m. with_body-Keeps m (send_part site page n) (send_part-Keeps page n)

  flashed-Keeps :
      (local : Bytes) (handle : Bytes → State site → Answer site)
      → ((name : Bytes) → Keeps (handle name))
      → Keeps (with_name site (flash_name site) local handle)
  unfolding refuse
  flashed-Keeps local handle = with_name-Keeps (flash_name site) local handle (λ e w. refl)

  failed-Keeps :
      (local : Bytes) (handle : Bytes → State site → Answer site)
      → ((name : Bytes) → Keeps (handle name))
      → Keeps (with_name site (fail_name site) local handle)
  failed-Keeps local handle = with_name-Keeps (fail_name site) local handle (λ e w. refl)

  tested :
      (refused : Bool) (flash : Flash) (handle : State site → Answer site)
      → Keeps handle
      → Keeps (if refused then refuse site flash else handle)
  unfolding refuse
  tested true flash handle k w = refl
  tested false flash handle k w = k w

  body_page-Keeps :
      (page : Bytes
        → site.data_store.Message
        → site.data_store.Body
        → Page site.data_store.Message site.data_store.Body)
      (vars : Vars)
      → Keeps (body_page site page vars)
  unfolding body_page
  body_page-Keeps page vars =
      failed-Keeps vars.name
        (λ name. with_message site name vars.id λ m. with_body site m λ b w. (page name m b, w))
        λ name.
          with_message-Keeps name vars.id (λ m. with_body site m λ b w. (page name m b, w))
            λ m. with_body-Keeps m (λ b w. (page name m b, w)) (λ b w. refl)

  -- Every page keeps what reading a data store keeps.
  pub serve-Keeps : (route : Route) (vars : Vars) → Keeps (serve site route vars)
  unfolding serve with_flashes visit root_index root_monitor root_monitor_mailbox root_status
      mailbox_index mailbox_link mailbox_list mailbox_show mailbox_html mailbox_source
      mailbox_download_attach mailbox_view_attach
  serve-Keeps root vars w = ground arith
  serve-Keeps monitor vars w =
      let page = with_flashes site (λ errors. monitor_page errors none) in
      tested (not site.monitor_visible) monitor_disabled page (λ w. refl) w
  serve-Keeps monitor_mailbox vars w =
      let page = λ (name : Bytes). with_flashes site (λ errors. monitor_page errors (some name)) in
      tested (not site.monitor_visible) monitor_disabled
        (with_name site (flash_name site) vars.name page)
        (flashed-Keeps vars.name page (λ name w. refl)) w
  serve-Keeps status vars w = refl
  serve-Keeps link vars w =
      flashed-Keeps vars.name (λ name w. (to_message name vars.id, w)) (λ name w. refl) w
  serve-Keeps index vars w =
      tested (is_nil vars.name) account_required
        (with_name site (flash_name site) vars.name (visit site vars.id))
        (flashed-Keeps vars.name (visit site vars.id) (λ name w. refl)) w
  serve-Keeps list vars w =
      failed-Keeps vars.name (λ name. with_mailbox site name (list_messages site name))
        (λ name. with_mailbox-Keeps name (list_messages site name) (list_messages-Keeps name)) w
  serve-Keeps show vars w = body_page-Keeps (show_body site) vars w
  serve-Keeps html vars w = body_page-Keeps (html_body site) vars w
  serve-Keeps source vars w =
      failed-Keeps vars.name (λ name. with_message site name vars.id (send_source site))
        (λ name. with_message-Keeps name vars.id (send_source site) send_source-Keeps) w
  serve-Keeps download_attach vars w =
      with_attachment-Keeps (λ part. download_page part.content) vars w
  serve-Keeps view_attach vars w =
      with_attachment-Keeps (λ part. view_page part.content_type part.content) vars w
