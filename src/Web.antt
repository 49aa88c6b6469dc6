-- ===== src/Web.antt =====
-- What the handlers of webui share: a request, the pages that they answer with, and the session of a
-- browser, which is kept by gorilla/sessions. What is written of a page is taken to reach the client.
pub mod Html
pub mod Mailbox
pub mod Root
pub mod Routes
pub mod Api
pub mod Reading
pub mod Files
use inbucket.Common.{Bool, Option, List, if◌then◌else◌, Unicode, Bytes}
use inbucket.Address.Mailbox.{MailboxError}
use inbucket.DataStore.{DataStore}
use inbucket.Rest.{Mime}
use inbucket.Web.Html.{Escaping}

-- The texts of `AddFlash`; that of a name is the error of `ParseMailboxName`.
pub data Flash : Type 0 where
  account_required not_numeric too_high monitor_disabled : Flash
  bad_name : MailboxError → Flash

-- A session of a browser: the flashes under `errors`, `Save`, which may fail, and the value under
-- `recentMailboxes`.
pub record Sessions : Type 1 where
  pub Session : Type 0
  pub add_flash : Flash → Session → Session
  pub flashes : Session → List Flash × Session
  pub save : Session → Bool × Session
  pub recent : Session → List Bytes
  pub set_recent : List Bytes → Session → Session

-- The variables of a route, or the values of a form.
pub record Vars : Type 0 where
  pub name : Bytes
  pub id : Bytes
  pub num : Bytes

-- A redirect, the data of a template, what is written as it is, or the error that is returned. The
-- page of a message shows the errors and the attachments of its envelope.
pub data Page (Message Body : Type 0) : Type 0 where
  to_root missing failed : Page Message Body
  to_message : Bytes → Bytes → Page Message Body
  index_page : List Flash → Bytes → Bytes → Page Message Body
  list_page : Bytes → List Message → Page Message Body
  show_page : Bytes → Message → Bytes → Bool → Body → Page Message Body
  html_page : Bytes → Message → Bytes → Page Message Body
  source_page : Bytes → Page Message Body
  download_page : Bytes → Page Message Body
  view_page : Bytes → Bytes → Page Message Body
  root_page : List Flash → Bytes → Page Message Body
  monitor_page : List Flash → Option Bytes → Page Message Body
  status_page : List Flash → Page Message Body

-- The parts of the server that the handlers use: the data store, the file of the greeting, and
-- `MonitorVisible` of the configuration.
pub record Site : Type 1 where
  pub unicode : Unicode
  pub html : Escaping
  pub sessions : Sessions
  pub data_store : DataStore
  pub mime : Mime data_store.Body
  pub greeting : Option Bytes
  pub monitor_visible : Bool

-- The session of the request and the data store.
pub record State (site : Site) : Type 0 where
  pub session : site.sessions.Session
  pub store : site.data_store.Store

module _ (site : Site) where
  abbrev pub Answer : Type 0
  Answer = Page site.data_store.Message site.data_store.Body × State site

  -- A flash, and a redirect to the root page.
  unfoldable pub refuse : Flash → State site → Answer
  refuse flash w = (
    to_root,
    record w { session = (site.sessions.save (site.sessions.add_flash flash w.session)).1 },
  )

  -- A page with the flashes of the session, which is saved.
  unfoldable pub with_flashes :
      (List Flash → Page site.data_store.Message site.data_store.Body) → State site → Answer
  with_flashes page w =
      let (flashes, session) = site.sessions.flashes w.session in
      let (saved, session') = site.sessions.save session in
      (if saved then page flashes else failed, record w { session = session' })
