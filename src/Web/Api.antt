-- ===== src/Web/Api.antt =====
-- The web pages and the REST handlers of a mailbox.
use inbucket.Common.{◌≡◌, arith, [], map}
use inbucket.Rest.{Request, Response, listed, source, not_found, error, json_header}
use inbucket.Rest
use inbucket.Web.{Site, State, Answer, Vars, missing, list_page, source_page}
use inbucket.Web.Mailbox.{
  with_name, with_mailbox, with_message, find_in, list_messages, send_source, mailbox_list,
  mailbox_source,
}

abbrev pub vars_of : Request → Vars
vars_of req = record { name = req.name; id = req.id; num = [] }

module _ (site : Site) where
  -- What the REST handlers answer where a page shows a list or a source.
  abbrev pub response_of : Answer site → Response site.data_store.Header
  response_of (list_page name ms, w) =
      listed (map (λ m. json_header site.unicode site.data_store site.mime name m w.store) ms)
  response_of (source_page bytes, w) = source bytes
  response_of (missing, w) = not_found
  response_of (_, w) = error

  -- The page and the REST handler of a mailbox's list, and those of a message's source, take the
  -- same steps on any data store and show the same; the pages leave the session as it is.
  pub mailbox_list-response_of :
      (req : Request) (w : State site)
      → let list = mailbox_list site (vars_of req) w in
        let text = mailbox_source site (vars_of req) w in
        (Rest.mailbox_list site.unicode site.data_store site.mime req w.store
          ≡ (response_of list, list.1.store))
        × (Rest.mailbox_source site.unicode site.data_store site.mime req w.store
            ≡ (response_of text, text.1.store))
        × (list.1.session ≡ w.session)
        × (text.1.session ≡ w.session)
  unfolding with_name with_mailbox with_message find_in list_messages send_source mailbox_list
      mailbox_source Rest.with_mailbox Rest.with_message Rest.mailbox_list Rest.mailbox_source
  mailbox_list-response_of req w = (ground arith, ground arith, ground arith, ground arith)
