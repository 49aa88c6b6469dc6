-- ===== src/Web/Mailbox.antt =====
-- webui/mailbox_controller.go: the handlers of mailboxes and messages, over any data store. The
-- router passes a name and an identifier that are not empty.
use inbucket.Common.{ℕ, not, none, some, if◌then◌else◌, is_nil, get_elem?, parse_uint32, Bytes}
use inbucket.Address.Mailbox.{MailboxError, named, refused, parse_mailbox_name}
use inbucket.DataStore.{found, not_exist, lookup_failed}
use inbucket.Recent.{remember_mailbox}
use inbucket.Rest.{Attachment}
use inbucket.Web.{
  account_required, not_numeric, too_high, bad_name, Site, State, Answer, Vars, Page, to_message,
  missing, failed, index_page, list_page, show_page, html_page, source_page, download_page,
  view_page, refuse, with_flashes,
}
use inbucket.Web.Html.{text_to_html}

module _ (site : Site) where
  -- A name that is not valid is answered with a flash, or with an error.
  unfoldable pub with_name :
      (MailboxError → State site → Answer site)
      → Bytes
      → (Bytes → State site → Answer site)
      → State site
      → Answer site
  with_name refusal local handle w = elim (parse_mailbox_name site.unicode local) [
    | refused e ↦ refusal e w
    | named name ↦ handle name w
  ]

  abbrev pub flash_name : MailboxError → State site → Answer site
  flash_name e = refuse site (bad_name e)

  abbrev pub fail_name : MailboxError → State site → Answer site
  fail_name e w = (failed, w)

  unfoldable pub with_mailbox :
      Bytes → (site.data_store.Mailbox → State site → Answer site) → State site → Answer site
  with_mailbox name handle w =
      let (mailbox, st) = site.data_store.mailbox_for name w.store in
      elim mailbox [
        | none ↦ (failed, record w { store = st })
        | some mb ↦ handle mb (record w { store = st })
      ]

  -- The message of an identifier in a mailbox.
  unfoldable pub find_in :
      Bytes
      → (site.data_store.Message → State site → Answer site)
      → site.data_store.Mailbox
      → State site
      → Answer site
  find_in id handle mb w =
      let (result, st) = site.data_store.get_message mb id w.store in
      elim result [
        | found m ↦ handle m (record w { store = st })
        | not_exist ↦ (missing, record w { store = st })
        | lookup_failed ↦ (failed, record w { store = st })
      ]

  unfoldable pub with_message :
      Bytes
      → Bytes
      → (site.data_store.Message → State site → Answer site)
      → State site
      → Answer site
  unfolding with_mailbox find_in
  with_message name id handle = with_mailbox name (find_in id handle)

  unfoldable pub with_body :
      site.data_store.Message
      → (site.data_store.Body → State site → Answer site)
      → State site
      → Answer site
  with_body m handle w =
      let (body, st) = site.data_store.read_body m w.store in
      elim body [
        | none ↦ (failed, record w { store = st })
        | some b ↦ handle b (record w { store = st })
      ]

  -- A mailbox is visited, with a message selected.
  unfoldable pub visit : Bytes → Bytes → State site → Answer site
  visit selected name w =
      with_flashes site (λ errors. index_page errors name selected)
        (record w {
          session =
              site.sessions.set_recent (remember_mailbox name (site.sessions.recent w.session))
                w.session;
        })

  -- `MailboxIndex`
  unfoldable pub mailbox_index : Vars → State site → Answer site
  unfolding with_name visit
  mailbox_index vars =
      if is_nil vars.name
      then refuse site account_required
      else with_name flash_name vars.name (visit vars.id)

  -- `MailboxLink`
  unfoldable pub mailbox_link : Vars → State site → Answer site
  unfolding with_name
  mailbox_link vars = with_name flash_name vars.name λ name w. (to_message name vars.id, w)

  unfoldable pub list_messages : Bytes → site.data_store.Mailbox → State site → Answer site
  list_messages name mb w =
      let (messages, st) = site.data_store.get_messages mb w.store in
      elim messages [
        | none ↦ (failed, record w { store = st })
        | some ms ↦ (list_page name ms, record w { store = st })
      ]

  -- `MailboxList`
  unfoldable pub mailbox_list : Vars → State site → Answer site
  unfolding with_name with_mailbox list_messages
  mailbox_list vars = with_name fail_name vars.name λ name. with_mailbox name (list_messages name)

  -- The handlers of the two pages of an envelope.
  unfoldable pub body_page :
      (Bytes
        → site.data_store.Message
        → site.data_store.Body
        → Page site.data_store.Message site.data_store.Body)
      → Vars
      → State site
      → Answer site
  unfolding with_name with_message with_body
  body_page page vars =
      with_name fail_name vars.name
        λ name. with_message name vars.id λ m. with_body m λ b w. (page name m b, w)

  abbrev pub show_body :
      Bytes
      → site.data_store.Message
      → site.data_store.Body
      → Page site.data_store.Message site.data_store.Body
  show_body name m b =
      show_page name m (text_to_html site.html (site.mime.text b)) (not (is_nil (site.mime.html b)))
        b

  abbrev pub html_body :
      Bytes
      → site.data_store.Message
      → site.data_store.Body
      → Page site.data_store.Message site.data_store.Body
  html_body name m b = html_page name m (site.mime.html b)

  -- `MailboxShow`
  unfoldable pub mailbox_show : Vars → State site → Answer site
  unfolding body_page
  mailbox_show = body_page show_body

  -- `MailboxHTML`
  unfoldable pub mailbox_html : Vars → State site → Answer site
  unfolding body_page
  mailbox_html = body_page html_body

  unfoldable pub send_source : site.data_store.Message → State site → Answer site
  send_source m w = elim (site.data_store.raw m w.store) [
    | none ↦ (failed, w)
    | some bytes ↦ (source_page bytes, w)
  ]

  -- `MailboxSource`
  unfoldable pub mailbox_source : Vars → State site → Answer site
  unfolding with_name with_message send_source
  mailbox_source vars = with_name fail_name vars.name λ name. with_message name vars.id send_source

  -- The end of the two handlers of an attachment, which differ in the page.
  unfoldable pub send_part :
      (Attachment → Page site.data_store.Message site.data_store.Body)
      → ℕ
      → site.data_store.Body
      → State site
      → Answer site
  send_part page num b w = elim (get_elem? (site.mime.attachments b) num) [
    | none ↦ refuse site too_high w
    | some part ↦ (page part, w)
  ]

  unfoldable pub with_number : (ℕ → State site → Answer site) → Bytes → State site → Answer site
  with_number handle num w = elim (parse_uint32 num) [
    | none ↦ refuse site not_numeric w
    | some n ↦ handle n w
  ]

  -- The two handlers of an attachment.
  unfoldable pub with_attachment :
      (Attachment → Page site.data_store.Message site.data_store.Body)
      → Vars
      → State site
      → Answer site
  unfolding with_name with_number with_message with_body send_part
  with_attachment page vars = with_name flash_name vars.name λ name.
      with_number (λ num. with_message name vars.id λ m. with_body m (send_part page num)) vars.num

  -- `MailboxDownloadAttach`
  unfoldable pub mailbox_download_attach : Vars → State site → Answer site
  unfolding with_attachment
  mailbox_download_attach = with_attachment λ part. download_page part.content

  -- `MailboxViewAttach`
  unfoldable pub mailbox_view_attach : Vars → State site → Answer site
  unfolding with_attachment
  mailbox_view_attach = with_attachment λ part. view_page part.content_type part.content
