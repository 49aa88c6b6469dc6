-- ===== src/Web/Routes.antt =====
-- webui/routes.go: the handlers by their routes, all of them for GET.
use inbucket.Web.{Site, State, Answer, Vars}
use inbucket.Web.Mailbox.{
  mailbox_index, mailbox_link, mailbox_list, mailbox_show, mailbox_html, mailbox_source,
  mailbox_download_attach, mailbox_view_attach,
}
use inbucket.Web.Root.{root_index, root_monitor, root_monitor_mailbox, root_status}

pub data Route : Type 0 where
  root monitor monitor_mailbox status : Route
  link index list show html source download_attach view_attach : Route

module _ (site : Site) where
  -- The handler of a route.
  unfoldable pub serve : Route → Vars → State site → Answer site
  serve root vars = root_index site
  serve monitor vars = root_monitor site
  serve monitor_mailbox vars = root_monitor_mailbox site vars
  serve status vars = root_status site
  serve link vars = mailbox_link site vars
  serve index vars = mailbox_index site vars
  serve list vars = mailbox_list site vars
  serve show vars = mailbox_show site vars
  serve html vars = mailbox_html site vars
  serve source vars = mailbox_source site vars
  serve download_attach vars = mailbox_download_attach site vars
  serve view_attach vars = mailbox_view_attach site vars
