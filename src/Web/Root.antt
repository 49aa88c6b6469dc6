-- ===== src/Web/Root.antt =====
-- webui/root_controller.go: the pages that belong to no message.
use inbucket.Common.{none, some, if◌then◌else◌, not}
use inbucket.Web.{
  Site, State, Answer, Vars, monitor_disabled, failed, root_page, monitor_page, status_page, refuse,
  with_flashes,
}
use inbucket.Web.Mailbox.{with_name, flash_name}

module _ (site : Site) where
  -- `RootIndex`, where the file of the greeting may be missing.
  unfoldable pub root_index : State site → Answer site
  root_index w = elim site.greeting [
    | none ↦ (failed, w)
    | some greeting ↦ with_flashes site (λ errors. root_page errors greeting) w
  ]

  -- `RootMonitor`.
  unfoldable pub root_monitor : State site → Answer site
  root_monitor =
      if not site.monitor_visible
      then refuse site monitor_disabled
      else with_flashes site (λ errors. monitor_page errors none)

  -- `RootMonitorMailbox`
  unfoldable pub root_monitor_mailbox : Vars → State site → Answer site
  root_monitor_mailbox vars =
      if not site.monitor_visible
      then refuse site monitor_disabled
      else with_name site (flash_name site) vars.name
          λ name. with_flashes site (λ errors. monitor_page errors (some name))

  -- `RootStatus`
  unfoldable pub root_status : State site → Answer site
  root_status = with_flashes site status_page
