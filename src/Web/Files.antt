-- ===== src/Web/Files.antt =====
-- The web pages on the file store.
use inbucket.Common.{ℕ, ◌≡◌, arith, Bool, Option, Bytes}
use inbucket.FileStore.{Library}
use inbucket.FileStore.Files.{Disk}
use inbucket.FileStore.Interface.{file_store}
use inbucket.FileStore.Mailbox.{mailbox_for, new_mailbox, load_index, get_messages, get_message}
use inbucket.FileStore.Message.{read_body}
use inbucket.Rest.{Mime}
use inbucket.Web.{Site, Sessions, Vars, State}
use inbucket.Web.Html.{Escaping}
use inbucket.Web.Reading.{Readable, serve-Keeps}
use inbucket.Web.Routes.{Route, serve}
use inbucket.FileStore.Mailbox.Unchanged.{
  KeepsDisk-load_index, disk-find_message, KeepsDisk-read_raw,
}

module _ (lib : Library) (message_cap : ℕ) where
  file_store-Readable : Readable (file_store lib message_cap) Disk (λ s. s.disk)
  unfolding mailbox_for new_mailbox get_messages get_message read_body
  file_store-Readable = record {
    mailbox_for = λ name s. ground arith;
    get_messages = λ h s. ground (arith, KeepsDisk-load_index h s);
    get_message = λ h id s.
        let t = (load_index h s).1 in
        ground (arith, KeepsDisk-load_index h s, disk-find_message id (t.mailboxes h).messages t);
    read_body = λ p s. ground (arith, KeepsDisk-read_raw p s);
  }

  abbrev pub site_of : Escaping → Sessions → Mime lib.Envelope → Option Bytes → Bool → Site
  site_of html sessions mime greeting monitor_visible = record {
    unicode = lib.unicode;
    html = html;
    sessions = sessions;
    data_store = file_store lib message_cap;
    mime = mime;
    greeting = greeting;
    monitor_visible = monitor_visible;
  }

  -- Every page of the web interface, for any request and session and whatever the operating system
  -- answers, leaves each file of the file store as it is.
  pub serve-disk :
      (html : Escaping) (sessions : Sessions) (mime : Mime lib.Envelope) (greeting : Option Bytes)
      (monitor_visible : Bool) (route : Route) (vars : Vars)
      (w : State (site_of html sessions mime greeting monitor_visible))
      → (serve (site_of html sessions mime greeting monitor_visible) route vars w).1.store.disk
        ≡ w.store.disk
  serve-disk html sessions mime greeting monitor_visible =
      serve-Keeps (site_of html sessions mime greeting monitor_visible) Disk (λ s. s.disk)
        file_store-Readable
