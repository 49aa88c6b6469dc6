-- ===== src/FileStore/Interface.antt =====
-- The interface of smtpd/datastore.go as the file store implements it.
use inbucket.Common.{ℕ, Bool}
use inbucket.DataStore.{DataStore}
use inbucket.FileStore.Files.{is_some}
use inbucket.FileStore.{Library, Store, M}
use inbucket.FileStore.Mailbox.{mailbox_for, all_mailboxes, get_messages, get_message, purge}
use inbucket.FileStore.Message.{
  new_message, read_raw, read_header, read_body, append, close, delete,
}

-- Whether a method returned no error, and the store behind it.
abbrev pub succeeded : M (Unit {0}) → Store → Bool × Store
succeeded m s = (is_some (m s).0, (m s).1)

-- A reader of a raw file changes no file; the calls of the operating system that it takes are
-- those ahead of the next method.
abbrev pub file_store : Library → ℕ → DataStore
file_store lib message_cap = record {
  Store = Store;
  Mailbox = ℕ;
  Message = ℕ;
  Header = lib.Header;
  Body = lib.Envelope;
  mailbox_for = mailbox_for lib;
  all_mailboxes = all_mailboxes;
  get_messages = get_messages;
  get_message = get_message;
  purge = λ h. succeeded (purge h);
  new_message = new_message lib message_cap;
  name = λ h s. (s.mailboxes h).name;
  id = λ p s. (s.messages p).fields.fid;
  from = λ p s. (s.messages p).fields.ffrom;
  to = λ p s. (s.messages p).fields.fto;
  date = λ p s. (s.messages p).fields.fdate;
  subject = λ p s. (s.messages p).fields.fsubject;
  size = λ p s. (s.messages p).fields.fsize;
  raw = λ p s. (read_raw p s).0;
  read_header = read_header lib;
  read_body = read_body lib;
  append = λ p bytes. succeeded (append p bytes);
  close = λ p. succeeded (close lib p);
  delete = λ p. succeeded (delete p);
}
