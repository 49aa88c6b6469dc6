-- ===== src/Tests/Store.antt =====
-- A data store in memory, at which the theorems over any data store are instantiated.
use inbucket.Common.{true, none, some, List, [], ◌∷◌, ◌++◌, Bytes, is_nil, if◌then◌else◌}
use inbucket.DataStore.{DataStore, not_exist}

-- The store is the bytes of all messages; a mailbox is its name, and a message the name too.
abbrev pub memory : DataStore
memory = record {
  Store = List Bytes;
  Mailbox = Bytes;
  Message = Bytes;
  Header = Bytes;
  Body = Bytes;
  mailbox_for = λ local st. (if is_nil local then none else some local, st);
  all_mailboxes = λ st. (none, st);
  get_messages = λ mb st. (none, st);
  get_message = λ mb id st. (not_exist, st);
  purge = λ mb st. (true, []);
  new_message = λ mb st. (some mb, st);
  name = λ mb st. mb;
  id = λ m st. m;
  from = λ m st. [];
  to = λ m st. [];
  date = λ m st. 0;
  subject = λ m st. [];
  size = λ m st. 0;
  raw = λ m st. none;
  read_header = λ m st. (none, st);
  read_body = λ m st. (none, st);
  append = λ m bytes st. (true, st ++ bytes ∷ []);
  close = λ m st. (true, st);
  delete = λ m st. (true, []);
}
