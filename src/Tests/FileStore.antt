-- ===== src/Tests/FileStore.antt =====
-- The file store at concrete inputs.
use inbucket.Common.{
  ℕ, ◌+◌, ◌<◌, ◌==◌, length, if◌then◌else◌, ◌≢◌, ◌≡◌, refl, arith, true, false, some, none, List,
  [], ◌∷◌, ◌++◌, Bytes, codes, to_lower, lower_byte, before, contains, equal,
}
use inbucket.FileStore.Files.{
  Meta, FilePath, directory, index_file, raw_file, find, exists, has_entries, make_dirs, parent,
  put, remove_path, remove_tree, is_under, file_at,
}
use inbucket.FileStore.{Library, Writer, FileMessage, Store, ◌>>=◌, ◌>>◌, M, call, fields_of}
use inbucket.Address.Mailbox.{
  parse_mailbox_name, invalid_bytes, is_mailbox_byte, check_name, hash_mailbox_name,
}
use inbucket.FileStore.Index
use inbucket.FileStore.Index.{index_path, write_fields}
use inbucket.FileStore.Index.Written.{calm, listing}
use inbucket.FileStore.Mailbox.{get_messages, purge, generate_id}
use inbucket.FileStore.Mailbox.Ids.{count_after, generate_id-distinct}
use inbucket.FileStore.Mailbox.Reading.{get_messages-listing}
use inbucket.FileStore.Message.{
  raw_path, raw_path_of, append, close, delete, enforce_cap, header_fields,
}
use inbucket.FileStore.Message.Appending.{append-close}
use inbucket.FileStore.Message.Deleting.{delete-listing}
use inbucket.FileStore.Message.Room.{enforce_cap-drop}
use inbucket.FileStore.Message.Stale.{delete-close}
use inbucket.FileStore.Mailbox
use inbucket.FileStore.Message
use inbucket.DataStore.{Lookup, found, not_exist, lookup_failed}
use inbucket.FileStore.Interface.{file_store}
use inbucket.FileStore.Delivery.{delivered_text, write_message-Delivered}
use inbucket.FileStore.Message.Closing.{Delivered}
use inbucket.Smtp.Delivery.{World, RecipientDetails, write_message, received_header}
use inbucket.Tests.Smtp.{server, fresh}

-- Folding leaves bytes as they are, a digest is the name thrice, a time is its number of a's, and
-- the envelope is the text.
abbrev pub plain : Library
plain = record {
  unicode = record { lower = λ s. s; upper = λ s. s };
  sha1_hex = λ s. s ++ (s ++ s);
  format = λ t. t ∷ [];
  Header = Bytes;
  read_mail_header = λ s. some s;
  Envelope = Bytes;
  read_envelope = λ s. some s;
  get_header = λ e h. h;
  parse_address = λ s. none;
  address_list = λ e h. some (h ∷ []);
}

abbrev pub empty_store : Store
empty_store = record {
  disk = ([], directory) ∷ [];
  mailboxes = λ h. record { name = []; path = []; index_loaded = false; messages = [] };
  next_mailbox = 0;
  messages = λ p. record {
    mailbox = 0;
    fields = record { fid = []; fdate = 0; ffrom = []; fto = []; fsubject = []; fsize = 0 };
    writable = false;
    writer = none;
  };
  next_message = 0;
  count = 0;
  times = 7 ∷ 8 ∷ [];
  outcomes = [];
}

abbrev read_found : (Store → Lookup ℕ × Store) → M Bytes
read_found look s =
    let (result, s') = look s in
    elim result [
      | found p ↦ Message.read_raw p s'
      | not_exist ↦ (none, s')
      | lookup_failed ↦ (none, s')
    ]

abbrev two_messages : M Bytes
two_messages = do
  h ← Mailbox.mailbox_for plain (codes "box")
  p ← Message.new_message plain 0 h
  Message.append p (codes "one")
  Message.close plain p
  q ← Message.new_message plain 0 h
  Message.append q (codes "three")
  Message.close plain q
  g ← Mailbox.mailbox_for plain (codes "box")
  ps ← Mailbox.get_messages g
  read_found (Mailbox.get_message g (8 ∷ codes "-0001"))

-- Two messages are delivered; another handle finds the second by its identifier, and its raw text.
two_messages_example : (two_messages empty_store).0 ≡ some (codes "three")
unfolding parse_mailbox_name invalid_bytes is_mailbox_byte check_name hash_mailbox_name to_lower
    lower_byte before contains equal exists find has_entries make_dirs parent put remove_path
    remove_tree Index.create_dir Index.create_file Index.decode_index Index.flush_index
    Index.load_messages Index.remove_dir Index.remove_dir_if_empty Index.write_fields
    Index.write_index Index.read_index Index.stat Mailbox.mailbox_for Mailbox.new_mailbox
    Mailbox.load_index Mailbox.mailbox_path Mailbox.new_id Mailbox.four_digits Mailbox.generate_id
    Mailbox.generate_prefix Mailbox.next_count Mailbox.get_messages Mailbox.get_message
    Mailbox.find_message Message.add_message Message.append Message.close Message.enforce_cap
    Message.open_writer Message.delete Message.make_room Message.raw_path Message.raw_path_of
    Message.remove_file Message.remove_pointer Message.write_bytes Message.spilled
    Message.new_message Message.read_raw Message.flush_writer Message.read_body
    Message.header_fields Message.add_to_index Message.index_message call fields_of
two_messages_example = refl

-- A mailbox of one message, which object 0 has loaded, and a second message that object 1 writes.
abbrev pub box : FilePath
box = codes "abc" ∷ codes "abcdef" ∷ codes "abcdefgh" ∷ []

abbrev pub old : Meta
old = record { fid = codes "old"; fdate = 1; ffrom = []; fto = []; fsubject = []; fsize = 4 }

abbrev incoming : FileMessage
incoming = record {
  mailbox = 1;
  fields = record old { fid = codes "new"; fsize = 3 };
  writable = true;
  writer = some (record { buffer = codes "new"; on_file = 0; broken = false });
}

abbrev pub two_objects : Store
two_objects = record empty_store {
  disk =
      (box, directory)
      ∷ (index_path box, index_file (old ∷ []) true)
      ∷ (raw_path box (codes "old"), raw_file (codes "text"))
      ∷ [];
  mailboxes = λ h. record {
    name = [];
    path = box;
    index_loaded = h == 0;
    messages = if h == 0 then 0 ∷ [] else [];
  };
  next_mailbox = 2;
  messages = λ p.
      if p == 0
      then record { mailbox = 0; fields = old; writable = false; writer = none }
      else incoming;
  next_message = 2;
}

abbrev written_text : Writer
written_text = record { buffer = codes "new"; on_file = 0; broken = false }

-- Its first mailbox object holds a message more.
abbrev two_held : Store
two_held = record two_objects {
  mailboxes = λ h. record (two_objects.mailboxes h) { messages = 1 ∷ 0 ∷ 1 ∷ [] };
}

delete-listing_example :
    (listing box (delete 0 (calm two_held)).1.disk ≡ fields_of two_held.messages (1 ∷ 1 ∷ []))
    × ((q : FilePath)
        → length box < length q
        → is_under box q ≡ false
        → file_at q (delete 0 (calm two_held)).1.disk ≡ file_at q two_held.disk)
delete-listing_example = delete-listing 0 (1 ∷ []) (1 ∷ []) two_held refl refl

get_messages-listing_example :
    (ps : List ℕ) × (t : Store) × (get_messages 1 (calm two_objects) ≡ (some ps, t))
    × (fields_of t.messages ps ≡ listing box two_objects.disk)
    × (t.disk ≡ two_objects.disk)
unfolding find equal
get_messages-listing_example = get_messages-listing 1 two_objects refl refl

enforce_cap-drop_example :
    let kept = ((enforce_cap 1 0 two_objects).mailboxes 0).messages in
    (kept ≡ []) × (length kept < 1)
enforce_cap-drop_example = enforce_cap-drop 1 0 two_objects (omega arith) (refl, tt)

generate_id-distinct_example : generate_id plain 7 9999 ≢ generate_id plain 8 (count_after 3 9999)
generate_id-distinct_example =
    generate_id-distinct plain 9999 3 7 8 refl (omega arith) (omega arith) (omega arith)

delete-close_example :
    let t = (close plain 1 (calm two_objects)).1 in
    listing box (delete 0 (calm t)).1.disk ≡ listing box (delete 0 (calm two_objects)).1.disk
unfolding find equal
delete-close_example =
    delete-close plain 0 1 written_text (codes "new") two_objects refl refl refl refl refl
      (omega arith) refl (omega arith, refl, tt)

append-close_example :
    let t = (close plain 1 (calm two_objects)).1 in
    let r = append 1 (codes "more") (calm t) in
    (r.0 ≡ some tt) × (file_at (raw_path_of 1 t) r.1.disk ≡ some (raw_file []))
unfolding find equal
append-close_example =
    append-close plain 1 written_text (codes "new") (codes "more") two_objects (omega arith)
      (omega arith) refl refl refl refl refl

-- Object 1 has a new message with no writer yet.
abbrev unwritten : Store
unwritten = record two_objects {
  messages = λ p.
      if p == 0
      then two_objects.messages 0
      else record incoming { fields = record old { fid = codes "new"; fsize = 0 }; writer = none };
}

abbrev receiving : World (file_store plain 0)
receiving = record {
  session = (fresh []).session;
  store = unwritten;
  dispatched = [];
  received_total = 0;
  stamps = [];
  connects_current = 1;
}

abbrev recipient : RecipientDetails (file_store plain 0)
recipient = record {
  address = codes "box@inbucket";
  local_part = codes "box";
  domain_part = codes "inbucket";
  mailbox = 1;
}

abbrev mail_text : Bytes
mail_text = delivered_text plain 0 server recipient (codes "Hi\r\n" ∷ []) receiving

write_message-Delivered_example :
    let result =
      write_message (file_store plain 0) server recipient (codes "Hi\r\n" ∷ []) 1 receiving in
    let sized = record old { fid = codes "new"; fsize = 0 + length mail_text } in
    (result.0 ≡ true)
    × Delivered plain box
        (header_fields plain mail_text sized)
        (raw_path_of 1 unwritten)
        mail_text
        unwritten.disk
        result.1.store.disk
unfolding find equal received_header
write_message-Delivered_example =
    write_message-Delivered plain 0 server recipient (codes "Hi\r\n" ∷ []) 1 receiving mail_text
      refl (omega arith) refl refl refl refl
