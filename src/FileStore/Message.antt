-- ===== src/FileStore/Message.antt =====
-- The methods of `FileMessage`, and `NewMessage`, of smtpd/filemsg.go.
pub mod Adding
pub mod Closing
pub mod Deleting
pub mod Room
pub mod Stale
pub mod Appending
use inbucket.Common.{
  ℕ, zero, suc, ◌+◌, ◌-◌, Bool, true, false, not, ◌&&◌, ◌||◌, Option, none, some, List, [], ◌∷◌,
  ◌++◌, codes, if◌then◌else◌, ◌==◌, ltb, leb, length, take, is_nil, Bytes,
}
use inbucket.FileStore.Files.{Meta, FilePath, Node, raw_file, Disk, find, remove_path, put}
use inbucket.FileStore.{
  Library, Writer, FileMailbox, FileMessage, Outcome, done, failed, Store, M, pure, fail, and_then,
  ◌>>=◌, ◌>>◌, ignore, modify, update, set_mailbox, set_message, call,
}
use inbucket.FileStore.Index.{stat, create_file, create_dir, read_index, write_index}
use inbucket.FileStore.Mailbox.{load_index, new_id}

unfoldable pub raw_path : FilePath → Bytes → FilePath
raw_path p id = p ++ (id ++ codes ".raw") ∷ []

-- The path of a message's raw file.
unfoldable pub raw_path_of : ℕ → Store → FilePath
raw_path_of p s = let m = s.messages p in raw_path (s.mailboxes m.mailbox).path m.fields.fid

abbrev pub content : Option Node → Option Bytes
content (some (raw_file bytes)) = some bytes
content _ = none

-- `ReadRaw`: the file is opened, and read.
unfoldable pub read_raw : ℕ → M Bytes
read_raw p s =
    (do stat (raw_path_of p s); call; λ s'. (content (find (raw_path_of p s) s'.disk), s')) s

-- The list without the first place of a pointer.
unfoldable pub remove_pointer : ℕ → List ℕ → List ℕ
remove_pointer p [] = []
remove_pointer p (q ∷ qs) = let rest = remove_pointer p qs in if p == q then qs else q ∷ rest

-- `os.Remove` of a raw file.
unfoldable pub remove_file : FilePath → M (Unit {0})
remove_file p = do stat p; modify (λ s. record s { disk = remove_path p s.disk })

unfoldable pub delete : ℕ → M (Unit {0})
delete p s =
    let h = (s.messages p).mailbox in
    let left = remove_pointer p (s.mailboxes h).messages in
    (do write_index h; if is_nil left then pure tt else remove_file (raw_path_of p s))
      (set_mailbox h (record (s.mailboxes h) { messages = left }) s)

-- The loop that makes room below the cap, with fuel for its rounds; none is left where a mailbox
-- has no message, which is below every cap.
unfoldable pub make_room : ℕ → ℕ → ℕ → Store → Store
make_room zero message_cap h s = s
make_room (suc fuel) message_cap h s = elim (leb message_cap (length (s.mailboxes h).messages)) [
  | false ↦ s
  | true ↦ elim (s.mailboxes h).messages [
    | [] ↦ s
    | p ∷ ps ↦ make_room fuel message_cap h (delete p s).1
  ]
]

unfoldable pub enforce_cap : ℕ → ℕ → Store → Store
enforce_cap message_cap h s =
    if message_cap == 0 then s else make_room (length (s.mailboxes h).messages) message_cap h s

abbrev fresh : ℕ → ℕ → Bytes → FileMessage
fresh h date id = record {
  mailbox = h;
  fields = record { fid = id; fdate = date; ffrom = []; fto = []; fsubject = []; fsize = 0 };
  writable = true;
  writer = none;
}

unfoldable pub add_message : FileMessage → M ℕ
add_message m s = (
  some s.next_message,
  record (set_message s.next_message m s) { next_message = suc s.next_message },
)

abbrev pub new_writer : Writer
new_writer = record { buffer = []; on_file = 0; broken = false }

-- The creation of the raw file. A failure of `os.Create` ends the writing; one of `createDir` does
-- not.
unfoldable pub open_writer : ℕ → M (Unit {0})
open_writer p s =
    let h = (s.messages p).mailbox in
    (do
      create_dir (s.mailboxes h).path
      λ s1.
          let (created, s2) = create_file (raw_path_of p s) (raw_file []) s1 in
          elim created [
            | none ↦ (none, set_message p (record (s2.messages p) { writable = false }) s2)
            | some _ ↦
                (some tt, set_message p (record (s2.messages p) { writer = some new_writer }) s2)
          ])
      s

abbrev buffer_size : ℕ
buffer_size = 4096

-- How many bytes a `Write` of `n` bytes moves to the file, where some are buffered: it fills the
-- buffer and writes it, and what then does not fit into the empty buffer goes to the file at once.
unfoldable pub spilled : ℕ → ℕ → ℕ
spilled buffered n =
    if leb (buffered + n) buffer_size
    then 0
    else if buffered == 0 || ltb buffer_size (n - (buffer_size - buffered))
    then buffered + n
    else buffer_size

abbrev pub put_bytes : Bytes → Writer → Writer
put_bytes bytes w = record w {
  buffer = w.buffer ++ bytes;
  on_file = w.on_file + spilled (length w.buffer - w.on_file) (length bytes);
}

-- `Write` of a buffered writer; what it moves to the file is written as a whole or not at all.
unfoldable pub write_bytes : ℕ → Bytes → Writer → M (Unit {0})
unfolding call
write_bytes p bytes w s =
    let m = s.messages p in
    let sized = record m { fields = record m.fields { fsize = m.fields.fsize + length bytes } } in
    let v = put_bytes bytes w in
    let (ok, s') = call s in
    if w.broken
    then (none, set_message p sized s)
    else if v.on_file == w.on_file
    then (some tt, set_message p (record sized { writer = some v }) s)
    else elim ok [
      | none ↦
          (none, set_message p (record sized { writer = some (record w { broken = true }) }) s')
      | some _ ↦ (
        some tt,
        set_message p (record sized { writer = some v })
            (record s' {
              disk = put (raw_path_of p s) (raw_file (take v.on_file v.buffer)) s'.disk;
            }),
      )
    ]

unfoldable pub append : ℕ → Bytes → M (Unit {0})
append p bytes s = if not (s.messages p).writable then (none, s) else elim (s.messages p).writer [
  | some w ↦ write_bytes p bytes w s
  | none ↦ (do open_writer p; write_bytes p bytes new_writer) s
]

-- `Flush`, then `Close` of the file.
abbrev flush_with : List Outcome → FilePath → Writer → M (Unit {0})
flush_with [] path w s = (some tt, record s { disk = put path (raw_file w.buffer) s.disk })
flush_with (done ∷ rest) path w s =
    (some tt, record s { disk = put path (raw_file w.buffer) s.disk; outcomes = rest })
flush_with (failed n whole ∷ rest) path w s = (
  none,
  record s { disk = put path (raw_file (take (w.on_file + n) w.buffer)) s.disk; outcomes = rest },
)

unfoldable pub flush_writer : FilePath → Option Writer → M (Unit {0})
unfolding call
flush_writer path none s = (some tt, s)
flush_writer path (some w) s =
    if w.broken then (none, s) else (do flush_with s.outcomes path w; call) s

-- The message takes its place behind those of the index.
unfoldable pub add_to_index : ℕ → M (Unit {0})
add_to_index p s =
    let h = (s.messages p).mailbox in
    (do
      read_index h
      modify (λ s'.
          set_mailbox h (record (s'.mailboxes h) { messages = (s'.mailboxes h).messages ++ p ∷ [] })
            s')
      write_index h)
      s

module _ (lib : Library) where
  unfoldable pub read_header : ℕ → M lib.Header
  unfolding read_raw
  read_header p = do bytes ← read_raw p; λ s. (lib.read_mail_header bytes, s)

  -- `ReadBody`
  unfoldable pub read_body : ℕ → M lib.Envelope
  unfolding read_raw
  read_body p = do bytes ← read_raw p; λ s. (lib.read_envelope bytes, s)

  abbrev or_else : {A : Type 0} → Option A → A → A
  or_else none a = a
  or_else (some b) a = b

  -- The fields that `Close` takes from the headers.
  unfoldable pub header_fields : lib.Envelope → Meta → Meta
  header_fields body m =
      let from = lib.get_header body (codes "From") in
      record m {
        ffrom = or_else (lib.parse_address from) from;
        fsubject = lib.get_header body (codes "Subject");
        fto = elim (lib.address_list body (codes "To")) [
          | some addresses ↦ m.fto ++ addresses
          | none ↦ lib.get_header body (codes "To") ∷ []
        ];
      }

  abbrev pub with_headers : ℕ → lib.Envelope → Store → Store
  with_headers p body s =
      set_message p (record (s.messages p) { fields = header_fields body (s.messages p).fields }) s

  -- `Close` behind the closing of the raw file.
  unfoldable pub index_message : ℕ → M (Unit {0})
  index_message p = do body ← read_body p; modify (with_headers p body); add_to_index p

  unfoldable pub close : ℕ → M (Unit {0})
  unfolding flush_writer
  close p s =
      let m = s.messages p in
      (do flush_writer (raw_path_of p s) m.writer; index_message p)
        (set_message p (record m { writer = none }) s)

  unfoldable pub new_message : ℕ → ℕ → M ℕ
  unfolding add_message
  new_message message_cap h = do
    load_index h
    modify (enforce_cap message_cap h)
    (date, id) ← new_id lib
    add_message (fresh h date id)
