-- ===== src/FileStore/Mailbox.antt =====
-- The methods of `FileDataStore` and `FileMailbox` of smtpd/filestore.go above the index, and the
-- identifiers of new messages.
pub mod Reading
pub mod Unchanged
pub mod Ids
use inbucket.Common.{
  ℕ, zero, suc, ◌+◌, ◌/◌, ◌%◌, Bool, true, false, not, Option, none, some, List, [], ◌∷◌, ◌++◌,
  take, codes, drop, if◌then◌else◌, equal, is_nil, Bytes,
}
use inbucket.Address.Mailbox.{MailboxResult, named, refused, parse_mailbox_name, hash_mailbox_name}
use inbucket.DataStore.{Lookup, found, not_exist, lookup_failed}
use inbucket.FileStore.Files.{
  FilePath, Node, directory, Disk, same, find, exists, parent, make_dirs,
}
use inbucket.FileStore.{
  Library, FileMailbox, Store, M, pure, fail, and_then, ◌>>=◌, ◌>>◌, ignore, modify, update,
  set_mailbox, call,
}
use inbucket.FileStore.Index.{stat, read_index, write_index}

-- `NewFileDataStore`, which makes the mail directory where it is missing.
unfoldable pub new_file_data_store : M (Unit {0})
unfolding call
new_file_data_store s =
    let (there, s') = stat [] s in
    elim there [
      | some _ ↦ (some tt, s')
      | none ↦ (ignore (do call; modify (λ s. record s { disk = make_dirs [] [] s.disk }))) s'
    ]

unfoldable pub new_mailbox : Bytes → FilePath → M ℕ
new_mailbox name path s = (
  some s.next_mailbox,
  record s {
    mailboxes =
        update s.mailboxes s.next_mailbox
          (record { name = name; path = path; index_loaded = false; messages = [] });
    next_mailbox = suc s.next_mailbox;
  },
)

-- The directories of a mailbox, from the digest of its name.
unfoldable pub mailbox_path : Bytes → FilePath
mailbox_path dir = take 3 dir ∷ take 6 dir ∷ dir ∷ []

-- `GetMessages` and `GetMessage` load the index once.
unfoldable pub load_index : ℕ → M (Unit {0})
load_index h s = if (s.mailboxes h).index_loaded then (some tt, s) else read_index h s

unfoldable pub get_messages : ℕ → M (List ℕ)
get_messages h = do load_index h; λ s. (some (s.mailboxes h).messages, s)

unfoldable pub find_message : Bytes → List ℕ → Store → Lookup ℕ × Store
find_message id [] s = (not_exist, s)
find_message id (p ∷ ps) s =
    if equal (s.messages p).fields.fid id then (found p, s) else find_message id ps s

unfoldable pub get_message : ℕ → Bytes → Store → Lookup ℕ × Store
get_message h id s =
    let (loaded, s') = load_index h s in
    elim loaded [
      | none ↦ (lookup_failed, s')
      | some _ ↦ find_message id (s'.mailboxes h).messages s'
    ]

unfoldable pub purge : ℕ → M (Unit {0})
purge h s = write_index h (set_mailbox h (record (s.mailboxes h) { messages = [] }) s)

-- The last component of a path.
abbrev base_name : FilePath → Bytes
base_name [] = []
base_name (a ∷ []) = a
base_name (a ∷ b ∷ p) = base_name (b ∷ p)

-- Whether a node of the file system is a directory in the directory `p`.
abbrev pub is_sub_dir : FilePath → FilePath → Node → Bool
is_sub_dir p (a ∷ q) directory = same p (parent (a ∷ q))
is_sub_dir p _ _ = false

-- The directories that `ioutil.ReadDir` lists in a directory, in the order of the disk.
unfoldable pub sub_dirs : FilePath → Disk → List FilePath
sub_dirs p [] = []
sub_dirs p ((q, n) ∷ d) = let rest = sub_dirs p d in if is_sub_dir p q n then q ∷ rest else rest

unfoldable pub read_dirs : FilePath → M (List FilePath)
unfolding stat
read_dirs p = do stat p; λ s. (some (sub_dirs p s.disk), s)

-- The loops of `AllMailboxes`, innermost first: the mailboxes of a directory, which have no name,
-- those of the directories in one, and those of all.
unfoldable pub open_boxes : List FilePath → M (List ℕ)
open_boxes [] = pure []
open_boxes (p ∷ ps) = do h ← new_mailbox [] p; hs ← open_boxes ps; pure (h ∷ hs)

unfoldable pub walk_second : List FilePath → M (List ℕ)
walk_second [] = pure []
walk_second (p ∷ ps) = do
  boxes ← read_dirs p
  hs ← open_boxes boxes
  more ← walk_second ps
  pure (hs ++ more)

unfoldable pub walk_first : List FilePath → M (List ℕ)
walk_first [] = pure []
walk_first (p ∷ ps) = do
  seconds ← read_dirs p
  hs ← walk_second seconds
  more ← walk_first ps
  pure (hs ++ more)

unfoldable pub all_mailboxes : M (List ℕ)
all_mailboxes = do firsts ← read_dirs []; walk_first firsts

-- `countGenerator`, whose next number a new identifier takes; the clock stands still behind the
-- last of its times.
unfoldable pub next_count : ℕ → ℕ
next_count i = (i + 1) % 10000

abbrev first_time : List ℕ → ℕ
first_time [] = 0
first_time (t ∷ ts) = t

-- `%04d` of a number below 10000.
unfoldable pub four_digits : ℕ → Bytes
four_digits n =
    (b'0' + n / 1000) ∷ (b'0' + n / 100 % 10) ∷ (b'0' + n / 10 % 10) ∷ (b'0' + n % 10) ∷ []

module _ (lib : Library) where
  unfoldable pub mailbox_for : Bytes → M ℕ
  mailbox_for address s = elim (parse_mailbox_name lib.unicode address) [
    | refused e ↦ (none, s)
    | named name ↦ new_mailbox name (mailbox_path (hash_mailbox_name lib.sha1_hex name)) s
  ]

  unfoldable pub generate_prefix : ℕ → Bytes
  generate_prefix date = lib.format date

  -- `generateID`, with the number that it takes from the channel.
  unfoldable pub generate_id : ℕ → ℕ → Bytes
  generate_id date count = generate_prefix date ++ b'-' ∷ four_digits count

  -- The clock, and the identifier of a new message.
  unfoldable pub new_id : M (ℕ × Bytes)
  new_id s =
      let date = first_time s.times in
      (
        some (date, generate_id date s.count),
        record s { times = drop 1 s.times; count = next_count s.count },
      )
