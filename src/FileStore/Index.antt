-- ===== src/FileStore/Index.antt =====
-- The index of a mailbox and its directories: `readIndex`, `writeIndex`, `createDir`, `removeDir`
-- and `removeDirIfEmpty` of smtpd/filestore.go. Each holds a lock on the files that it works on, so
-- no other session's call comes between its calls of the operating system.
pub mod Written
pub mod Loaded
pub mod Heaps
use inbucket.Common.{
  ℕ, suc, ◌+◌, Bool, true, false, not, Option, none, some, List, [], ◌∷◌, ◌++◌, take, codes,
  if◌then◌else◌, ◌&&◌, Bytes,
}
use inbucket.FileStore.Files.{
  Meta, FilePath, Node, directory, index_file, raw_file, Disk, find, exists, is_some, remove_path,
  remove_tree, put, parent, has_entries, make_dirs,
}
use inbucket.FileStore.{
  FileMailbox, FileMessage, Outcome, done, failed, Store, M, pure, fail, and_then, ◌>>=◌, ◌>>◌,
  ignore, modify, update, set_mailbox, call, fields_of,
}

abbrev pub index_path : FilePath → FilePath
index_path p = p ++ codes "index.gob" ∷ []

-- `os.Stat`, `os.Open` and `os.Readdirnames` fail where there is nothing.
unfoldable pub stat : FilePath → M (Unit {0})
unfolding call
stat p = do call; λ s. (if exists p s.disk then some tt else none, s)

-- `os.Create`, which empties a file that is there and wants the directory of one that is not.
unfoldable pub create_file : FilePath → Node → M (Unit {0})
unfolding stat
create_file p n = do stat (parent p); modify (λ s. record s { disk = put p n s.disk })

unfoldable pub create_dir : FilePath → M (Unit {0})
unfolding call
create_dir p s =
    let (found, s') = stat p s in
    elim found [
      | some _ ↦ (some tt, s')
      | none ↦ (do call; modify (λ s. record s { disk = make_dirs [] p s.disk })) s'
    ]

-- `removeDirIfEmpty`: whether it removed the directory.
unfoldable pub remove_dir_if_empty : FilePath → M (Unit {0})
remove_dir_if_empty p = do
  stat p
  call
  λ s. (if not (has_entries p s.disk) then some tt else none, s)
  call
  modify (λ s. record s { disk = remove_path p s.disk })

-- The calls of `RemoveAll` and of `removeDirIfEmpty` for the two parents.
unfoldable pub remove_dir : FilePath → M (Unit {0})
remove_dir p = do
  call
  modify (λ s. record s { disk = remove_tree p s.disk })
  ignore (do remove_dir_if_empty (parent p); remove_dir_if_empty (parent (parent p)))

-- The encoder's records reach the file with `Flush`; what a failure leaves of them is its outcome.
abbrev flush_with : List Outcome → FilePath → List Meta → M (Unit {0})
flush_with [] p ms s = (some tt, record s { disk = put p (index_file ms true) s.disk })
flush_with (done ∷ rest) p ms s =
    (some tt, record s { disk = put p (index_file ms true) s.disk; outcomes = rest })
flush_with (failed n whole ∷ rest) p ms s =
    (none, record s { disk = put p (index_file (take n ms) whole) s.disk; outcomes = rest })

unfoldable pub flush_index : FilePath → List Meta → M (Unit {0})
flush_index p ms s = flush_with s.outcomes p ms s

-- `writeIndex`, for the fields of the mailbox's messages.
unfoldable pub write_fields : FilePath → List Meta → M (Unit {0})
write_fields p [] = remove_dir p
write_fields p (m ∷ ms) = do
  create_dir p
  create_file (index_path p) (index_file [] true)
  flush_index (index_path p) (m ∷ ms)

unfoldable pub write_index : ℕ → M (Unit {0})
write_index h s =
    write_fields (s.mailboxes h).path (fields_of s.messages (s.mailboxes h).messages) s

-- The objects of the messages that the decoder reads.
unfoldable pub load_messages : ℕ → List Meta → Store → List ℕ × Store
load_messages h [] s = ([], s)
load_messages h (m ∷ ms) s =
    let p = s.next_message in
    let (ps, s') = load_messages h ms (record s {
      messages =
          update s.messages p (record { mailbox = h; fields = m; writable = false; writer = none });
      next_message = suc p;
    }) in
    (p ∷ ps, s')

-- What the decoder reads of an index: the records, and whether it meets the end of the file.
abbrev pub decode_with : List Outcome → Option Node → List Meta × Bool
decode_with (failed n whole ∷ rest) (some (index_file ms ok)) = (take n ms, false)
decode_with _ (some (index_file ms ok)) = (ms, ok)
decode_with _ _ = ([], false)

-- The loop of `readIndex`, for the mailbox as it stands in front of it.
unfoldable pub decode_index : ℕ → FileMailbox → M (Unit {0})
decode_index h mb s =
    let (ms, whole) = decode_with s.outcomes (find (index_path mb.path) s.disk) in
    let (ps, s') = load_messages h ms s in
    let (read, s'') = call s' in
    if whole
    then (some tt, set_mailbox h (record mb { messages = ps; index_loaded = true }) s'')
    else (none, set_mailbox h (record mb { messages = ps }) s'')

-- `readIndex`, which begins with the mailbox emptied.
unfoldable pub read_index : ℕ → M (Unit {0})
read_index h s =
    let mb = record (s.mailboxes h) { messages = [] } in
    let (found, s') = stat (index_path mb.path) (set_mailbox h mb s) in
    elim found [
      | none ↦ (some tt, set_mailbox h (record mb { index_loaded = true }) s')
      | some _ ↦ (do stat (index_path mb.path); decode_index h mb) s'
    ]
