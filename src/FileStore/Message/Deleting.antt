-- ===== src/FileStore/Message/Deleting.antt =====
-- `Delete` and `Purge`, and the index.
use inbucket.Common.{
  ℕ, ◌<◌, ◌≡◌, refl, sym, ap, ◌∙◌, arith, true, false, not, all, ◌==◌, Option, none, some, List, [],
  ◌∷◌, ◌++◌, length, is_nil, if◌then◌else◌, Bytes, codes, Bool-cases, inl, inr,
}
use inbucket.FileStore.Files.{
  FilePath, Node, raw_file, index_file, directory, Disk, same, find, exists, file_at, only_file,
  is_under, remove_path,
}
use inbucket.FileStore.Files.Laws.{find-remove_path, same_iff, is_under-append}
use inbucket.FileStore.{Store, call, fields_of, set_mailbox}
use inbucket.FileStore.Index.{index_path, stat, write_index}
use inbucket.FileStore.Index.Written.{
  calm, on_disk, listed, listing, written, listing-written, file_at-written, file_at-written_nil,
}
use inbucket.FileStore.Mailbox.{purge}
use inbucket.FileStore.Message.{raw_path, raw_path_of, remove_pointer, remove_file, delete}
use inbucket.FileStore.Message.Adding.{write_index_lem}
use inbucket.FileStore.Message.Closing.{raw_path-index_path}

-- The index is written for a mailbox that was given another list of messages.
pub write_index-set :
    (h : ℕ) (left : List ℕ) (s : Store)
    → let t = set_mailbox h (record (s.mailboxes h) { messages = left }) (calm s) in
      write_index h t
      ≡ (some tt, on_disk (written (s.mailboxes h).path (fields_of s.messages left) s.disk) t)
write_index-set h left s =
    let t = set_mailbox h (record (s.mailboxes h) { messages = left }) (calm s) in
    let place : (t.mailboxes h).path ≡ (s.mailboxes h).path = ground arith in
    let all : (t.mailboxes h).messages ≡ left = ground arith in
    write_index_lem h t refl
    ∙ ap
        (λ p.
          (some tt, on_disk (written p (fields_of s.messages (t.mailboxes h).messages) s.disk) t))
        place
    ∙ ap
        (λ ps. (some tt, on_disk (written (s.mailboxes h).path (fields_of s.messages ps) s.disk) t))
        all

-- The pointers that a delete leaves in the mailbox, and what it writes.
abbrev pub left_of : ℕ → Store → List ℕ
left_of p s = remove_pointer p (s.mailboxes (s.messages p).mailbox).messages

abbrev pub unlisted : ℕ → Store → Disk
unlisted p s =
    written (s.mailboxes (s.messages p).mailbox).path (fields_of s.messages (left_of p s)) s.disk

remove_file_lem :
    (q : FilePath) (s : Store)
    → s.outcomes ≡ []
    → (remove_file q s).1.disk ≡ (if exists q s.disk then remove_path q s.disk else s.disk)
unfolding remove_file stat call
remove_file_lem q s e = ground (arith, e)

pub disk-delete :
    (p : ℕ) (s : Store)
    → (delete p (calm s)).1.disk ≡ (
        if is_nil (left_of p s)
        then unlisted p s
        else if exists (raw_path_of p s) (unlisted p s)
        then remove_path (raw_path_of p s) (unlisted p s)
        else unlisted p s)
unfolding delete raw_path_of
disk-delete p s =
    let h = (s.messages p).mailbox in
    let t = set_mailbox h (record (s.mailboxes h) { messages = left_of p s }) (calm s) in
    rw (write_index-set h (left_of p s) s) (elim (Bool-cases (is_nil (left_of p s))) [
      | inl e ↦ rw e refl
      | inr e ↦ rw e (remove_file_lem (raw_path_of p s) (on_disk (unlisted p s) t) refl)
    ])

-- The raw file's removal leaves the other files.
file_at-remove_path :
    (r q : FilePath) (d : Disk)
    → same r q ≡ false
    → file_at q (if exists r d then remove_path r d else d) ≡ file_at q d
file_at-remove_path r q d n = ground (arith, find-remove_path r q d)

file_at-delete :
    (p : ℕ) (s : Store) (q : FilePath)
    → same (raw_path_of p s) q ≡ false
    → file_at q (delete p (calm s)).1.disk ≡ file_at q (unlisted p s)
file_at-delete p s q n =
    ap (file_at q) (disk-delete p s)
    ∙ ground (arith, file_at-remove_path (raw_path_of p s) q (unlisted p s) n)

listed-only_file : (o : Option Node) → listed (only_file o) ≡ listed o
listed-only_file none = refl
listed-only_file (some directory) = refl
listed-only_file (some (index_file ms whole)) = refl
listed-only_file (some (raw_file bytes)) = refl

apart_raw :
    (p : FilePath) (id : Bytes) (q : FilePath)
    → is_under p q ≡ false
    → same (raw_path p id) q ≡ false
unfolding raw_path
apart_raw p id q u = ground (
  arith,
  is_under-append p (id ++ codes ".raw"),
  same_iff (p ++ (id ++ codes ".raw") ∷ []) q,
  ap (is_under p) {x = p ++ (id ++ codes ".raw") ∷ []} {y = q},
)

-- The index behind `Delete`, by the pointers that it leaves.
pub delete-Unlisted :
    (p : ℕ) (s : Store)
    → let path = (s.mailboxes (s.messages p).mailbox).path in
      (listing path (delete p (calm s)).1.disk ≡ fields_of s.messages (left_of p s))
      × ((q : FilePath)
          → length path < length q
          → is_under path q ≡ false
          → file_at q (delete p (calm s)).1.disk ≡ file_at q s.disk)
unfolding raw_path_of
delete-Unlisted p s =
    let path = (s.mailboxes (s.messages p).mailbox).path in
    let id = (s.messages p).fields.fid in
    let ms = fields_of s.messages (left_of p s) in
    (
      sym (listed-only_file (find (index_path path) (delete p (calm s)).1.disk))
          ∙ ap listed (file_at-delete p s (index_path path) (raw_path-index_path path id))
          ∙ listed-only_file (find (index_path path) (unlisted p s))
          ∙ listing-written path ms s.disk,
      λ q deep apart.
          file_at-delete p s q (apart_raw path id q apart)
          ∙ file_at-written path q ms s.disk deep apart,
    )

remove_pointer-first :
    (p : ℕ) (before after : List ℕ)
    → all (λ q. not (p == q)) before ≡ true
    → remove_pointer p (before ++ p ∷ after) ≡ before ++ after
unfolding remove_pointer
remove_pointer-first p [] after e = ground arith
remove_pointer-first p (q ∷ before) after e = ground (arith, e, remove_pointer-first p before after)

-- Where no call of the operating system fails, `Delete` of a message that its mailbox object holds,
-- between the messages `before`, all others, and `after`, makes the index list those before it and
-- those behind it, in their order, whatever the index listed. Files in other directories stay as
-- they are.
pub delete-listing :
    (p : ℕ) (before after : List ℕ) (s : Store)
    → (s.mailboxes (s.messages p).mailbox).messages ≡ before ++ p ∷ after
    → all (λ q. not (p == q)) before ≡ true
    → let path = (s.mailboxes (s.messages p).mailbox).path in
      (listing path (delete p (calm s)).1.disk ≡ fields_of s.messages (before ++ after))
      × ((q : FilePath)
          → length path < length q
          → is_under path q ≡ false
          → file_at q (delete p (calm s)).1.disk ≡ file_at q s.disk)
delete-listing p before after s e f =
    let (listed, others) = delete-Unlisted p s in
    (
      listed
          ∙ ap (fields_of s.messages)
              (ap (remove_pointer p) e ∙ remove_pointer-first p before after f),
      others,
    )

-- `Purge` leaves an index that lists nothing, whatever it listed, and no file of the mailbox's
-- directory; files in other directories stay as they are.
pub purge-empty :
    (h : ℕ) (s : Store)
    → let path = (s.mailboxes h).path in
      ((purge h (calm s)).0 ≡ some tt)
      × ((q : FilePath)
          → length path < length q
          → file_at q (purge h (calm s)).1.disk
            ≡ (if is_under path q then none else file_at q s.disk))
unfolding purge fields_of
purge-empty h s =
    let path = (s.mailboxes h).path in
    (
      ap (λ r. r.0) (write_index-set h [] s),
      λ q deep.
          ap (λ r. file_at q r.1.disk) (write_index-set h [] s)
          ∙ file_at-written_nil path q s.disk deep,
    )
