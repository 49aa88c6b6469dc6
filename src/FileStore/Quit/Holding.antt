-- ===== src/FileStore/Quit/Holding.antt =====
-- A mailbox object that holds what its index lists, over deletes.
use inbucket.Common.{ℕ, ◌≡◌, refl, sym, ap, ◌∙◌, arith, List, [], ◌∷◌, is_nil, Bool-cases, inl, inr}
use inbucket.FileStore.{Owned, Library, FileMessage, Store, call, fields_of, set_mailbox}
use inbucket.FileStore.Files.{FilePath}
use inbucket.FileStore.Index.{stat}
use inbucket.FileStore.Index.Written.{calm, on_disk, listing}
use inbucket.FileStore.Interface.{file_store}
use inbucket.FileStore.Message.{raw_path_of, remove_pointer, remove_file, delete}
use inbucket.FileStore.Message.Adding.{calm_lem}
use inbucket.FileStore.Message.Deleting.{delete-Unlisted, write_index-set, left_of, unlisted}
use inbucket.FileStore.Message.Room.{delete-SameHeaps}
use inbucket.Pop3.Messages.Update.{delete_each}

remove_file-calm : (q : FilePath) (s : Store) → s.outcomes ≡ [] → (remove_file q s).1.outcomes ≡ []
unfolding remove_file stat call
remove_file-calm q s e = ground (arith, e)

delete-calm : (p : ℕ) (s : Store) → (delete p (calm s)).1.outcomes ≡ []
unfolding delete raw_path_of
delete-calm p s =
    let h = (s.messages p).mailbox in
    let t = set_mailbox h (record (s.mailboxes h) { messages = left_of p s }) (calm s) in
    rw (write_index-set h (left_of p s) s) (elim (Bool-cases (is_nil (left_of p s))) [
      | inl e ↦ rw e refl
      | inr e ↦ rw e (remove_file-calm (raw_path_of p s) (on_disk (unlisted p s) t) refl)
    ])

-- A store in which a mailbox object holds the messages that its index lists.
pub record Holds (h : ℕ) (path : FilePath) (heap : ℕ → FileMessage) (ps : List ℕ) (s : Store)
    : Type 0 where
  pub outcomes : s.outcomes ≡ []
  pub heap_same : s.messages ≡ heap
  pub path_same : (s.mailboxes h).path ≡ path
  pub held : (s.mailboxes h).messages ≡ ps
  pub listed : listing path s.disk ≡ fields_of heap ps

delete-Holds :
    (h p : ℕ) (path : FilePath) (heap : ℕ → FileMessage) (ps : List ℕ) (s : Store)
    → Holds h path heap ps s
    → (heap p).mailbox ≡ h
    → Holds h path heap (remove_pointer p ps) (delete p s).1
delete-Holds h p path heap ps s k o =
    let here : (s.messages p).mailbox ≡ h = ap (λ m. (m p).mailbox) k.heap_same ∙ o in
    let same = delete-SameHeaps p s in
    let still : (delete p (calm s)).1 ≡ (delete p s).1 =
      ap (λ t. (delete p t).1) (calm_lem s k.outcomes) in
    record {
      outcomes = ap (λ t. t.outcomes) (sym still) ∙ delete-calm p s;
      heap_same = same.messages ∙ k.heap_same;
      path_same = ap (λ b. (b h).path) same.mailboxes ∙ ground (arith, here, k.path_same);
      held = ap (λ b. (b h).messages) same.mailboxes ∙ ground (arith, here, k.held);
      listed =
          ap (λ t. listing path t.disk) (sym still)
          ∙ ap (λ q. listing q (delete p (calm s)).1.disk)
              (sym (ap (λ g. (s.mailboxes g).path) here ∙ k.path_same))
          ∙ (delete-Unlisted p s).0
          ∙ ap (λ g. fields_of s.messages (remove_pointer p (s.mailboxes g).messages)) here
          ∙ ap (λ l. fields_of s.messages (remove_pointer p l)) k.held
          ∙ ap (λ m. fields_of m (remove_pointer p ps)) k.heap_same;
    }

abbrev pub remove_all : List ℕ → List ℕ → List ℕ
remove_all [] ps = ps
remove_all (d ∷ ds) ps = remove_all ds (remove_pointer d ps)

module _ (lib : Library) (message_cap : ℕ) where
  pub delete_each-Holds :
      (h : ℕ) (path : FilePath) (heap : ℕ → FileMessage) (ds ps : List ℕ) (s : Store)
      → Owned heap h ds
      → Holds h path heap ps s
      → Holds h path heap (remove_all ds ps) (delete_each (file_store lib message_cap) ds s)
  delete_each-Holds h path heap [] ps s o k = k
  delete_each-Holds h path heap (d ∷ ds) ps s (o, os) k =
      delete_each-Holds h path heap ds (remove_pointer d ps) (delete d s).1 os
        (delete-Holds h d path heap ps s k o)
