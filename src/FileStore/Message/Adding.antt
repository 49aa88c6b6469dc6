-- ===== src/FileStore/Message/Adding.antt =====
-- `Close` of a message, and the index.
use inbucket.Common.{
  ℕ, ◌<◌, ◌≡◌, refl, sym, ap, ◌∙◌, arith, true, false, some, List, [], ◌∷◌, ◌++◌, ◌==◌,
}
use mathlib.Core.Path.{subst}
use inbucket.FileStore.Files.{Meta, FilePath, Disk, same, find, file_at}
use inbucket.FileStore.{FileMessage, Store, fields_of, set_mailbox}
use inbucket.FileStore.Index.{index_path, read_index, write_index, write_fields}
use inbucket.FileStore.Index.Written.{
  calm, on_disk, written, listing, write_fields_lem, listing-written, file_at-written_cons,
}
use inbucket.FileStore.Index.Loaded.{is_whole, reread, reread-Rereads, read_index_lem}
use inbucket.FileStore.Message.{add_to_index}

pub calm_lem : (s : Store) → s.outcomes ≡ [] → calm s ≡ s
calm_lem s e = ground arith

pub write_index_lem :
    (h : ℕ) (s : Store)
    → s.outcomes ≡ []
    → write_index h s ≡ (
      some tt,
      on_disk
          (written (s.mailboxes h).path (fields_of s.messages (s.mailboxes h).messages) s.disk)
          s,
    )
unfolding write_index
write_index_lem h s e =
    ap (write_fields (s.mailboxes h).path (fields_of s.messages (s.mailboxes h).messages))
      (sym (calm_lem s e))
    ∙ write_fields_lem _ _ s

pub fields_of-append :
    (heap : ℕ → FileMessage) (ps : List ℕ) (p : ℕ)
    → fields_of heap (ps ++ p ∷ []) ≡ fields_of heap ps ++ (heap p).fields ∷ []
unfolding fields_of
fields_of-append heap [] p = refl
fields_of-append heap (q ∷ ps) p = ap (◌∷◌ (heap q).fields) (fields_of-append heap ps p)

file_at-written_snoc :
    (p q : FilePath) (ms : List Meta) (m : Meta) (d : Disk)
    → same (index_path p) q ≡ false
    → file_at q (written p (ms ++ m ∷ []) d) ≡ file_at q d
file_at-written_snoc p q [] m d h = file_at-written_cons p q m [] d h
file_at-written_snoc p q (n ∷ ms) m d h = file_at-written_cons p q n (ms ++ m ∷ []) d h

-- The store behind `Close` from the reading of the index on.
abbrev joined : ℕ → ℕ → Store → Store
joined p h s =
    set_mailbox h (record (s.mailboxes h) { messages = (s.mailboxes h).messages ++ p ∷ [] }) s

abbrev stored : ℕ → Store → Store
stored h s =
    on_disk (written (s.mailboxes h).path (fields_of s.messages (s.mailboxes h).messages) s.disk) s

pub added : ℕ → Store → Store
added p s = let h = (s.messages p).mailbox in stored h (joined p h (reread h s))

pub add_to_index_lem :
    (p : ℕ) (s : Store)
    → s.outcomes ≡ []
    → is_whole (find (index_path (s.mailboxes (s.messages p).mailbox).path) s.disk) ≡ true
    → add_to_index p s ≡ (some tt, added p s)
unfolding add_to_index added
add_to_index_lem p s e w =
    let h = (s.messages p).mailbox in
    let r = reread-Rereads h s in
    let read : read_index h s ≡ (some tt, reread h s) =
      ap (read_index h) (sym (calm_lem s e)) ∙ read_index_lem h s w in
    rw (read) (write_index_lem h (joined p h (reread h s)) r.outcomes)

stored-listing :
    (h : ℕ) (s : Store) (path : FilePath)
    → (s.mailboxes h).path ≡ path
    → listing path (stored h s).disk ≡ fields_of s.messages (s.mailboxes h).messages
stored-listing h s path e = rw (← e) (listing-written _ _ s.disk)

-- What is on the disk then.
pub added-listing :
    (p : ℕ) (s : Store)
    → p < s.next_message
    → let path = (s.mailboxes (s.messages p).mailbox).path in
      listing path (added p s).disk ≡ listing path s.disk ++ (s.messages p).fields ∷ []
unfolding added
added-listing p s l =
    let h = (s.messages p).mailbox in
    let r = reread-Rereads h s in
    let path = (s.mailboxes h).path in
    let ms = ((reread h s).mailboxes h).messages in
    let place : ((joined p h (reread h s)).mailboxes h).path ≡ path = ground (arith, r.path) in
    let all : ((joined p h (reread h s)).mailboxes h).messages ≡ ms ++ p ∷ [] = ground arith in
    stored-listing h (joined p h (reread h s)) path place
    ∙ ap (fields_of (reread h s).messages) all
    ∙ fields_of-append (reread h s).messages ms p
    ∙ ground (arith, r.fields, r.older p)

-- Every other file stays as it is.
pub file_at-added :
    (p : ℕ) (s : Store) (q : FilePath)
    → same (index_path (s.mailboxes (s.messages p).mailbox).path) q ≡ false
    → file_at q (added p s).disk ≡ file_at q s.disk
unfolding added
file_at-added p s q n =
    let h = (s.messages p).mailbox in
    let r = reread-Rereads h s in
    let ms = ((reread h s).mailboxes h).messages in
    let place : ((joined p h (reread h s)).mailboxes h).path ≡ (s.mailboxes h).path =
      ground (arith, r.path) in
    let all : ((joined p h (reread h s)).mailboxes h).messages ≡ ms ++ p ∷ [] = ground arith in
    let old = (reread h s).messages in
    ap
      (λ ps.
        file_at q (
          written ((joined p h (reread h s)).mailboxes h).path (fields_of old ps)
            (reread h s).disk))
      all
    ∙ ap
        (λ fs.
          file_at q (written ((joined p h (reread h s)).mailboxes h).path fs (reread h s).disk))
        (fields_of-append old ms p)
    ∙ file_at-written_snoc _ q (fields_of old ms) (old p).fields (reread h s).disk (rw place n)
    ∙ ap (file_at q) r.disk

-- The same, where the mailbox's path is known by an equation.
pub added-listing_at :
    (p : ℕ) (s : Store) (path : FilePath)
    → (s.mailboxes (s.messages p).mailbox).path ≡ path
    → p < s.next_message
    → listing path (added p s).disk ≡ listing path s.disk ++ (s.messages p).fields ∷ []
added-listing_at p s path e l =
    subst (λ x. listing x (added p s).disk ≡ listing x s.disk ++ (s.messages p).fields ∷ []) e
      (added-listing p s l)

pub file_at-added_at :
    (p : ℕ) (s : Store) (path q : FilePath)
    → (s.mailboxes (s.messages p).mailbox).path ≡ path
    → same (index_path path) q ≡ false
    → file_at q (added p s).disk ≡ file_at q s.disk
file_at-added_at p s path q e n = file_at-added p s q (ap (λ x. same (index_path x) q) e ∙ n)

-- The objects that stay as they are: the older messages, and the other mailboxes.
pub messages-added :
    (p : ℕ) (s : Store) (q : ℕ) → q < s.next_message → (added p s).messages q ≡ s.messages q
unfolding added
messages-added p s q l = (reread-Rereads (s.messages p).mailbox s).older q l

pub mailboxes-added :
    (p : ℕ) (s : Store) (g : ℕ)
    → ((s.messages p).mailbox == g) ≡ false
    → (added p s).mailboxes g ≡ s.mailboxes g
unfolding added
mailboxes-added p s g e = rw e ((reread-Rereads (s.messages p).mailbox s).others g e)
