-- ===== src/Rest/Deleting.antt =====
-- The handler that deletes a message, on the file store.
use inbucket.Common.{
  ℕ, ◌≡◌, ◌≢◌, refl, sym, ap, ◌∙◌, arith, Bool, true, false, not, some, List, [], ◌∷◌, ◌==◌,
  if◌then◌else◌, Unicode, Bytes, equal, ==_iff, Bool-cases, inl, inr,
}
use inbucket.Address.Mailbox.{named, parse_mailbox_name}
use inbucket.DataStore.{DataStore, Lookup, found, not_exist, lookup_failed}
use inbucket.FileStore.{Owned, Library, Store, fields_of}
use inbucket.FileStore.Files.{Meta, find}
use inbucket.FileStore.Index.{index_path}
use inbucket.FileStore.Index.Written.{calm, listing}
use inbucket.FileStore.Index.Loaded.{is_whole, reread, reread-Rereads, read_index_lem}
use inbucket.FileStore.Mailbox.{mailbox_for, new_mailbox, load_index, find_message, get_message}
use inbucket.FileStore.Message.{remove_pointer, delete}
use inbucket.FileStore.Message.Adding.{calm_lem}
use inbucket.FileStore.Message.Deleting.{delete-Unlisted}
use inbucket.Rest.{Request, Response, not_found, Mime, with_mailbox, with_message, mailbox_delete}
use inbucket.Rest.Listing.{files, path_of, with_object, mailbox_for-named}

-- The list without its first message of an identifier, and whether it has one.
abbrev pub without_id : Bytes → List Meta → List Meta
without_id id [] = []
without_id id (m ∷ ms) = let rest = without_id id ms in if equal m.fid id then ms else m ∷ rest

abbrev pub has_id : Bytes → List Meta → Bool
has_id id [] = false
has_id id (m ∷ ms) = let rest = has_id id ms in if equal m.fid id then true else rest

-- What a search by identifier finds in a list of pointers.
abbrev Finds : ℕ → Bytes → List ℕ → Store → Lookup ℕ → Type 0
Finds h id ps s (found p) =
    (has_id id (fields_of s.messages ps) ≡ true)
    × (fields_of s.messages (remove_pointer p ps) ≡ without_id id (fields_of s.messages ps))
    × ((s.messages p).mailbox ≡ h)
    × (equal (s.messages p).fields.fid id ≡ true)
Finds h id ps s not_exist =
    (has_id id (fields_of s.messages ps) ≡ false)
    × (without_id id (fields_of s.messages ps) ≡ fields_of s.messages ps)
Finds h id ps s lookup_failed = ⊥

Finds-cons :
    (h : ℕ) (id : Bytes) (p : ℕ) (ps : List ℕ) (s : Store) (r : Lookup ℕ)
    → equal (s.messages p).fields.fid id ≡ false
    → Finds h id ps s r
    → Finds h id (p ∷ ps) s r
unfolding fields_of remove_pointer
Finds-cons h id p ps s (found q) e (has, left, o, i) =
    let other : (q == p) ≡ false =
      ground
        (arith, e, i, ==_iff q p, ap (λ n. equal (s.messages n).fields.fid id) {x = q} {y = p}) in
    (rw e has, rw (e, other) (ap (◌∷◌ (s.messages p).fields) left), o, i)
Finds-cons h id p ps s not_exist e (has, left) =
    (rw e has, rw e (ap (◌∷◌ (s.messages p).fields) left))
Finds-cons h id p ps s lookup_failed e x = x

find_message-Finds :
    (h : ℕ) (id : Bytes) (ps : List ℕ) (s : Store)
    → Owned s.messages h ps
    → (r : Lookup ℕ) × (find_message id ps s ≡ (r, s)) × Finds h id ps s r
unfolding find_message fields_of remove_pointer
find_message-Finds h id [] s o = (not_exist, refl, (refl, refl))
find_message-Finds h id (p ∷ ps) s (o, os) =
    elim (Bool-cases (equal (s.messages p).fields.fid id)) [
      | inl e ↦ (
        found p,
        rw e refl,
        (rw e refl, (let here : (p == p) ≡ true = ground arith in rw (e, here) refl), o, e),
      )
      | inr e ↦
          let (r, f, x) = find_message-Finds h id ps s os in
          (r, rw e f, Finds-cons h id p ps s r e x)
    ]

abbrev pub is_not_found : {A : Type 0} → Response A → Bool
is_not_found not_found = true
is_not_found _ = false

module _ (unicode : Unicode) (ds : DataStore) (mime : Mime ds.Body) where
  mailbox_delete_missing :
      (req : Request) (name : Bytes) (mb : ds.Mailbox) (st st' st'' : ds.Store)
      → parse_mailbox_name unicode req.name ≡ named name
      → ds.mailbox_for name st ≡ (some mb, st')
      → ds.get_message mb req.id st' ≡ (not_exist, st'')
      → mailbox_delete unicode ds mime req st ≡ (not_found, st'')
  unfolding mailbox_delete with_message with_mailbox
  mailbox_delete_missing req name mb st st' st'' e f g = ground (arith, e, f, g)

  mailbox_delete_found :
      (req : Request) (name : Bytes) (mb : ds.Mailbox) (m : ds.Message) (st st' st'' : ds.Store)
      → parse_mailbox_name unicode req.name ≡ named name
      → ds.mailbox_for name st ≡ (some mb, st')
      → ds.get_message mb req.id st' ≡ (found m, st'')
      → (is_not_found (mailbox_delete unicode ds mime req st).0 ≡ false)
        × ((mailbox_delete unicode ds mime req st).1 ≡ (ds.delete m st'').1)
  unfolding mailbox_delete with_message with_mailbox
  mailbox_delete_found req name mb m st st' st'' e f g =
      (ground (arith, e, f, g), ground (arith, e, f, g))

get_message_lem :
    (h : ℕ) (id : Bytes) (s : Store)
    → (s.mailboxes h).index_loaded ≡ false
    → is_whole (find (index_path (s.mailboxes h).path) s.disk) ≡ true
    → get_message h id (calm s) ≡ find_message id ((reread h s).mailboxes h).messages (reread h s)
unfolding get_message load_index
get_message_lem h id s n w =
    let load : load_index h (calm s) ≡ (some tt, reread h s) = rw n (read_index_lem h s w) in
    rw (load, get_message, load) refl

-- A delete of a message of a mailbox object that has just read its index.
delete-reread :
    (h p : ℕ) (id : Bytes) (s : Store)
    → Finds h id ((reread h s).mailboxes h).messages (reread h s) (found p)
    → let path = (s.mailboxes h).path in
      listing path (delete p (reread h s)).1.disk ≡ without_id id (listing path s.disk)
delete-reread h p id s (has, left, o, i) =
    let r = reread-Rereads h s in
    let t = reread h s in
    let here : (t.mailboxes (t.messages p).mailbox).path ≡ (s.mailboxes h).path =
      ap (λ g. (t.mailboxes g).path) o ∙ r.path in
    ap (λ u. listing (s.mailboxes h).path (delete p u).1.disk) (sym (calm_lem t r.outcomes))
    ∙ ap (λ path. listing path (delete p (calm t)).1.disk) (sym here)
    ∙ (delete-Unlisted p t).0
    ∙ ap (λ g. fields_of t.messages (remove_pointer p (t.mailboxes g).messages)) o
    ∙ left
    ∙ ap (without_id id) r.fields

module _ (lib : Library) (message_cap : ℕ) (mime : Mime lib.Envelope) where
  -- A request to delete a message, by a text that `ParseMailboxName` gives a name that is not
  -- empty, where no call of the operating system fails and the mailbox's index is not damaged,
  -- takes the first message of the identifier off the index, and is answered that there is none
  -- exactly if the index lists none.
  pub mailbox_delete-listing :
      (req : Request) (name : Bytes) (s : Store)
      → parse_mailbox_name lib.unicode req.name ≡ named name
      → name ≢ []
      → is_whole (find (index_path (path_of lib message_cap mime name)) s.disk) ≡ true
      → let path = path_of lib message_cap mime name in
        let r = mailbox_delete lib.unicode (files lib message_cap mime) mime req (calm s) in
        (listing path r.1.disk ≡ without_id req.id (listing path s.disk))
        × (is_not_found r.0 ≡ not (has_id req.id (listing path s.disk)))
  unfolding new_mailbox
  mailbox_delete-listing req name s e ne w =
      let h = s.next_mailbox in
      let path = path_of lib message_cap mime name in
      let o = with_object lib message_cap mime name (calm s) in
      let fresh : o.mailboxes h
          ≡ record { name = name; path = path; index_loaded = false; messages = [] } =
        ground arith in
      let place : (o.mailboxes h).path ≡ path = ap (λ mb. mb.path) fresh in
      let r = reread-Rereads h o in
      let got =
        get_message_lem h req.id o (ap (λ mb. mb.index_loaded) fresh)
          (ap (λ p. is_whole (find (index_path p) s.disk)) place ∙ w) in
      let (result, search, x) =
        find_message-Finds h req.id ((reread h o).mailboxes h).messages (reread h o) r.owned in
      let fields : fields_of (reread h o).messages ((reread h o).mailboxes h).messages
          ≡ listing path s.disk =
        r.fields ∙ ap (λ p. listing p s.disk) place in
      answer h o result (mailbox_for-named lib message_cap mime req.name name (calm s) e ne) place
        (got ∙ search) fields refl r.disk x
    where
      answer :
          (h : ℕ) (o : Store) (result : Lookup ℕ)
          → mailbox_for lib name (calm s) ≡ (some h, o)
          → (o.mailboxes h).path ≡ path_of lib message_cap mime name
          → get_message h req.id o ≡ (result, reread h o)
          → fields_of (reread h o).messages ((reread h o).mailboxes h).messages
            ≡ listing (path_of lib message_cap mime name) s.disk
          → o.disk ≡ s.disk
          → (reread h o).disk ≡ o.disk
          → Finds h req.id ((reread h o).mailboxes h).messages (reread h o) result
          → let path = path_of lib message_cap mime name in
            let r = mailbox_delete lib.unicode (files lib message_cap mime) mime req (calm s) in
            (listing path r.1.disk ≡ without_id req.id (listing path s.disk))
            × (is_not_found r.0 ≡ not (has_id req.id (listing path s.disk)))
      answer h o (found p) opened place got fields same disk x =
          let path = path_of lib message_cap mime name in
          let (status, after) =
            mailbox_delete_found lib.unicode (files lib message_cap mime) mime req name h p (calm s)
              o (reread h o) e opened got in
          (
            ap (λ t. listing path t.disk) after
                ∙ ap (λ q. listing q (delete p (reread h o)).1.disk) (sym place)
                ∙ delete-reread h p req.id o x
                ∙ ap (λ q. without_id req.id (listing q o.disk)) place
                ∙ ap (λ d. without_id req.id (listing path d)) same,
            status ∙ ap not (sym x.0 ∙ ap (has_id req.id) fields),
          )
      answer h o not_exist opened place got fields same disk x =
          let path = path_of lib message_cap mime name in
          let answered =
            mailbox_delete_missing lib.unicode (files lib message_cap mime) mime req name h (calm s)
              o (reread h o) e opened got in
          (
            ap (λ r. listing path r.1.disk) answered
                ∙ ap (listing path) (disk ∙ same)
                ∙ sym fields
                ∙ sym x.1
                ∙ ap (without_id req.id) fields,
            ap (λ r. is_not_found r.0) answered ∙ ap not (sym x.0 ∙ ap (has_id req.id) fields),
          )
      answer h o lookup_failed opened place got fields same disk x = elim x [ ]
