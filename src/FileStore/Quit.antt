-- ===== src/FileStore/Quit.antt =====
-- A POP3 session on the file store: what QUIT leaves of a mailbox's index.
pub mod Holding
use inbucket.Common.{
  ℕ, suc, leb, none, ◌≡◌, refl, sym, ap, ◌∙◌, arith, Bool, true, false, not, some, List, [], ◌∷◌,
  all, length, ◌==◌, is_nil, if◌then◌else◌, Bool-cases, inl, inr,
}
use mathlib.Core.Path.{subst}
use inbucket.FileStore.{Owned, Library, FileMessage, Store, call, fields_of, set_mailbox, update}
use inbucket.FileStore.Files.{Meta, FilePath, find}
use inbucket.FileStore.Index.{index_path, stat, load_messages}
use inbucket.FileStore.Index.Loaded.{is_whole, cleared, reread, reread-Rereads, read_index_lem}
use inbucket.FileStore.Index.Written.{calm, on_disk, listing}
use inbucket.FileStore.Interface.{file_store}
use inbucket.FileStore.Quit.Holding.{Holds, remove_all, delete_each-Holds}
use inbucket.FileStore.Mailbox.{load_index, get_messages}
use inbucket.FileStore.Message.{raw_path_of, remove_pointer, remove_file, delete}
use inbucket.FileStore.Message.Adding.{calm_lem}
use inbucket.FileStore.Message.Deleting.{delete-Unlisted, write_index-set, left_of, unlisted}
use inbucket.FileStore.Message.Room.{delete-SameHeaps}
use inbucket.Pop3.Messages.{quit_command}
use inbucket.Pop3.Messages.Update.{marked, delete_each, quit_command-deletes}
use inbucket.Pop3.Session.Flags.{Inv}
use inbucket.Pop3.Session.{Session, World, loaded, load_mailbox}

-- The entries of a list whose flag is on; an entry without a flag stays.
abbrev pub kept : {A : Type 0} → List Bool → List A → List A
kept flags [] = []
kept [] (a ∷ xs) = a ∷ xs
kept (b ∷ bs) (a ∷ xs) = let rest = kept bs xs in if b then a ∷ rest else rest

module _ (lib : Library) (message_cap : ℕ) where
  marked-Owned :
      (heap : ℕ → FileMessage) (h : ℕ) (ps : List ℕ) (flags : List Bool)
      → Owned heap h ps
      → Owned heap h (marked (file_store lib message_cap) ps flags)
  marked-Owned heap h [] flags o = tt
  marked-Owned heap h (p ∷ ps) [] o = tt
  marked-Owned heap h (p ∷ ps) (true ∷ flags) (o, os) = marked-Owned heap h ps flags os
  marked-Owned heap h (p ∷ ps) (false ∷ flags) (o, os) = (o, marked-Owned heap h ps flags os)

  -- A list of different pointers.
  abbrev is_absent : ℕ → List ℕ → Bool
  is_absent m = all (λ q. not (q == m))

  abbrev Distinct : List ℕ → Type 0
  Distinct [] = Unit
  Distinct (p ∷ ps) = (is_absent p ps ≡ true) × Distinct ps

  absent-marked :
      (m : ℕ) (ps : List ℕ) (flags : List Bool)
      → is_absent m ps ≡ true
      → is_absent m (marked (file_store lib message_cap) ps flags) ≡ true
  absent-marked m [] flags e = refl
  absent-marked m (p ∷ ps) [] e = refl
  absent-marked m (p ∷ ps) (true ∷ flags) e = absent-marked m ps flags (ground arith)
  absent-marked m (p ∷ ps) (false ∷ flags) e =
      let rest = absent-marked m ps flags (ground arith) in ground (arith, rest)

  remove_all-absent :
      (m : ℕ) (ds ps : List ℕ)
      → is_absent m ds ≡ true
      → remove_all ds (m ∷ ps) ≡ m ∷ remove_all ds ps
  unfolding remove_pointer
  remove_all-absent m [] ps e = refl
  remove_all-absent m (d ∷ ds) ps e =
      let apart : (d == m) ≡ false = ground arith in
      rw apart (remove_all-absent m ds (remove_pointer d ps) (ground arith))

  remove_all-marked :
      (ps : List ℕ) (flags : List Bool)
      → Distinct ps
      → length flags ≡ length ps
      → remove_all (marked (file_store lib message_cap) ps flags) ps ≡ kept flags ps
  unfolding remove_pointer
  remove_all-marked [] flags d e = refl
  remove_all-marked (p ∷ ps) [] d e = refl
  remove_all-marked (p ∷ ps) (true ∷ flags) (a, d) e =
      remove_all-absent p (marked (file_store lib message_cap) ps flags) ps
        (absent-marked p ps flags a)
      ∙ ap (◌∷◌ p) (remove_all-marked ps flags d (omega arith))
  remove_all-marked (p ∷ ps) (false ∷ flags) (a, d) e =
      let here : (p == p) ≡ true = ground arith in
      ap (remove_all (marked (file_store lib message_cap) ps flags)) (rw here refl)
      ∙ remove_all-marked ps flags d (omega arith)

  fields_of-kept :
      (heap : ℕ → FileMessage) (ps : List ℕ) (flags : List Bool)
      → fields_of heap (kept flags ps) ≡ kept flags (fields_of heap ps)
  unfolding fields_of
  fields_of-kept heap [] flags = refl
  fields_of-kept heap (p ∷ ps) [] = refl
  fields_of-kept heap (p ∷ ps) (true ∷ flags) =
      ap (◌∷◌ (heap p).fields) (fields_of-kept heap ps flags)
  fields_of-kept heap (p ∷ ps) (false ∷ flags) = fields_of-kept heap ps flags

  -- The pointers of loaded messages are new, and different.
  abbrev from_on : ℕ → List ℕ → Bool
  from_on n = all (λ p. leb n p)

  from_on-less :
      (n : ℕ) (ps : List ℕ)
      → from_on (suc n) ps ≡ true
      → (from_on n ps ≡ true) × (is_absent n ps ≡ true)
  from_on-less n [] e = (refl, refl)
  from_on-less n (p ∷ ps) e =
      let (less, absent) = from_on-less n ps (ground arith) in
      (ground (arith, less), ground (arith, absent))

  load_messages-fresh :
      (h : ℕ) (ms : List Meta) (s : Store)
      → (from_on s.next_message (load_messages h ms s).0 ≡ true) × Distinct (load_messages h ms s).0
  unfolding load_messages
  load_messages-fresh h [] s = (refl, tt)
  load_messages-fresh h (m ∷ ms) s =
      let new : FileMessage = record { mailbox = h; fields = m; writable = false; writer = none } in
      let (up, apart) = load_messages-fresh h ms (record s {
        messages = update s.messages s.next_message new;
        next_message = suc s.next_message;
      }) in
      let (less, absent) = from_on-less s.next_message _ up in
      (ground (arith, less), (absent, apart))

  -- A mailbox object that has read its index.
  reread-Holds :
      (h : ℕ) (s : Store)
      → Holds h
          (s.mailboxes h).path
          (reread h s).messages
          ((reread h s).mailboxes h).messages
          (reread h s)
  reread-Holds h s =
      let r = reread-Rereads h s in
      record {
        outcomes = r.outcomes;
        heap_same = refl;
        path_same = r.path;
        held = refl;
        listed = ap (listing (s.mailboxes h).path) r.disk ∙ sym r.fields;
      }

  reread-Distinct : (h : ℕ) (s : Store) → Distinct ((reread h s).mailboxes h).messages
  unfolding reread
  reread-Distinct h s =
      let ms = listing (s.mailboxes h).path s.disk in
      subst Distinct {x = (load_messages h ms (cleared h s)).0}
        {y = ((reread h s).mailboxes h).messages} (ground arith)
        (load_messages-fresh h ms (cleared h s)).1

  load_mailbox-reread :
      (h : ℕ) (s : Store) (session : Session (file_store lib message_cap))
      → (s.mailboxes h).index_loaded ≡ false
      → is_whole (find (index_path (s.mailboxes h).path) s.disk) ≡ true
      → let w =
          load_mailbox
            (file_store lib message_cap)
            h
            (record { session = session; store = calm s }) in
        (w.store ≡ reread h s) × (w.session.messages ≡ ((reread h s).mailboxes h).messages)
  unfolding load_mailbox get_messages load_index
  load_mailbox-reread h s session n w =
      let files = file_store lib message_cap in
      let got : get_messages h (calm s) ≡ (some ((reread h s).mailboxes h).messages, reread h s) =
        rw (n, read_index_lem h s w) refl in
      (ap (λ r. r.1) got, ap (λ r. loaded files r.0) got)

  -- A POP3 session loads a mailbox whose index is not damaged, and the commands that follow keep the
  -- store, the messages, and a flag for each of them. Then QUIT in TRANSACTION, where no call of the
  -- operating system fails, leaves the index of the entries listed before, in their order, but for
  -- those whose flag is off.
  pub quit_command-listing :
      (h : ℕ) (s : Store) (session : Session (file_store lib message_cap))
      (w : World (file_store lib message_cap))
      → (s.mailboxes h).index_loaded ≡ false
      → is_whole (find (index_path (s.mailboxes h).path) s.disk) ≡ true
      → w.store
        ≡ (load_mailbox
            (file_store lib message_cap)
            h
            (record { session = session; store = calm s })).store
      → w.session.messages
        ≡ (load_mailbox
            (file_store lib message_cap)
            h
            (record { session = session; store = calm s })).session.messages
      → Inv (file_store lib message_cap) w.session
      → (w' : World (file_store lib message_cap)) × (quit_command (file_store lib message_cap) w
          ≡ some w')
        × (listing (s.mailboxes h).path w'.store.disk
            ≡ kept w.session.retain (listing (s.mailboxes h).path s.disk))
  quit_command-listing h s session w n whole e f i =
      let files = file_store lib message_cap in
      let flags = w.session.retain in
      let (store, messages) = load_mailbox-reread h s session n whole in
      let r = reread-Rereads h s in
      let heap = (reread h s).messages in
      let ps = ((reread h s).mailboxes h).messages in
      let all_ps : w.session.messages ≡ ps = f ∙ messages in
      let (w', done, after, state) = quit_command-deletes files w i in
      let left =
        delete_each-Holds lib message_cap h (s.mailboxes h).path heap (marked files ps flags) ps
          (reread h s) (marked-Owned heap h ps flags r.owned) (reread-Holds h s) in
      let gone = remove_all-marked ps flags (reread-Distinct h s) (i.flagged ∙ ap length all_ps) in
      (
        w',
        done,
        ap (λ st. listing (s.mailboxes h).path st.disk)
              (after
                ∙ ap (λ l. delete_each files (marked files l flags) w.store) all_ps
                ∙ ap (delete_each files (marked files ps flags)) (e ∙ store))
            ∙ left.listed
            ∙ ap (fields_of heap) gone
            ∙ fields_of-kept heap ps flags
            ∙ ap (kept flags) r.fields,
      )
