-- ===== src/FileStore/Index/Loaded.antt =====
-- What reading an index does to a mailbox.
use inbucket.Common.{
  ℕ, suc, ◌<◌, ◌≡◌, refl, ap, ◌∙◌, arith, Bool, true, false, Option, none, some, List, [], ◌∷◌,
  ◌==◌,
}
use mathlib.Core.Path.{subst}
use inbucket.FileStore.Files.{Meta, Node, directory, index_file, raw_file, find, exists}
use inbucket.FileStore.{Owned, FileMessage, Store, call, fields_of, set_mailbox, update}
use inbucket.FileStore.Index.{index_path, stat, load_messages, decode_index, read_index}
use inbucket.FileStore.Index.Written.{calm, listing}

-- What loading messages leaves: their fields in order, and all else but the new objects.
pub record Loads (h : ℕ) (ms : List Meta) (s : Store) : Type 0 where
  pub fields : fields_of (load_messages h ms s).1.messages (load_messages h ms s).0 ≡ ms
  pub older : (p : ℕ) → p < s.next_message → (load_messages h ms s).1.messages p ≡ s.messages p
  pub owned : Owned (load_messages h ms s).1.messages h (load_messages h ms s).0
  pub mailboxes : (load_messages h ms s).1.mailboxes ≡ s.mailboxes
  pub disk : (load_messages h ms s).1.disk ≡ s.disk
  pub outcomes : (load_messages h ms s).1.outcomes ≡ s.outcomes

pub load_messages-Loads : (h : ℕ) (ms : List Meta) (s : Store) → Loads h ms s
unfolding load_messages fields_of
load_messages-Loads h [] s = record {
  fields = refl;
  older = λ p l. refl;
  owned = tt;
  mailboxes = refl;
  disk = refl;
  outcomes = refl;
}
load_messages-Loads h (m ∷ ms) s =
    let p = s.next_message in
    let new : FileMessage = record { mailbox = h; fields = m; writable = false; writer = none } in
    let r =
      load_messages-Loads h ms
        (record s { messages = update s.messages p new; next_message = suc p }) in
    record {
      fields = ground (arith, r.fields, r.older p);
      older = λ q l. ground (arith, r.older q);
      owned = (ground (arith, r.older p), r.owned);
      mailboxes = r.mailboxes;
      disk = r.disk;
      outcomes = r.outcomes;
    }

-- An index that is missing, or that a decoder reads to its end.
abbrev pub is_whole : Option Node → Bool
is_whole none = true
is_whole (some (index_file ms whole)) = whole
is_whole (some _) = false

abbrev pub cleared : ℕ → Store → Store
cleared h s = set_mailbox h (record (s.mailboxes h) { messages = [] }) (calm s)

-- The store behind `readIndex`.
unfoldable pub reread : ℕ → Store → Store
reread h s =
    let (ps, s') = load_messages h (listing (s.mailboxes h).path s.disk) (cleared h s) in
    set_mailbox h (record (s.mailboxes h) { messages = ps; index_loaded = true }) s'

pub read_index_lem :
    (h : ℕ) (s : Store)
    → is_whole (find (index_path (s.mailboxes h).path) s.disk) ≡ true
    → read_index h (calm s) ≡ (some tt, reread h s)
unfolding reread load_messages read_index decode_index stat exists call
read_index_lem h s w = go (find (index_path (s.mailboxes h).path) s.disk) refl w
  where
    go :
        (o : Option Node)
        → find (index_path (s.mailboxes h).path) s.disk ≡ o
        → is_whole o ≡ true
        → read_index h (calm s) ≡ (some tt, reread h s)
    go none e w = ground (arith, e)
    go (some directory) e w = cc
    go (some (raw_file b)) e w = cc
    go (some (index_file ms ok)) e w =
        ground (arith, e, w, (load_messages-Loads h ms (cleared h s)).outcomes)

-- The store behind a read: the mailbox has new objects of the records listed.
pub record Rereads (h : ℕ) (s : Store) : Type 0 where
  pub fields :
      fields_of (reread h s).messages ((reread h s).mailboxes h).messages
      ≡ listing (s.mailboxes h).path s.disk
  pub owned : Owned (reread h s).messages h ((reread h s).mailboxes h).messages
  pub path : ((reread h s).mailboxes h).path ≡ (s.mailboxes h).path
  pub loaded : ((reread h s).mailboxes h).index_loaded ≡ true
  pub older : (p : ℕ) → p < s.next_message → (reread h s).messages p ≡ s.messages p
  pub others : (g : ℕ) → (h == g) ≡ false → (reread h s).mailboxes g ≡ s.mailboxes g
  pub disk : (reread h s).disk ≡ s.disk
  pub outcomes : (reread h s).outcomes ≡ []

pub reread-Rereads : (h : ℕ) (s : Store) → Rereads h s
unfolding reread
reread-Rereads h s =
    let r = load_messages-Loads h (listing (s.mailboxes h).path s.disk) (cleared h s) in
    record {
      fields = ground (arith, r.fields);
      owned =
          subst
            (λ ps.
              Owned (load_messages h (listing (s.mailboxes h).path s.disk) (cleared h s)).1.messages
                h ps)
            (ground arith) r.owned;
      path = ground arith;
      loaded = ground arith;
      older = r.older;
      others = λ g e. rw e (ap (λ boxes. boxes g) r.mailboxes ∙ rw e refl);
      disk = r.disk;
      outcomes = r.outcomes;
    }
