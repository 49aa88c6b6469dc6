-- ===== src/FileStore/Message/Stale.antt =====
-- Two objects of one mailbox: what one of them forgets.
use inbucket.Common.{
  ℕ, ◌<◌, ◌≡◌, refl, sym, ap, ◌∙◌, arith, true, false, some, List, [], ◌∷◌, ◌==◌, Bool-cases, inl,
  inr,
}
use inbucket.FileStore.Files.{find}
use inbucket.FileStore.{Library, Writer, FileMessage, Store, fields_of}
use inbucket.FileStore.Index.{index_path}
use inbucket.FileStore.Index.Written.{calm, listing}
use inbucket.FileStore.Index.Loaded.{is_whole}
use inbucket.FileStore.Message.{remove_pointer, with_headers, close, delete}
use inbucket.FileStore.Message.Adding.{messages-added, mailboxes-added}
use inbucket.FileStore.Message.Closing.{closed, flushed, close-closed}
use inbucket.FileStore.Message.Deleting.{left_of, delete-Unlisted}

-- The pointers of a list are older than `n`, and none of them is `q`.
abbrev pub Apart : ℕ → ℕ → List ℕ → Type 0
Apart q n [] = Unit
Apart q n (p ∷ ps) = (p < n) × ((q == p) ≡ false) × Apart q n ps

Apart-remove_pointer : (q n p : ℕ) (ps : List ℕ) → Apart q n ps → Apart q n (remove_pointer p ps)
unfolding remove_pointer
Apart-remove_pointer q n p [] a = a
Apart-remove_pointer q n p (r ∷ ps) (l, e, a) = elim (Bool-cases (p == r)) [
  | inl same ↦ rw same a
  | inr other ↦ rw other (l, e, Apart-remove_pointer q n p ps a)
]

fields_of-older :
    (old new : ℕ → FileMessage) (q n : ℕ) (ps : List ℕ)
    → ((p : ℕ) → p < n → (q == p) ≡ false → new p ≡ old p)
    → Apart q n ps
    → fields_of new ps ≡ fields_of old ps
unfolding fields_of
fields_of-older old new q n [] same a = refl
fields_of-older old new q n (p ∷ ps) same (l, e, a) =
    ground (arith, same p l e, fields_of-older old new q n ps same a)

module _ (lib : Library) where
  -- Objects that `Close` of `q` leaves alone: the other mailboxes, and the older messages.
  closed-messages :
      (q : ℕ) (w : Writer) (body : lib.Envelope) (s : Store) (p : ℕ)
      → p < s.next_message
      → (q == p) ≡ false
      → (closed lib q w body s).messages p ≡ s.messages p
  closed-messages q w body s p l e =
      let t = with_headers lib q body (flushed lib q w s) in messages-added q t p l ∙ rw e refl

  closed-mailboxes :
      (q : ℕ) (w : Writer) (body : lib.Envelope) (s : Store) (h : ℕ)
      → ((s.messages q).mailbox == h) ≡ false
      → (closed lib q w body s).mailboxes h ≡ s.mailboxes h
  closed-mailboxes q w body s h e =
      let t = with_headers lib q body (flushed lib q w s) in
      let own : (t.messages q).mailbox ≡ (s.messages q).mailbox = ground arith in
      mailboxes-added q t h (ap (λ b. b == h) own ∙ e)

  -- A mailbox object that read its index before another object's `Close` of `q` forgets `q`: where
  -- no call of the operating system fails, its `Delete` of `p` leaves an index that lists what it
  -- would have listed with no such message.
  pub delete-close :
      (p q : ℕ) (w : Writer) (body : lib.Envelope) (s : Store)
      → (s.messages q).writer ≡ some w
      → w.broken ≡ false
      → lib.read_envelope w.buffer ≡ some body
      → is_whole (find (index_path (s.mailboxes (s.messages q).mailbox).path) s.disk) ≡ true
      → ((s.messages q).mailbox == (s.messages p).mailbox) ≡ false
      → p < s.next_message
      → (q == p) ≡ false
      → Apart q s.next_message (s.mailboxes (s.messages p).mailbox).messages
      → let path = (s.mailboxes (s.messages p).mailbox).path in
        let t = (close lib q (calm s)).1 in
        listing path (delete p (calm t)).1.disk ≡ listing path (delete p (calm s)).1.disk
  delete-close p q w body s ew eb ee ei other l e a =
      let c = closed lib q w body s in
      let box = (s.messages p).mailbox in
      let path = (s.mailboxes box).path in
      let left = left_of p s in
      let same_message = closed-messages q w body s p l e in
      let same_box : (c.mailboxes (c.messages p).mailbox) ≡ s.mailboxes box =
        ap (λ m. c.mailboxes m.mailbox) same_message ∙ closed-mailboxes q w body s box other in
      let listed : listing (c.mailboxes (c.messages p).mailbox).path (delete p (calm c)).1.disk
          ≡ fields_of c.messages (left_of p c) =
        (delete-Unlisted p c).0 in
      let kept : fields_of c.messages left ≡ fields_of s.messages left =
        fields_of-older s.messages c.messages q s.next_message left (closed-messages q w body s)
          (Apart-remove_pointer q s.next_message p (s.mailboxes box).messages a) in
      ap (λ r. listing path (delete p (calm r.1)).1.disk) (close-closed lib q w body s ew eb ee ei)
      ∙ ap (λ mb. listing mb.path (delete p (calm c)).1.disk) (sym same_box)
      ∙ listed
      ∙ ap (λ mb. fields_of c.messages (remove_pointer p mb.messages)) same_box
      ∙ kept
      ∙ sym (delete-Unlisted p s).0
