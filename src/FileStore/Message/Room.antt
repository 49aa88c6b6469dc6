-- ===== src/FileStore/Message/Room.antt =====
-- The loop that keeps a mailbox below its cap.
use inbucket.Common.{
  ℕ, suc, ◌+◌, ◌-◌, ◌<◌, ◌≡◌, refl, sym, ap, ◌∙◌, arith, Bool, true, false, List, [], ◌∷◌, ◌==◌,
  leb, length, length-drop, drop, is_nil, if◌then◌else◌, Bool-cases, inl, inr,
}
use mathlib.Core.Path.{subst}
use inbucket.FileStore.Files.{FilePath, remove_path}
use inbucket.FileStore.{Owned, Store, pure, set_mailbox}
use inbucket.FileStore.Index.Heaps.{
  SameHeaps, Keeps, Keeps-then, Keeps-stat, Keeps-disk, Keeps-write_index,
}
use inbucket.FileStore.Message.{
  raw_path_of, remove_pointer, remove_file, delete, make_room, enforce_cap,
}

Keeps-remove_file : (p : FilePath) → Keeps (remove_file p)
unfolding remove_file
Keeps-remove_file p = Keeps-then _ _ (Keeps-stat p) (Keeps-disk (remove_path p))

Keeps-unless : (b : Bool) (p : FilePath) → Keeps (if b then pure tt else remove_file p)
Keeps-unless true p = record { at = λ s. ground arith }
Keeps-unless false p = Keeps-remove_file p

-- What `Delete` does to the objects, whatever the operating system answers.
abbrev pub without : ℕ → Store → Store
without p s =
    let h = (s.messages p).mailbox in
    set_mailbox h (record (s.mailboxes h) { messages = remove_pointer p (s.mailboxes h).messages })
      s

pub delete-SameHeaps : (p : ℕ) (s : Store) → SameHeaps (without p s) (delete p s).1
unfolding delete
delete-SameHeaps p s =
    let h = (s.messages p).mailbox in
    let left = remove_pointer p (s.mailboxes h).messages in
    (Keeps-then _ _ (Keeps-write_index h) (Keeps-unless (is_nil left) (raw_path_of p s))).at
      (without p s)

messages-delete :
    (h p : ℕ) (ps : List ℕ) (s : Store)
    → (s.messages p).mailbox ≡ h
    → (s.mailboxes h).messages ≡ p ∷ ps
    → ((delete p s).1.mailboxes h).messages ≡ ps
unfolding remove_pointer
messages-delete h p ps s o e =
    ap (λ boxes. (boxes h).messages) (delete-SameHeaps p s).mailboxes ∙ ground (arith, o, e)

make_room-drop :
    (message_cap h : ℕ) (ms : List ℕ) (s : Store)
    → 0 < message_cap
    → (s.mailboxes h).messages ≡ ms
    → Owned s.messages h ms
    → ((make_room (length ms) message_cap h s).mailboxes h).messages
      ≡ drop (length ms + 1 - message_cap) ms
unfolding make_room
make_room-drop message_cap h [] s c e o = let z : 1 - message_cap ≡ 0 = omega arith in rw z e
make_room-drop message_cap h (p ∷ ps) s c e (o, os) =
    let d = delete-SameHeaps p s in
    let owned : Owned (delete p s).1.messages h ps =
      subst (λ heap. Owned heap h ps) (sym d.messages) os in
    let ih =
      make_room-drop message_cap h ps (delete p s).1 c (messages-delete h p ps s o e) owned in
    elim (Bool-cases (leb message_cap (suc (length ps)))) [
      | inl full ↦
          let more : suc (length ps) + 1 - message_cap ≡ suc (length ps + 1 - message_cap) =
            ground arith in
          rw (e, full, e, make_room) (ih ∙ ap (λ n. drop n (p ∷ ps)) (sym more))
      | inr room ↦
          let none_over : suc (length ps) + 1 - message_cap ≡ 0 = ground arith in
          rw (e, room, make_room) (e ∙ ap (λ n. drop n (p ∷ ps)) (sym none_over))
    ]

-- Whatever the operating system answers, the loop of `NewMessage` ends with fewer messages than
-- the cap: the latest of those that the mailbox object held, in their order.
pub enforce_cap-drop :
    (message_cap h : ℕ) (s : Store)
    → 0 < message_cap
    → Owned s.messages h (s.mailboxes h).messages
    → let ms = (s.mailboxes h).messages in
      let kept = ((enforce_cap message_cap h s).mailboxes h).messages in
      (kept ≡ drop (length ms + 1 - message_cap) ms) × (length kept < message_cap)
unfolding enforce_cap
enforce_cap-drop message_cap h s c o =
    let ms = (s.mailboxes h).messages in
    let e = make_room-drop message_cap h ms s c refl o in
    let positive : (message_cap == 0) ≡ false = ground arith in
    rw positive (e, rw e (omega (arith, length-drop (length ms + 1 - message_cap) ms)))
