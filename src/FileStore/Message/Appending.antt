-- ===== src/FileStore/Message/Appending.antt =====
-- `Append`: the raw file is created once, and the text collects in the writer.
use inbucket.Common.{
  Bool-cases, inl, inr, take, ◌++◌, ◌==◌, if◌then◌else◌, ℕ, ◌+◌, ◌<◌, ◌≤◌, ◌≡◌, refl, sym, ap, ◌∙◌,
  arith, true, false, none, some, [], length, Bytes,
}
use mathlib.Core.Path.{subst}
use inbucket.FileStore.Files.{FilePath, Disk, raw_file, same, find, exists, put, parent, file_at}
use inbucket.FileStore.Files.Laws.{find-put, same_iff, parent-append}
use inbucket.FileStore.{Library, Writer, FileMessage, Store, set_message, call}
use inbucket.FileStore.Index.{index_path}
use inbucket.FileStore.Index.Written.{
  calm, on_disk, opened, create_dir_lem, create_file_lem, exists-opened,
}
use inbucket.FileStore.Message.{
  raw_path, raw_path_of, new_writer, put_bytes, spilled, write_bytes, open_writer, append,
  with_headers, close,
}
use inbucket.FileStore.Index.Loaded.{is_whole}
use inbucket.FileStore.Message.Adding.{messages-added}
use inbucket.FileStore.Message.Closing.{closed, flushed, close-closed}

-- The message behind a write of bytes, and the disk.
abbrev pub took : Bytes → Writer → FileMessage → FileMessage
took bytes v m = record m {
  fields = record m.fields { fsize = m.fields.fsize + length bytes };
  writer = some v;
}

abbrev spill : ℕ → Bytes → Writer → Store → Disk
spill p bytes w s =
    let v = put_bytes bytes w in
    if v.on_file == w.on_file
    then s.disk
    else put (raw_path_of p s) (raw_file (take v.on_file v.buffer)) s.disk

pub find-spill :
    (p : ℕ) (bytes : Bytes) (w : Writer) (s : Store) (q : FilePath)
    → same (raw_path_of p s) q ≡ false
    → find q (spill p bytes w s) ≡ find q s.disk
find-spill p bytes w s q n =
    let v = put_bytes bytes w in
    ground (arith, n, find-put (raw_path_of p s) q (raw_file (take v.on_file v.buffer)) s.disk)

-- The store behind a write.
abbrev pub wrote : ℕ → Bytes → Writer → Store → Store
wrote p bytes w s =
    set_message p (took bytes (put_bytes bytes w) (s.messages p)) (on_disk (spill p bytes w s) s)

pub write_bytes_lem :
    (p : ℕ) (bytes : Bytes) (w : Writer) (s : Store)
    → w.broken ≡ false
    → write_bytes p bytes w (calm s) ≡ (some tt, wrote p bytes w s)
unfolding write_bytes call raw_path_of
write_bytes_lem p bytes w s e = elim (Bool-cases ((put_bytes bytes w).on_file == w.on_file)) [
  | inl c ↦ rw (e, c) refl
  | inr c ↦ rw (e, c) refl
]

pub append-open :
    (p : ℕ) (bytes : Bytes) (w : Writer) (s : Store)
    → (s.messages p).writable ≡ true
    → (s.messages p).writer ≡ some w
    → w.broken ≡ false
    → append p bytes (calm s) ≡ (some tt, wrote p bytes w s)
unfolding append
append-open p bytes w s ew eo eb = ground (arith, ew, eo, write_bytes_lem p bytes w s eb)

-- The store behind the creation of the raw file.
abbrev pub created : ℕ → Store → Store
created p s =
    set_message p (record (s.messages p) { writer = some new_writer })
      (on_disk
        (put (raw_path_of p s) (raw_file [])
          (opened (s.mailboxes (s.messages p).mailbox).path s.disk))
        s)

open_writer_lem : (p : ℕ) (s : Store) → open_writer p (calm s) ≡ (some tt, created p s)
unfolding open_writer raw_path_of raw_path
open_writer_lem p s =
    let path = (s.mailboxes (s.messages p).mailbox).path in
    let file = raw_path path (s.messages p).fields.fid in
    let s1 = on_disk (opened path s.disk) s in
    let dir : exists (parent file) (opened path s.disk) ≡ true =
      ap (λ q. exists q (opened path s.disk)) (parent-append path _) ∙ exists-opened path s.disk in
    ground (arith, create_dir_lem path s, create_file_lem file (raw_file []) s1 dir)

pub append-new :
    (p : ℕ) (bytes : Bytes) (s : Store)
    → (s.messages p).writable ≡ true
    → (s.messages p).writer ≡ none
    → append p bytes (calm s) ≡ (some tt, wrote p bytes new_writer (created p s))
unfolding append
append-new p bytes s ew eo =
    ground
      (arith, ew, eo, open_writer_lem p s, write_bytes_lem p bytes new_writer (created p s) refl)

append-emptied :
    (p : ℕ) (bytes : Bytes) (s : Store)
    → length bytes ≤ 4096
    → (s.messages p).writable ≡ true
    → (s.messages p).writer ≡ none
    → let r = append p bytes (calm s) in
      (r.0 ≡ some tt) × (file_at (raw_path_of p s) r.1.disk ≡ some (raw_file []))
unfolding spilled
append-emptied p bytes s short ew eo =
    let path = (s.mailboxes (s.messages p).mailbox).path in
    let raw = raw_path_of p s in
    (
      ap (λ r. r.0) (append-new p bytes s ew eo),
      ap (λ r. file_at raw r.1.disk) (append-new p bytes s ew eo)
          ∙ ground (arith, find-put raw raw (raw_file []) (opened path s.disk), same_iff raw raw),
    )

-- Behind a `Close` with no error of a message that was writable, where no call of the operating
-- system fails, an `Append` of at most the 4096 bytes that the new writer holds returns no error and
-- leaves the raw file empty.
pub append-close :
    (lib : Library) (p : ℕ) (w : Writer) (body : lib.Envelope) (bytes : Bytes) (s : Store)
    → p < s.next_message
    → length bytes ≤ 4096
    → (s.messages p).writable ≡ true
    → (s.messages p).writer ≡ some w
    → w.broken ≡ false
    → lib.read_envelope w.buffer ≡ some body
    → is_whole (find (index_path (s.mailboxes (s.messages p).mailbox).path) s.disk) ≡ true
    → let t = (close lib p (calm s)).1 in
      let r = append p bytes (calm t) in
      (r.0 ≡ some tt) × (file_at (raw_path_of p t) r.1.disk ≡ some (raw_file []))
append-close lib p w body bytes s l within_buffer ewr ew eb ee ei =
    let f = with_headers lib p body (flushed lib p w s) in
    let kept : (closed lib p w body s).messages p ≡ f.messages p = messages-added p f p l in
    subst
      (λ r.
        let a = append p bytes (calm r.1) in
        (a.0 ≡ some tt) × (file_at (raw_path_of p r.1) a.1.disk ≡ some (raw_file [])))
      (sym (close-closed lib p w body s ew eb ee ei))
      (append-emptied p bytes (closed lib p w body s) within_buffer
        (ap (λ m. m.writable) kept ∙ ground (arith, ewr)) (ap (λ m. m.writer) kept ∙ ground arith))

-- What writing more bytes to a message changes: the bytes its writer holds, its size, and its raw
-- file.
pub record Writes (p : ℕ) (w : Writer) (bytes : Bytes) (s t : Store) : Type 0 where
  pub writer : Writer
  pub buffer : writer.buffer ≡ w.buffer ++ bytes
  pub unbroken : writer.broken ≡ false
  pub others : (q : FilePath) → same (raw_path_of p s) q ≡ false → find q t.disk ≡ find q s.disk
  pub mailboxes : t.mailboxes ≡ s.mailboxes
  pub next_message : t.next_message ≡ s.next_message
  pub outcomes : t.outcomes ≡ []
  pub message : t.messages p ≡ took bytes writer (s.messages p)
