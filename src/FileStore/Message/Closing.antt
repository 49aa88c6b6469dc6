-- ===== src/FileStore/Message/Closing.antt =====
-- `Close` of a message that was written.
use inbucket.Common.{
  ℕ, ◌<◌, ◌≡◌, refl, ap, ◌∙◌, arith, true, false, none, some, [], ◌∷◌, ◌++◌, Bytes, codes, equal,
  equal_iff,
}
use inbucket.FileStore.Files.{
  Meta, FilePath, raw_file, Disk, same, find, exists, put, file_at, only_file,
}
use inbucket.FileStore.Files.Laws.{find-put, same_iff}
use inbucket.FileStore.{Library, Writer, Store, call, set_message}
use inbucket.FileStore.Index.{index_path, stat}
use inbucket.FileStore.Index.Written.{calm, on_disk, listing}
use inbucket.FileStore.Index.Loaded.{is_whole}
use inbucket.FileStore.Message.{
  raw_path, raw_path_of, flush_writer, read_body, read_raw, header_fields, index_message,
  with_headers, close,
}
use inbucket.FileStore.Message.Adding.{added, add_to_index_lem, added-listing_at, file_at-added_at}

abbrev last_byte : Bytes → ℕ
last_byte [] = 0
last_byte (c ∷ []) = c
last_byte (c ∷ d ∷ s) = last_byte (d ∷ s)

last_byte-append : (s : Bytes) (c : ℕ) (t : Bytes) → last_byte (s ++ c ∷ t) ≡ last_byte (c ∷ t)
last_byte-append [] c t = refl
last_byte-append (b ∷ []) c t = refl
last_byte-append (b ∷ d ∷ s) c t = last_byte-append (d ∷ s) c t

raw_ne_index : (id : Bytes) → equal (codes "index.gob") (id ++ codes ".raw") ≡ false
raw_ne_index id = ground (
  arith,
  equal_iff (codes "index.gob") (id ++ codes ".raw"),
  last_byte-append id b'.' (codes "raw"),
  ap last_byte {x = codes "index.gob"} {y = id ++ codes ".raw"},
)

same-append : (p : FilePath) (a b : Bytes) → same (p ++ a ∷ []) (p ++ b ∷ []) ≡ equal a b
same-append [] a b = ground arith
same-append (c ∷ p) a b = ground (arith, same-append p a b, equal_iff c c)

-- The index and the raw files of a mailbox are different files.
pub index_path-raw_path : (p : FilePath) (id : Bytes) → same (index_path p) (raw_path p id) ≡ false
unfolding raw_path
index_path-raw_path p id = same-append p _ _ ∙ raw_ne_index id

pub raw_path-index_path : (p : FilePath) (id : Bytes) → same (raw_path p id) (index_path p) ≡ false
raw_path-index_path p id = ground (
  arith,
  index_path-raw_path p id,
  same_iff (raw_path p id) (index_path p),
  same_iff (index_path p) (raw_path p id),
)

pub flush_writer_lem :
    (path : FilePath) (w : Writer) (s : Store)
    → w.broken ≡ false
    → flush_writer path (some w) (calm s)
      ≡ (some tt, on_disk (put path (raw_file w.buffer) s.disk) s)
unfolding flush_writer call
flush_writer_lem path w s e = ground (arith, e)

module _ (lib : Library) where
  read_body_lem :
      (p : ℕ) (b : Bytes) (s : Store)
      → s.outcomes ≡ []
      → find (raw_path_of p s) s.disk ≡ some (raw_file b)
      → read_body lib p s ≡ (lib.read_envelope b, s)
  unfolding read_body read_raw stat call exists
  read_body_lem p b s e f = ground (arith, e, f)

  index_message_lem :
      (p : ℕ) (b : Bytes) (body : lib.Envelope) (s : Store)
      → s.outcomes ≡ []
      → find (raw_path_of p s) s.disk ≡ some (raw_file b)
      → lib.read_envelope b ≡ some body
      → is_whole (find (index_path (s.mailboxes (s.messages p).mailbox).path) s.disk) ≡ true
      → index_message lib p s ≡ (some tt, added p (with_headers lib p body s))
  unfolding index_message
  index_message_lem p b body s e f ee ei =
      let headed = add_to_index_lem p (with_headers lib p body s) e (ground (arith, ei)) in
      rw (read_body_lem p b s e f) (rw ee headed)

  -- The store in front of the work on the index: the raw file is written.
  abbrev pub flushed : ℕ → Writer → Store → Store
  flushed p w s =
      on_disk (put (raw_path_of p s) (raw_file w.buffer) s.disk)
        (set_message p (record (s.messages p) { writer = none }) s)

  abbrev pub closed : ℕ → Writer → lib.Envelope → Store → Store
  closed p w body s = added p (with_headers lib p body (flushed p w s))

  pub close-closed :
      (p : ℕ) (w : Writer) (body : lib.Envelope) (s : Store)
      → (s.messages p).writer ≡ some w
      → w.broken ≡ false
      → lib.read_envelope w.buffer ≡ some body
      → is_whole (find (index_path (s.mailboxes (s.messages p).mailbox).path) s.disk) ≡ true
      → close lib p (calm s) ≡ (some tt, closed p w body s)
  unfolding close raw_path_of
  close-closed p w body s ew eb ee ei =
      let t = set_message p (record (s.messages p) { writer = none }) s in
      let raw = raw_path_of p s in
      let path = (s.mailboxes (s.messages p).mailbox).path in
      let own : raw_path_of p (flushed p w s) ≡ raw = ground arith in
      let same_box : ((flushed p w s).messages p).mailbox ≡ (s.messages p).mailbox = ground arith in
      let there : find (raw_path_of p (flushed p w s)) (flushed p w s).disk
          ≡ some (raw_file w.buffer) =
        rw own (ground (arith, find-put raw raw (raw_file w.buffer) s.disk, same_iff raw raw)) in
      let whole : is_whole (
            find (index_path ((flushed p w s).mailboxes ((flushed p w s).messages p).mailbox).path)
              (flushed p w s).disk)
          ≡ true =
        rw same_box (
          ground (
            arith,
            ei,
            find-put raw (index_path path) (raw_file w.buffer) s.disk,
            raw_path-index_path path (s.messages p).fields.fid,
          )) in
      let flush : flush_writer raw (s.messages p).writer (calm t) ≡ (some tt, flushed p w s) =
        ap (λ o. flush_writer raw o (calm t)) ew ∙ flush_writer_lem raw w t eb in
      rw flush (index_message_lem p w.buffer body (flushed p w s) refl there ee whole)

  -- The message's path, and what its mailbox lists, are not touched by the raw file.
  listing-flushed :
      (p : ℕ) (w : Writer) (s : Store)
      → let path = (s.mailboxes (s.messages p).mailbox).path in
        listing path (flushed p w s).disk ≡ listing path s.disk
  unfolding raw_path_of
  listing-flushed p w s =
      let path = (s.mailboxes (s.messages p).mailbox).path in
      let id = (s.messages p).fields.fid in
      ground (
        arith,
        find-put (raw_path path id) (index_path path) (raw_file w.buffer) s.disk,
        raw_path-index_path path id,
      )

  -- What `Close` leaves of the disk `d` in the disk `e`: the index lists the message behind those
  -- that were listed, the raw file holds what was written, and every other file is as it was.
  pub record Delivered (path : FilePath) (m : Meta) (raw : FilePath) (bytes : Bytes) (d : Disk)
      (e : Disk) : Type 0 where
    pub listed : listing path e ≡ listing path d ++ m ∷ []
    pub written : file_at raw e ≡ some (raw_file bytes)
    pub others :
        (q : FilePath)
        → same (index_path path) q ≡ false
        → same raw q ≡ false
        → file_at q e ≡ file_at q d

  closed-Delivered :
      (p : ℕ) (w : Writer) (body : lib.Envelope) (s : Store)
      → p < s.next_message
      → Delivered
          (s.mailboxes (s.messages p).mailbox).path
          (header_fields lib body (s.messages p).fields)
          (raw_path_of p s)
          w.buffer
          s.disk
          (closed p w body s).disk
  unfolding raw_path_of
  closed-Delivered p w body s l =
      let f = with_headers lib p body (flushed p w s) in
      let h = (s.messages p).mailbox in
      let path = (s.mailboxes h).path in
      let raw = raw_path path (s.messages p).fields.fid in
      let box : (f.mailboxes (f.messages p).mailbox).path ≡ path = ground arith in
      let headed : (f.messages p).fields ≡ header_fields lib body (s.messages p).fields =
        ground arith in
      record {
        listed =
            added-listing_at p f path box l
            ∙ ap (λ m. listing path f.disk ++ m ∷ []) headed
            ∙ ap (λ ms. ms ++ header_fields lib body (s.messages p).fields ∷ [])
                (listing-flushed p w s);
        written =
            file_at-added_at p f path raw box (index_path-raw_path path (s.messages p).fields.fid)
            ∙ ground (arith, find-put raw raw (raw_file w.buffer) s.disk, same_iff raw raw);
        others = λ q i r.
            file_at-added_at p f path q box i
            ∙ ap only_file (find-put raw q (raw_file w.buffer) s.disk ∙ rw r refl);
      }

  -- `Close` of a message that was written with no error, whose text has an envelope, in a mailbox
  -- whose index is not damaged, where no call of the operating system fails, returns no error. It
  -- lists the message, with the fields of its headers, behind the messages that the index lists
  -- by then, and leaves its text in the raw file and all other files as they were.
  pub close-Delivered :
      (p : ℕ) (w : Writer) (body : lib.Envelope) (s : Store)
      → p < s.next_message
      → (s.messages p).writer ≡ some w
      → w.broken ≡ false
      → lib.read_envelope w.buffer ≡ some body
      → is_whole (find (index_path (s.mailboxes (s.messages p).mailbox).path) s.disk) ≡ true
      → (t : Store) × (close lib p (calm s) ≡ (some tt, t))
        × Delivered
            (s.mailboxes (s.messages p).mailbox).path
            (header_fields lib body (s.messages p).fields)
            (raw_path_of p s)
            w.buffer
            s.disk
            t.disk
  close-Delivered p w body s l ew eb ee ei =
      (closed p w body s, close-closed p w body s ew eb ee ei, closed-Delivered p w body s l)
