-- ===== src/FileStore/Delivery.antt =====
-- `deliverMessage` of smtpd/handler.go on the file store: the interface's client and its
-- implementation together.
use inbucket.Common.{
  ℕ, ◌+◌, ◌<◌, ◌≡◌, refl, sym, ap, ◌∙◌, arith, true, false, none, some, List, [], ◌∷◌, ◌++◌, length,
  length-append, Bytes,
}
use mathlib.Core.Path.{subst}
use mathlib.Core.List.{append_assoc, append-nil}
use inbucket.DataStore.{DataStore}
use inbucket.FileStore.Files.{Meta, FilePath, Disk, raw_file, same, find, put, only_file, is_some}
use inbucket.FileStore.Files.Laws.{find-put}
use inbucket.FileStore.{Library, Writer, FileMessage, Store}
use inbucket.FileStore.Index.{index_path}
use inbucket.FileStore.Index.Written.{
  opened, listed, file_at-opened, find-opened, length-index_path,
}
use inbucket.FileStore.Index.Loaded.{is_whole}
use inbucket.FileStore.Interface.{file_store}
use inbucket.FileStore.Message.{
  raw_path, raw_path_of, new_writer, put_bytes, header_fields, append, close,
}
use inbucket.FileStore.Message.Adding.{calm_lem}
use inbucket.FileStore.Message.Appending.{
  took, wrote, find-spill, created, Writes, append-open, append-new,
}
use inbucket.FileStore.Message.Closing.{Delivered, close-Delivered, raw_path-index_path}
use inbucket.Smtp.Delivery.{
  World, RecipientDetails, append_lines, write_message, received_header, first_stamp, broadcast,
}
use inbucket.Smtp.Session.{Server}

abbrev pub concat : List Bytes → Bytes
concat [] = []
concat (l ∷ ls) = l ++ concat ls

took-nil : (w : Writer) (m : FileMessage) → m.writer ≡ some w → m ≡ took [] w m
took-nil w m e = ground (arith, e)

took-append :
    (u v : Writer) (l r : Bytes) (m : FileMessage) → took r v (took l u m) ≡ took (l ++ r) v m
took-append u v l r m = ground (arith, length-append l r)

-- Steps of the delivery on any data store.
module _ (ds : DataStore) where
  append_lines-cons :
      (m : ds.Message) (l : Bytes) (ls : List Bytes) (st st' : ds.Store)
      → ds.append m l st ≡ (true, st')
      → append_lines ds m (l ∷ ls) st ≡ append_lines ds m ls st'
  unfolding append_lines
  append_lines-cons m l ls st st' e = ground (arith, e)

  write_message-done :
      (srv : Server) (r : RecipientDetails ds) (ls : List Bytes) (m : ds.Message) (w : World ds)
      (st1 st2 st3 : ds.Store)
      → ds.append m (received_header srv w.session r.address (first_stamp w.stamps)) w.store
        ≡ (true, st1)
      → append_lines ds m ls st1 ≡ (true, st2)
      → ds.close m st2 ≡ (true, st3)
      → ((write_message ds srv r ls m w).0 ≡ true) × ((write_message ds srv r ls m w).1.store ≡ st3)
  unfolding write_message broadcast
  write_message-done srv r ls m w st1 st2 st3 e1 e2 e3 =
      (ground (arith, e1, e2, e3), ground (arith, e1, e2, e3))

module _ (lib : Library) (message_cap : ℕ) where
  abbrev files : DataStore
  files = file_store lib message_cap

  append_lines-Writes :
      (p : ℕ) (ls : List Bytes) (w : Writer) (s : Store)
      → s.outcomes ≡ []
      → (s.messages p).writable ≡ true
      → (s.messages p).writer ≡ some w
      → w.broken ≡ false
      → (t : Store) × (append_lines files p ls s ≡ (true, t)) × Writes p w (concat ls) s t
  unfolding append_lines raw_path_of
  append_lines-Writes p [] w s eo ew er eb = (
    s,
    refl,
    record {
      writer = w;
      buffer = sym (append-nil w.buffer);
      unbroken = eb;
      others = λ q n. refl;
      mailboxes = refl;
      next_message = refl;
      outcomes = eo;
      message = took-nil w (s.messages p) er;
    },
  )
  append_lines-Writes p (l ∷ ls) w s eo ew er eb =
      let v = put_bytes l w in
      let s' = wrote p l w s in
      let here : s'.messages p ≡ took l v (s.messages p) = ground arith in
      let place : raw_path_of p s' ≡ raw_path_of p s = ground arith in
      let first : append p l s ≡ (some tt, s') =
        ap (append p l) (sym (calm_lem s eo)) ∙ append-open p l w s ew er eb in
      let (t, e, r) =
        append_lines-Writes p ls v s' refl (ap (λ m. m.writable) here ∙ ew)
          (ap (λ m. m.writer) here) eb in
      (
        t,
        append_lines-cons files p l ls s s' (ap (λ r. (is_some r.0, r.1)) first) ∙ e,
        record {
          writer = r.writer;
          buffer = r.buffer ∙ append_assoc w.buffer l (concat ls);
          unbroken = r.unbroken;
          others = λ q n. r.others q (ap (λ x. same x q) place ∙ n) ∙ find-spill p l w s q n;
          mailboxes = r.mailboxes;
          next_message = r.next_message;
          outcomes = r.outcomes;
          message =
              r.message
              ∙ ap (took (concat ls) r.writer) here
              ∙ took-append v r.writer l (concat ls) (s.messages p);
        },
      )

  -- The path of the mailbox of a message.
  abbrev box_path : ℕ → Store → FilePath
  box_path p s = (s.mailboxes (s.messages p).mailbox).path

  -- The text that a delivery writes for a recipient.
  abbrev pub delivered_text : Server → RecipientDetails files → List Bytes → World files → Bytes
  delivered_text srv r ls w =
      received_header srv w.session r.address (first_stamp w.stamps) ++ concat ls

  -- The disk behind the creation of the raw file, against the one in front of it.
  abbrev begun : FilePath → FilePath → Disk → Disk
  begun path raw d = put raw (raw_file []) (opened path d)

  find-begun :
      (path : FilePath) (id : Bytes) (d : Disk)
      → find (index_path path) (begun path (raw_path path id) d) ≡ find (index_path path) d
  find-begun path id d = ground (
    arith,
    find-put (raw_path path id) (index_path path) (raw_file []) (opened path d),
    raw_path-index_path path id,
    find-opened path (index_path path) d (length-index_path path),
  )

  begun-Delivered :
      (path : FilePath) (m : Meta) (id text : Bytes) (d f e : Disk)
      → ((q : FilePath)
          → same (raw_path path id) q ≡ false
          → find q f ≡ find q (begun path (raw_path path id) d))
      → Delivered lib path m (raw_path path id) text f e
      → Delivered lib path m (raw_path path id) text d e
  begun-Delivered path m id text d f e k r =
      let raw = raw_path path id in
      record {
        listed =
            r.listed
            ∙ ap (λ o. listed o ++ m ∷ [])
                (k (index_path path) (raw_path-index_path path id) ∙ find-begun path id d);
        written = r.written;
        others = λ q i n.
            r.others q i n
            ∙ ap only_file (k q n)
            ∙ ap only_file (find-put raw q (raw_file []) (opened path d) ∙ rw n refl)
            ∙ file_at-opened path q d;
      }

  -- The store behind the `Received` header.
  abbrev headed : ℕ → Bytes → Store → Store
  headed p head s = wrote p head new_writer (created p s)

  headed-message :
      (p : ℕ) (head : Bytes) (s : Store)
      → (headed p head s).messages p ≡ took head (put_bytes head new_writer) (s.messages p)
  headed-message p head s = ground arith

  -- The raw file stays in its place.
  place-headed :
      (p : ℕ) (head : Bytes) (s : Store) → raw_path_of p (headed p head s) ≡ raw_path_of p s
  unfolding raw_path_of
  place-headed p head s = ground arith

  place-created : (p : ℕ) (s : Store) → raw_path_of p (created p s) ≡ raw_path_of p s
  unfolding raw_path_of
  place-created p s = ground arith

  -- `Close` behind the writes.
  close_writes :
      (p : ℕ) (text : Bytes) (w : Writer) (body : lib.Envelope) (s t : Store)
      → p < s.next_message
      → w.buffer ≡ text
      → w.broken ≡ false
      → lib.read_envelope text ≡ some body
      → is_whole (find (index_path (box_path p s)) s.disk) ≡ true
      → t.messages p ≡ took text w (s.messages p)
      → t.mailboxes ≡ s.mailboxes
      → ((q : FilePath)
          → same (raw_path_of p s) q ≡ false
          → find q t.disk ≡ find q (begun (box_path p s) (raw_path_of p s) s.disk))
      → t.next_message ≡ s.next_message
      → t.outcomes ≡ []
      → (u : Store) × (close lib p t ≡ (some tt, u))
        × Delivered lib
            (box_path p s)
            (header_fields lib body (took text w (s.messages p)).fields)
            (raw_path_of p s)
            text
            s.disk
            u.disk
  unfolding raw_path_of
  close_writes p text w body s t l ew er eb ei em ebox ed en eo =
      let path = box_path p s in
      let id = (s.messages p).fields.fid in
      let box : box_path p t ≡ path =
        ap (λ boxes. (boxes (t.messages p).mailbox).path) ebox
        ∙ ap (λ m. (s.mailboxes m.mailbox).path) em in
      let whole : is_whole (find (index_path (box_path p t)) t.disk) ≡ true =
        ap (λ x. is_whole (find (index_path x) t.disk)) box
        ∙ ap is_whole (ed (index_path path) (raw_path-index_path path id))
        ∙ ap is_whole (find-begun path id s.disk)
        ∙ ei in
      let (u, ok, d) =
        close-Delivered lib p w body t (omega (arith, l, en)) (ap (λ m. m.writer) em) er
          (ap lib.read_envelope ew ∙ eb) whole in
      let d1 =
        subst
          (λ x.
            Delivered lib (box_path p t) (header_fields lib body (t.messages p).fields)
              (raw_path_of p t) x t.disk u.disk)
          ew d in
      let d2 =
        subst
          (λ x.
            Delivered lib x (header_fields lib body (t.messages p).fields)
              (raw_path x (t.messages p).fields.fid) text t.disk u.disk)
          box d1 in
      let d3 =
        subst
          (λ f.
            Delivered lib path (header_fields lib body f) (raw_path path f.fid) text t.disk u.disk)
          (ap (λ m. m.fields) em) d2 in
      (
        u,
        ap (close lib p) (sym (calm_lem t eo)) ∙ ok,
        begun-Delivered path (header_fields lib body (took text w (s.messages p)).fields) id text
            s.disk t.disk u.disk ed d3,
      )

  -- The delivery of a message that `NewMessage` returned, where no call of the operating system
  -- fails, the mailbox's index is not damaged and the text has an envelope, succeeds: the index
  -- lists the message, with the headers and the size of its text, behind those that it listed,
  -- and the raw file holds the `Received` header and the lines of the mail. All other files stay
  -- as they were.
  pub write_message-Delivered :
      (srv : Server) (r : RecipientDetails files) (ls : List Bytes) (p : ℕ) (w : World files)
      (body : lib.Envelope)
      → w.store.outcomes ≡ []
      → p < w.store.next_message
      → (w.store.messages p).writable ≡ true
      → (w.store.messages p).writer ≡ none
      → lib.read_envelope (delivered_text srv r ls w) ≡ some body
      → is_whole (find (index_path (box_path p w.store)) w.store.disk) ≡ true
      → let text = delivered_text srv r ls w in
        let m = (w.store.messages p).fields in
        let sized = record m { fsize = m.fsize + length text } in
        let result = write_message files srv r ls p w in
        (result.0 ≡ true)
        × Delivered lib
            (box_path p w.store)
            (header_fields lib body sized)
            (raw_path_of p w.store)
            text
            w.store.disk
            result.1.store.disk
  write_message-Delivered srv r ls p w body eo l ew en eb ei =
      let s = w.store in
      let head = received_header srv w.session r.address (first_stamp w.stamps) in
      let c = headed p head s in
      let text = head ++ concat ls in
      let v = put_bytes head new_writer in
      let first : append p head s ≡ (some tt, c) =
        ap (append p head) (sym (calm_lem s eo)) ∙ append-new p head s ew en in
      let here = headed-message p head s in
      let (t, lines, x) =
        append_lines-Writes p ls v c refl (ap (λ m. m.writable) here ∙ ew) (ap (λ m. m.writer) here)
          refl in
      let all : t.messages p ≡ took text x.writer (s.messages p) =
        x.message
        ∙ ap (took (concat ls) x.writer) here
        ∙ took-append v x.writer head (concat ls) (s.messages p) in
      let others = λ (q : FilePath) (n : same (raw_path_of p s) q ≡ false).
        x.others q (ap (λ y. same y q) (place-headed p head s) ∙ n)
        ∙ find-spill p head new_writer (created p s) q
            (ap (λ y. same y q) (place-created p s) ∙ n) in
      let (u, ok, d) =
        close_writes p text x.writer body s t l x.buffer x.unbroken eb ei all x.mailboxes others
          x.next_message x.outcomes in
      let (success, stored) =
        write_message-done files srv r ls p w c t u (ap (λ a. (is_some a.0, a.1)) first) lines
          (ap (λ a. (is_some a.0, a.1)) ok) in
      (
        success,
        subst
            (λ st.
              Delivered lib (box_path p s)
                (header_fields lib body (took text x.writer (s.messages p)).fields)
                (raw_path_of p s) text s.disk st.disk)
            (sym stored) d,
      )
