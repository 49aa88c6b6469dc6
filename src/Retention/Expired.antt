-- ===== src/Retention/Expired.antt =====
-- What a pass of the retention scanner deletes, and what it counts.
use inbucket.Common.{
  ℕ, ◌+◌, ◌-◌, ◌≤◌, ◌≡◌, refl, arith, Bool, true, List, [], ◌∷◌, ltb, length, drop, if◌then◌else◌,
  ◌⊎◌, Bool-cases, Option-cases, inl, inr,
}
use inbucket.DataStore.{DataStore}
use inbucket.Retention.{
  Metrics, Scanner, is_shut_down, Scan, Outcome, failed, aborted, completed, scan_message,
  scan_messages, scan_mailboxes, finish_scan, do_scan,
}

module _ (ds : DataStore) where
  -- The messages dated before the cutoff, and the others, with the dates of one store.
  abbrev pub expired : ℕ → ds.Store → List ds.Message → List ds.Message
  expired cutoff st [] = []
  expired cutoff st (m ∷ ms) =
      let rest = expired cutoff st ms in if ltb (ds.date m st) cutoff then m ∷ rest else rest

  abbrev pub unexpired : ℕ → ds.Store → List ds.Message → List ds.Message
  unexpired cutoff st [] = []
  unexpired cutoff st (m ∷ ms) =
      let rest = unexpired cutoff st ms in if ltb (ds.date m st) cutoff then rest else m ∷ rest

  -- The deletes of a list of messages, one after the other, and how many of them succeed.
  abbrev pub delete_each : List ds.Message → ds.Store → ds.Store
  delete_each [] st = st
  delete_each (m ∷ ms) st = delete_each ms (ds.delete m st).1

  abbrev pub count_deleted : List ds.Message → ds.Store → ℕ
  count_deleted [] st = 0
  count_deleted (m ∷ ms) st =
      let rest = count_deleted ms (ds.delete m st).1 in
      if (ds.delete m st).0 then 1 + rest else rest

  -- Deleting a message changes the date of none.
  abbrev pub DatesKept : Type 0
  DatesKept = (m n : ds.Message) (st : ds.Store) → ds.date n (ds.delete m st).1 ≡ ds.date n st

  expired-delete :
      (k : DatesKept) (cutoff : ℕ) (m : ds.Message) (st : ds.Store) (ms : List ds.Message)
      → expired cutoff (ds.delete m st).1 ms ≡ expired cutoff st ms
  expired-delete k cutoff m st [] = refl
  expired-delete k cutoff m st (n ∷ ns) = ground (arith, k m n st, expired-delete k cutoff m st ns)

  unexpired-delete :
      (k : DatesKept) (cutoff : ℕ) (m : ds.Message) (st : ds.Store) (ms : List ds.Message)
      → unexpired cutoff (ds.delete m st).1 ms ≡ unexpired cutoff st ms
  unexpired-delete k cutoff m st [] = refl
  unexpired-delete k cutoff m st (n ∷ ns) =
      ground (arith, k m n st, unexpired-delete k cutoff m st ns)

  -- The counts and the store behind a mailbox, from its messages and the dates of the store in
  -- front of it.
  abbrev pub Scanned : ℕ → List ds.Message → Scan ds → Scan ds → Type 0
  Scanned cutoff ms s t =
      (t.store ≡ delete_each (expired cutoff s.store ms) s.store)
      × (t.deletes_total ≡ s.deletes_total + count_deleted (expired cutoff s.store ms) s.store)
      × (t.retained ≡ s.retained + length (unexpired cutoff s.store ms))

  -- Where a delete changes no date, the pass over a mailbox deletes the messages dated before the
  -- cutoff, in order and no other, counts the deletes that succeed, goes on behind those that
  -- fail, and counts the others as retained.
  pub scan_messages-Scanned :
      (k : DatesKept) (cutoff : ℕ) (ms : List ds.Message) (s : Scan ds)
      → Scanned cutoff ms s (scan_messages ds cutoff ms s)
  unfolding scan_messages scan_message
  scan_messages-Scanned k cutoff [] s = (refl, omega arith, omega arith)
  scan_messages-Scanned k cutoff (m ∷ ms) s =
      let ih = scan_messages-Scanned k cutoff ms (scan_message ds cutoff m s) in
      elim (Bool-cases (ltb (ds.date m s.store) cutoff)) [
        | inl late ↦ elim (Bool-cases (ds.delete m s.store).0) [
          | inl ok ↦ ground (
            arith,
            late,
            ok,
            ih,
            expired-delete k cutoff m s.store ms,
            unexpired-delete k cutoff m s.store ms,
          )
          | inr failed_delete ↦ ground (
            arith,
            late,
            failed_delete,
            ih,
            expired-delete k cutoff m s.store ms,
            unexpired-delete k cutoff m s.store ms,
          )
        ]
        | inr early ↦ ground (arith, early, ih)
      ]

  -- The scan in an outcome.
  abbrev scan_of : Outcome ds → Scan ds
  scan_of (failed s) = s
  scan_of (aborted s) = s
  scan_of (completed s) = s

  scan_messages-deletes :
      (cutoff : ℕ) (ms : List ds.Message) (s : Scan ds)
      → s.deletes_total ≤ (scan_messages ds cutoff ms s).deletes_total
  unfolding scan_messages scan_message
  scan_messages-deletes cutoff [] s = omega arith
  scan_messages-deletes cutoff (m ∷ ms) s =
      ground (arith, scan_messages-deletes cutoff ms (scan_message ds cutoff m s))

  scan_mailboxes-deletes :
      (cutoff : ℕ) (mbs : List ds.Mailbox) (shutdowns : List Bool) (s : Scan ds)
      → s.deletes_total ≤ (scan_of (scan_mailboxes ds cutoff mbs shutdowns s)).deletes_total
  unfolding scan_mailboxes
  scan_mailboxes-deletes cutoff [] shutdowns s = omega arith
  scan_mailboxes-deletes cutoff (mb ∷ mbs) shutdowns s =
      let box : ds.Store → Scan ds = λ st. record s { store = st } in
      elim (Option-cases (ds.get_messages mb s.store).0) [
        | inl e ↦ rw (e, scan_mailboxes) (omega arith)
        | inr (ms, e) ↦
            let t = scan_messages ds cutoff ms (box (ds.get_messages mb s.store).1) in
            let here = scan_messages-deletes cutoff ms (box (ds.get_messages mb s.store).1) in
            let ih = scan_mailboxes-deletes cutoff mbs (drop 1 shutdowns) t in
            elim (Bool-cases (is_shut_down shutdowns)) [
              | inl b ↦ rw (e, b, scan_mailboxes) here
              | inr b ↦ rw (e, b, scan_mailboxes) (ground (arith, here, ih))
            ]
      ]

  -- What a pass publishes: the count of deletes does not fall, and either the pass returned no
  -- error and the time of its end stands as that of the last completed scan, or that time and the
  -- count of retained messages are as they were.
  abbrev pub Published : ℕ → Metrics → Bool → Metrics → Type 0
  Published later m ok n =
      (m.deletes_total ≤ n.deletes_total)
      × (((ok ≡ true) × (n.scan_completed ≡ later))
          ⊎ ((n.retained_current ≡ m.retained_current) × (n.scan_completed ≡ m.scan_completed)))

  finish_scan-Published :
      (later : ℕ) (m : Metrics) (o : Outcome ds)
      → m.deletes_total ≤ (scan_of o).deletes_total
      → let (ok, store, n) = finish_scan ds later m o in Published later m ok n
  unfolding finish_scan
  finish_scan-Published later m (failed s) h = (h, inr (refl, refl))
  finish_scan-Published later m (aborted s) h = (h, inr (refl, refl))
  finish_scan-Published later m (completed s) h = (h, inl (refl, refl))

  -- A pass never lowers the count of deletes. It returns no error and stands as the last completed
  -- scan, or it leaves the time of that scan and the count of retained messages as they were.
  pub do_scan-Published :
      (rs : Scanner) (now later : ℕ) (shutdowns : List Bool) (m : Metrics) (st : ds.Store)
      → let (ok, store, n) = do_scan ds rs now later shutdowns m st in Published later m ok n
  unfolding do_scan
  do_scan-Published rs now later shutdowns m st = elim (Option-cases (ds.all_mailboxes st).0) [
    | inl e ↦ rw (e, do_scan) (omega arith, inr (refl, refl))
    | inr (mbs, e) ↦
        rw (e, do_scan)
          (finish_scan-Published later m _ (
            scan_mailboxes-deletes (now - rs.retention_period) mbs shutdowns (record {
              store = (ds.all_mailboxes st).1;
              deletes_total = m.deletes_total;
              retained = 0;
            })))
  ]
