-- ===== src/Retention.antt =====
-- smtpd/retention.go: the retention scanner, over any data store. Times and durations are counts of
-- nanoseconds on a clock that does not run backwards, and the period is below the overflow of
-- `time.Duration`. The outcome of each `select` on the shutdown channel is an input.
pub mod Expired
pub mod Spacing
use inbucket.Common.{
  ℕ, zero, suc, ◌+◌, ◌-◌, ◌*◌, Bool, true, false, Option, none, some, List, [], ◌∷◌, ltb, ◌==◌,
  ◌&&◌, if◌then◌else◌, drop,
}
use inbucket.DataStore.{DataStore}

-- The counters that the scanner publishes.
pub record Metrics : Type 0 where
  pub deletes_total : ℕ
  pub period : ℕ
  pub retained_current : ℕ
  pub scan_completed : ℕ

-- A minute, and a millisecond.
abbrev pub minute : ℕ
minute = 60000000000

abbrev pub millisecond : ℕ
millisecond = 1000000

pub record Scanner : Type 0 where
  pub retention_period : ℕ
  pub retention_sleep : ℕ

-- `NewRetentionScanner`, given `RetentionMinutes` and `RetentionSleep`.
unfoldable pub new : ℕ → ℕ → Metrics → Scanner × Metrics
new minutes sleep m = (
  record { retention_period = minutes * minute; retention_sleep = sleep * millisecond },
  record m { period = minutes * 60 },
)

-- Whether the `select` behind a mailbox meets the shutdown; it does not once the outcomes are used
-- up.
unfoldable pub is_shut_down : List Bool → Bool
is_shut_down [] = false
is_shut_down (b ∷ rest) = b

-- A turn of the loop of `run`: the time since the scan before it began, how late the timer fires,
-- whether the shutdown comes first, how long the scan takes and what its `select`s meet, and
-- whether the shutdown has come when it is done.
pub record Turn : Type 0 where
  pub since : ℕ
  pub late : ℕ
  pub stop_asleep : Bool
  pub lasting : ℕ
  pub shutdowns : List Bool
  pub stop_after : Bool

-- When the scan of a turn begins.
unfoldable pub scan_start : ℕ → Turn → ℕ
scan_start start t =
    if ltb t.since minute then start + t.since + (minute - t.since) + t.late else start + t.since

module _ (ds : DataStore) where
  -- The variables of a pass: the store, the counter of deletes and the count of those retained.
  pub record Scan : Type 0 where
    pub store : ds.Store
    pub deletes_total : ℕ
    pub retained : ℕ

  -- The body of the loop over the messages of a mailbox.
  unfoldable pub scan_message : ℕ → ds.Message → Scan → Scan
  scan_message cutoff m s =
      if ltb (ds.date m s.store) cutoff
      then (let (deleted, store) = ds.delete m s.store in
          if deleted
          then record s { store = store; deletes_total = s.deletes_total + 1 }
          else record s { store = store })
      else record s { retained = s.retained + 1 }

  unfoldable pub scan_messages : ℕ → List ds.Message → Scan → Scan
  scan_messages cutoff [] s = s
  scan_messages cutoff (m ∷ ms) s = scan_messages cutoff ms (scan_message cutoff m s)

  -- How a pass ends: with an error, at a shutdown, or behind the last mailbox.
  pub data Outcome : Type 0 where
    failed : Scan → Outcome
    aborted : Scan → Outcome
    completed : Scan → Outcome

  -- The loop over the mailboxes.
  unfoldable pub scan_mailboxes : ℕ → List ds.Mailbox → List Bool → Scan → Outcome
  scan_mailboxes cutoff [] shutdowns s = completed s
  scan_mailboxes cutoff (mb ∷ mbs) shutdowns s =
      let (found, store) = ds.get_messages mb s.store in
      elim found [
        | none ↦ failed (record s { store = store })
        | some ms ↦
            let scanned = scan_messages cutoff ms (record s { store = store }) in
            let rest = scan_mailboxes cutoff mbs (drop 1 shutdowns) scanned in
            if is_shut_down shutdowns then aborted scanned else rest
      ]

  -- What `doScan` leaves, and whether it returned an error.
  unfoldable pub finish_scan : ℕ → Metrics → Outcome → Bool × ds.Store × Metrics
  finish_scan later m (failed s) = (false, s.store, record m { deletes_total = s.deletes_total })
  finish_scan later m (aborted s) = (true, s.store, record m { deletes_total = s.deletes_total })
  finish_scan later m (completed s) = (
    true,
    s.store,
    record m {
      deletes_total = s.deletes_total;
      retained_current = s.retained;
      scan_completed = later;
    },
  )

  -- `doScan` that begins at `now` and is done at `later`. A cutoff before the clock's zero is
  -- before every date, as zero is.
  unfoldable pub do_scan :
      Scanner → ℕ → ℕ → List Bool → Metrics → ds.Store → Bool × ds.Store × Metrics
  do_scan rs now later shutdowns m st =
      let (boxes, store) = ds.all_mailboxes st in
      elim boxes [
        | none ↦ (false, store, m)
        | some mbs ↦ finish_scan later m (
            scan_mailboxes (now - rs.retention_period) mbs shutdowns
              (record { store = store; deletes_total = m.deletes_total; retained = 0 }))
      ]

  -- `run`, over as many turns as are given: when its scans began, and what they leave.
  unfoldable pub run : Scanner → ℕ → List Turn → Metrics → ds.Store → List ℕ × Metrics × ds.Store
  run rs start [] m st = ([], m, st)
  run rs start (t ∷ ts) m st =
      let begun = scan_start start t in
      let (ok, scanned, n) = do_scan rs begun (begun + t.lasting) t.shutdowns m st in
      let (starts, last, left) = run rs begun ts n scanned in
      if ltb t.since minute && t.stop_asleep
      then ([], m, st)
      else if t.stop_after
      then (begun ∷ [], n, scanned)
      else (begun ∷ starts, last, left)

  -- `Start`, at a time of the clock: without a period the scanner is disabled.
  unfoldable pub start_scanner :
      Scanner → ℕ → List Turn → Metrics → ds.Store → List ℕ × Metrics × ds.Store
  start_scanner rs now turns m st =
      if rs.retention_period == 0 then ([], m, st) else run rs now turns m st
