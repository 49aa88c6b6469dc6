-- ===== src/Retention/Spacing.antt =====
-- The schedule of the retention scanner.
use inbucket.Common.{ℕ, ◌+◌, ◌≡◌, refl, arith, Bool, true, ◌&&◌, List, [], ◌∷◌, leb}
use inbucket.DataStore.{DataStore}
use inbucket.Retention.{Metrics, Scanner, Turn, minute, scan_start, run, start_scanner, do_scan}

-- Each time is at least a minute behind the one before it, the first behind `start`.
abbrev pub is_spaced : ℕ → List ℕ → Bool
is_spaced start [] = true
is_spaced start (t ∷ ts) = leb (start + minute) t && is_spaced t ts

scan_start-minute : (start : ℕ) (t : Turn) → leb (start + minute) (scan_start start t) ≡ true
unfolding scan_start
scan_start-minute start t = ground arith

module _ (ds : DataStore) where
  run-is_spaced :
      (rs : Scanner) (start : ℕ) (turns : List Turn) (m : Metrics) (st : ds.Store)
      → is_spaced start (run ds rs start turns m st).0 ≡ true
  unfolding run
  run-is_spaced rs start [] m st = refl
  run-is_spaced rs start (t ∷ ts) m st =
      let begun = scan_start start t in
      let r = do_scan ds rs begun (begun + t.lasting) t.shutdowns m st in
      ground (arith, scan_start-minute start t, run-is_spaced rs begun ts r.2 r.1)

  -- The scans of a scanner that is started begin at least a minute after its start, and each at
  -- least a minute after the one before it, however long a scan takes and however late the timer.
  pub start_scanner-is_spaced :
      (rs : Scanner) (now : ℕ) (turns : List Turn) (m : Metrics) (st : ds.Store)
      → is_spaced now (start_scanner ds rs now turns m st).0 ≡ true
  unfolding start_scanner
  start_scanner-is_spaced rs now turns m st = ground (arith, run-is_spaced rs now turns m st)
