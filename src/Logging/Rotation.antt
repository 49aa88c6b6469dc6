-- ===== src/Logging/Rotation.antt =====
-- The log over rotations of its file.
use inbucket.Common.{◌≡◌, refl, ap, ◌∙◌, arith, Bool, true, false, List, [], ◌∷◌, leb, Bytes}
use inbucket.Logging.{
  info_level, ignoring, Level, Output, open_file, closed_file, Entry, Logger, rank, print, log_at,
  open_log_file, close_log_file, rotate,
}

-- An entry of the program, or a SIGHUP with whether the file can then be opened.
pub data Use : Type 0 where
  entry : Level → Bytes → Use
  hang_up : Bool → Use

abbrev pub use_log : Use → Logger → Logger
use_log (entry level text) lg = log_at level text lg
use_log (hang_up opens) lg = rotate opens lg

abbrev pub use_all : List Use → Logger → Logger
use_all [] lg = lg
use_all (u ∷ us) lg = use_all us (use_log u lg)

record Lost (lg : Logger) : Type 0 where
  output : lg.output ≡ closed_file
  has_file : lg.has_file ≡ false

log_at-lost :
    (level : Level) (text : Bytes) (lg : Logger)
    → lg.output ≡ closed_file
    → log_at level text lg ≡ lg
unfolding log_at print
log_at-lost level text lg e = ground (arith, e)

use_log-still : (u : Use) (lg : Logger) → Lost lg → use_log u lg ≡ lg
unfolding rotate
use_log-still (entry level text) lg l = log_at-lost level text lg l.output
use_log-still (hang_up opens) lg l =
    ground (arith, l.has_file, log_at-lost info_level ignoring lg l.output)

use_all-still : (us : List Use) (lg : Logger) → Lost lg → use_all us lg ≡ lg
use_all-still [] lg l = refl
use_all-still (u ∷ us) lg l = ap (use_all us) (use_log-still u lg l) ∙ use_all-still us lg l

rotate-Lost : (lg : Logger) → lg.has_file ≡ true → Lost (rotate false lg)
unfolding rotate open_log_file close_log_file
rotate-Lost lg e = record { output = ground (arith, e); has_file = ground (arith, e) }

-- Behind a rotation that cannot open the log file again nothing is written any more, neither what
-- the program logs nor behind later rotations that could open it.
pub rotate-lost :
    (lg : Logger) (us : List Use)
    → lg.has_file ≡ true
    → use_all us (rotate false lg) ≡ rotate false lg
rotate-lost lg us e = use_all-still us (rotate false lg) (rotate-Lost lg e)

abbrev entry_of : Level → Bytes → Output → Entry
entry_of level text to = record { level = level; text = text; to = to }

-- Each rotation that opens the file again leaves the log in it: every entry within the level
-- that the program logs next is written there.
pub rotate-open_file :
    (lg : Logger) (level : Level) (text : Bytes)
    → lg.has_file ≡ true
    → leb (rank level) (rank lg.max_level) ≡ true
    → let rotated = rotate true lg in
      (log_at level text rotated).entries ≡ entry_of level text open_file ∷ rotated.entries
unfolding rotate open_log_file close_log_file log_at print
rotate-open_file lg level text e f = ground (arith, e, f)
