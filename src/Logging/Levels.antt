-- ===== src/Logging/Levels.antt =====
-- The level of the log that the configuration names.
use inbucket.Common.{◌≡◌, arith, false, is_nil, Unicode, Bytes, to_upper}
use inbucket.Config.{is_level}
use inbucket.Logging.{Logger, set_log_level}

-- A level that `LoadConfig` accepts is one that `SetLogLevel` takes, but for the empty text, which
-- `LoadConfig` reports as missing before.
pub set_log_level-is_level :
    (unicode : Unicode) (level : Bytes) (lg : Logger)
    → is_nil (to_upper unicode level) ≡ false
    → (set_log_level unicode level lg).0 ≡ is_level unicode level
unfolding set_log_level
set_log_level-is_level unicode level lg e = ground (arith, e)
