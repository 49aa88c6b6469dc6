-- ===== src/Conn.antt =====
-- What a session sees of its network connection (`net.Conn` behind a `bufio.Reader`).
use inbucket.Common.{Bytes}

-- The outcome of one write: written, no deadline could be set, or it failed.
pub data WriteOutcome : Type 0 where
  written no_deadline broken_pipe : WriteOutcome

-- One read: a line with its "\n", or an error.
pub data Read : Type 0 where
  line : Bytes → Read
  eof timeout broken : Read
