-- ===== src/Pop3/Lines.antt =====
-- The lines of a message as `bufio.Scanner` gives them to `sendMessage` and `sendMessageTop`, and
-- what those send of them.
pub mod Laws
use inbucket.Common.{
  ℕ, zero, suc, ◌+◌, Bool, true, false, List, [], ◌∷◌, ◌++◌, leb, ◌==◌, if◌then◌else◌, is_nil,
  Bytes,
}

abbrev pub max_scan_token : ℕ
max_scan_token = 65536

-- A line ends at "\n" or "\r\n".
unfoldable pub drop_cr : Bytes → Bytes
drop_cr [] = []
drop_cr (c ∷ []) = if c == b'\r' then [] else c ∷ []
drop_cr (c ∷ d ∷ ds) = c ∷ drop_cr (d ∷ ds)

-- The lines behind the `n` bytes `cur` of a line, and whether the scanner stops by an error: a
-- line that does not fit its buffer of `max` bytes with its "\n".
unfoldable pub scan_from : ℕ → Bytes → ℕ → Bytes → List Bytes × Bool
scan_from max cur n [] = if n == 0 then ([], false) else (drop_cr cur ∷ [], false)
scan_from max cur n (c ∷ cs) = elim (c == b'\n') [
  | true ↦ let (ls, failed) = scan_from max [] 0 cs in (drop_cr cur ∷ ls, failed)
  | false ↦ elim (leb max (n + 1)) [
    | true ↦ ([], true)
    | false ↦ scan_from max (cur ++ c ∷ []) (n + 1) cs
  ]
]

unfoldable pub scan_lines : Bytes → List Bytes × Bool
unfolding scan_from drop_cr
scan_lines raw = scan_from max_scan_token [] 0 raw

-- A line that starts with a period is given one more.
unfoldable pub stuff_line : Bytes → Bytes
stuff_line [] = []
stuff_line (c ∷ cs) = if c == b'.' then b'.' ∷ c ∷ cs else c ∷ cs

-- The loop of `sendMessageTop`: the lines sent, and whether the scanner's end was reached.
unfoldable pub top_lines : Bool → ℕ → List Bytes → List Bytes × Bool
top_lines in_body n [] = ([], true)
top_lines true zero (l ∷ ls) = ([], false)
top_lines true (suc n) (l ∷ ls) =
    let (sent, whole) = top_lines true n ls in (stuff_line l ∷ sent, whole)
top_lines false n (l ∷ ls) =
    let (sent, whole) = top_lines (is_nil (stuff_line l)) n ls in (stuff_line l ∷ sent, whole)
