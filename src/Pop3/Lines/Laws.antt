-- ===== src/Pop3/Lines/Laws.antt =====
-- What a client reads of the lines that RETR and TOP send.
use inbucket.Common.{
  ℕ, zero, suc, ◌+◌, ◌≤◌, ◌≡◌, refl, ap, ◌∙◌, arith, Bool, true, false, not, Option, none, some,
  List, [], ◌∷◌, ◌++◌, map, leb, ◌==◌, if◌then◌else◌, length, take, is_nil, all, Bytes, codes,
  equal,
}
use mathlib.Core.List.{append_assoc, append-nil}
use inbucket.Pop3.Lines.{drop_cr, scan_from, scan_lines, stuff_line, top_lines, max_scan_token}

-- A client ends the response at the line `.`, and takes one leading period off the others.
abbrev pub unstuff_line : Bytes → Bytes
unstuff_line [] = []
unstuff_line (c ∷ cs) = if c == b'.' then cs else c ∷ cs

-- The lines up to the end, and what stands behind it.
unfoldable pub read_response : List Bytes → Option (List Bytes × List Bytes)
read_response [] = none
read_response (l ∷ ls) = elim (equal l (codes ".")) [
  | true ↦ some ([], ls)
  | false ↦ elim (read_response ls) [
    | none ↦ none
    | some (body, rest) ↦ some (unstuff_line l ∷ body, rest)
  ]
]

stuff_line-not_end : (l : Bytes) → equal (stuff_line l) (codes ".") ≡ false
unfolding stuff_line equal
stuff_line-not_end [] = refl
stuff_line-not_end (c ∷ cs) = ground arith

unstuff_line-stuff_line : (l : Bytes) → unstuff_line (stuff_line l) ≡ l
unfolding stuff_line
unstuff_line-stuff_line [] = refl
unstuff_line-stuff_line (c ∷ cs) = ground arith

-- A client that reads a response of stuffed lines gets the lines back, whatever they hold, and
-- stops at its end.
pub read_response-stuffed :
    (ls rest : List Bytes) → read_response (map stuff_line ls ++ codes "." ∷ rest) ≡ some (ls, rest)
unfolding read_response
read_response-stuffed [] rest = unfold equal in refl
read_response-stuffed (l ∷ ls) rest =
    rw (stuff_line-not_end l, read_response)
      (rw (read_response-stuffed ls rest) (rw (unstuff_line-stuff_line l)))

-- The header of a message: lines that are not empty.
abbrev pub no_empty : List Bytes → Bool
no_empty ls = all (λ l. not (is_nil l)) ls

top_lines-body :
    (n : ℕ) (ls : List Bytes)
    → top_lines true n ls ≡ (map stuff_line (take n ls), leb (length ls) n)
unfolding top_lines
top_lines-body zero [] = ground arith
top_lines-body (suc n) [] = ground arith
top_lines-body zero (l ∷ ls) = ground arith
top_lines-body (suc n) (l ∷ ls) = ground (arith, top_lines-body n ls)

stuff_line-is_nil : (l : Bytes) → is_nil (stuff_line l) ≡ is_nil l
unfolding stuff_line
stuff_line-is_nil [] = refl
stuff_line-is_nil (c ∷ cs) = ground arith

-- TOP sends the header, the empty line behind it and the first `n` lines of the body; the
-- scanner's end is reached if the body has no more lines.
pub top_lines-header :
    (header body : List Bytes) (n : ℕ)
    → no_empty header ≡ true
    → top_lines false n (header ++ [] ∷ body)
      ≡ (map stuff_line (header ++ [] ∷ take n body), leb (length body) n)
unfolding top_lines
top_lines-header [] body n h = unfold stuff_line in ground (arith, top_lines-body n body)
top_lines-header (l ∷ ls) body n h = ground (arith, stuff_line-is_nil l, top_lines-header ls body n)

-- A line that the SMTP server stores: no "\n", no "\r" at its end.
drop_cr_line : (l : Bytes) → drop_cr (l ++ b'\r' ∷ []) ≡ l
unfolding drop_cr
drop_cr_line [] = refl
drop_cr_line (c ∷ []) = refl
drop_cr_line (c ∷ d ∷ ds) = ap (◌∷◌ c) (drop_cr_line (d ∷ ds))

abbrev pub is_line_byte : ℕ → Bool
is_line_byte c = not (c == b'\n')

-- Lines as they stand in a message's file.
abbrev pub crlf_lines : List Bytes → Bytes
crlf_lines [] = []
crlf_lines (l ∷ ls) = l ++ b'\r' ∷ b'\n' ∷ crlf_lines ls

-- Lines with no "\n" that fit the scanner's buffer.
abbrev pub Scannable : ℕ → List Bytes → Type 0
Scannable max [] = Unit
Scannable max (l ∷ ls) = (all is_line_byte l ≡ true) × (length l + 2 ≤ max) × Scannable max ls

scan_from-crlf :
    (max : ℕ) (l cur : Bytes) (n : ℕ) (rest : Bytes)
    → all is_line_byte l ≡ true
    → n + length l + 2 ≤ max
    → scan_from max cur n (l ++ b'\r' ∷ b'\n' ∷ rest)
      ≡ ((cur ++ l) ∷ (scan_from max [] 0 rest).0, (scan_from max [] 0 rest).1)
unfolding scan_from
scan_from-crlf max [] cur n rest h k = ground (arith, drop_cr_line cur, append-nil cur)
scan_from-crlf max (c ∷ cs) cur n rest h k =
    ground (arith, scan_from-crlf max cs (cur ++ c ∷ []) (n + 1) rest, append_assoc cur (c ∷ []) cs)

scan_from-crlf_lines :
    (max : ℕ) (ls : List Bytes)
    → Scannable max ls
    → scan_from max [] 0 (crlf_lines ls) ≡ (ls, false)
scan_from-crlf_lines max [] h = unfold scan_from in refl
scan_from-crlf_lines max (l ∷ ls) h =
    scan_from-crlf max l [] 0 (crlf_lines ls) h.0 (omega arith)
    ∙ (rw (scan_from-crlf_lines max ls h.2))

-- The lines of a file of lines that end in "\r\n", each of them short enough for the scanner, are
-- read back with no error.
pub scan_lines-crlf_lines :
    (ls : List Bytes) → Scannable max_scan_token ls → scan_lines (crlf_lines ls) ≡ (ls, false)
unfolding scan_lines
scan_lines-crlf_lines ls h = scan_from-crlf_lines max_scan_token ls h
