-- ===== src/Web/Html.antt =====
-- `TextToHTML` and `WrapURL` of httpd/helpers.go.
use inbucket.Common.{
  ℕ, zero, suc, ◌==◌, Bool, true, false, [], ◌∷◌, ◌++◌, take, if◌then◌else◌, Bytes, codes, equal,
}

-- `html.EscapeString`, and `ReplaceAllStringFunc` of the regular expression `urlRE`.
pub record Escaping : Type 0 where
  pub escape : Bytes → Bytes
  pub replace_urls : (Bytes → Bytes) → Bytes → Bytes

-- The replacement of `&amp;` by `&`, behind bytes that are skipped.
unfoldable pub unescape_from : ℕ → Bytes → Bytes
unescape_from skip [] = []
unescape_from (suc skip) (c ∷ cs) = unescape_from skip cs
unescape_from zero (c ∷ cs) = elim (equal (take 5 (c ∷ cs)) (codes "&amp;")) [
  | true ↦ b'&' ∷ unescape_from 4 cs
  | false ↦ c ∷ unescape_from 0 cs
]

unfoldable pub wrap_url : Bytes → Bytes
wrap_url url =
    codes "<a href=\""
    ++ (unescape_from 0 url ++ (codes "\" target=\"_blank\">" ++ (url ++ codes "</a>")))

abbrev pub line_break : Bytes
line_break = codes "<br/>" ++ 10 ∷ []

-- The replacer of line ends, at a byte behind a carriage return or not.
unfoldable pub break_lines : Bool → Bytes → Bytes
break_lines cr [] = []
break_lines cr (c ∷ cs) =
    let rest = break_lines (c == 13) cs in
    if c == 13
    then line_break ++ rest
    else if c == 10
    then (if cr then rest else line_break ++ rest)
    else c ∷ rest

unfoldable pub text_to_html : Escaping → Bytes → Bytes
text_to_html html text = break_lines false (html.replace_urls wrap_url (html.escape text))
