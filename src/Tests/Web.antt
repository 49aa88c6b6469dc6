-- ===== src/Tests/Web.antt =====
-- The web pages at concrete inputs.
use inbucket.Common.{◌≡◌, refl, true, false, some, List, [], ◌∷◌, ◌++◌, Bytes, codes, equal}
use inbucket.Web.{Flash, Sessions, Site, State, Vars}
use inbucket.Web.Files.{site_of, serve-disk}
use inbucket.Web.Html.{Escaping, break_lines, unescape_from, wrap_url}
use inbucket.Web.Routes.{view_attach, serve}
use inbucket.Tests.FileStore.{plain}
use inbucket.Tests.Rest.{no_parts, stored}

-- A session that keeps its flashes and visits, and is always saved.
abbrev in_memory : Sessions
in_memory = record {
  Session = List Flash × List Bytes;
  add_flash = λ f s. (f ∷ s.0, s.1);
  flashes = λ s. (s.0, ([], s.1));
  save = λ s. (true, s);
  recent = λ s. s.1;
  set_recent = λ names s. (s.0, names);
}

abbrev unescaped : Escaping
unescaped = record { escape = λ s. s; replace_urls = λ f s. s }

abbrev site : Site
site = site_of plain 0 unescaped in_memory no_parts (some (codes "hello")) true

abbrev visited : State site
visited = record { session = ([], codes "box" ∷ []); store = stored }

abbrev numbered : Vars
numbered = record { name = codes "box"; id = codes "old"; num = codes "1" }

-- A carriage return with a line feed is one line break, and each alone is one.
break_lines_example :
    break_lines false (b'a' ∷ 13 ∷ 10 ∷ b'b' ∷ 13 ∷ 13 ∷ 10 ∷ 10 ∷ [])
    ≡ b'a'
      ∷ (codes "<br/>"
          ++ 10 ∷ b'b' ∷ (codes "<br/>" ++ 10 ∷ (codes "<br/>" ++ 10 ∷ (codes "<br/>" ++ 10 ∷ []))))
unfolding break_lines
break_lines_example = refl

wrap_url_example :
    wrap_url (codes "http://x/?a&amp;b")
    ≡ codes "<a href=\"http://x/?a&b\" target=\"_blank\">http://x/?a&amp;b</a>"
unfolding wrap_url unescape_from equal
wrap_url_example = refl

serve-disk_example : (serve site view_attach numbered visited).1.store.disk ≡ stored.disk
serve-disk_example =
    serve-disk plain 0 unescaped in_memory no_parts (some (codes "hello")) true view_attach numbered
      visited
