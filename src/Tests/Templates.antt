-- ===== src/Tests/Templates.antt =====
-- The templates at concrete requests.
use inbucket.Common.{
  ◌≡◌, Bool, true, false, none, some, [], ◌∷◌, ◌++◌, if◌then◌else◌, is_nil, Bytes, codes, equal,
}
use inbucket.Config.{WebConfig}
use inbucket.Tests.Program.{blank}
use inbucket.Httpd.Templates.{Engine, load_template, write_page}
use inbucket.Httpd.Templates.Cached.{
  Asked, render, render_all, first_loaded, or_else, load, render-first_loaded,
}

-- A disk is the text of its one file, and an empty file is no template.
abbrev text_engine : Engine
text_engine = record {
  Template = Bytes;
  Disk = Bytes;
  Data = Bytes;
  separator = b'/';
  join = λ dir file. dir ++ codes "/" ++ file;
  base_of = λ name. name;
  parse_files = λ disk root files. if is_nil disk then none else some (root ++ disk);
  execute = λ t d. (t ++ d, false);
}

abbrev cached : WebConfig Bytes
cached = record blank.web { template_dir = codes "themes"; template_cache = true }

abbrev asked_at : Bytes → Bool → Asked text_engine
asked_at disk partial = record {
  disk = disk;
  partial = partial;
  name = codes "x.html";
  fill = codes "!";
}

-- The partial that was cached answers the request for the page.
render-first_loaded_example :
    (render text_engine cached
      (asked_at (codes "new") false)
      (render_all text_engine cached (asked_at [] false ∷ asked_at (codes "old") true ∷ []) [])).0
    ≡ record { expires = true; body = codes "x.htmlold!"; failed = false }
unfolding write_page first_loaded equal or_else load load_template
render-first_loaded_example =
    render-first_loaded text_engine cached (asked_at [] false ∷ asked_at (codes "old") true ∷ [])
      (asked_at (codes "new") false)
