-- ===== src/Httpd/Templates/Cached.antt =====
-- httpd/template.go: what the cache answers, over requests that meet the files as they are then.
use inbucket.Common.{
  ◌≡◌, refl, ap, ◌∙◌, Bool, true, false, Option, none, some, List, [], ◌∷◌, ◌++◌, if◌then◌else◌,
  Bytes, equal, equal_iff, arith,
}
use inbucket.Config.{WebConfig}
use inbucket.Httpd.Templates.{
  Engine, Rendering, Cache, lookup, load_template, parse_template, write_page, render_template,
  render_partial,
}

-- A request for a page: the files at that time, the kind, name and data of the template.
pub record Asked (en : Engine) : Type 0 where
  pub disk : en.Disk
  pub partial : Bool
  pub name : Bytes
  pub fill : en.Data

module _ (en : Engine) {Ip : Type 0} (cfg : WebConfig Ip) where
  unfoldable pub render : Asked en → Cache en cfg → Rendering × Cache en cfg
  render a cache =
      if a.partial
      then render_partial en cfg a.disk a.name a.fill cache
      else render_template en cfg a.disk a.name a.fill cache

  -- The cache behind some requests.
  unfoldable pub render_all : List (Asked en) → Cache en cfg → Cache en cfg
  render_all [] cache = cache
  render_all (a ∷ asked) cache = render_all asked (render a cache).1

  unfoldable pub load : Asked en → Option en.Template
  load a = load_template en cfg a.disk a.partial a.name

  unfoldable pub or_else : Option en.Template → Option en.Template → Option en.Template
  or_else none other = other
  or_else (some t) other = some t

  -- What the first of the requests for a name that could be parsed then has loaded.
  unfoldable pub first_loaded : Bytes → List (Asked en) → Option en.Template
  first_loaded name [] = none
  first_loaded name (a ∷ asked) =
      let rest = first_loaded name asked in
      if equal name a.name then or_else (load a) rest else rest

  -- A request whose template is one that the cache has, or else the one that it loads.
  answered :
      (a : Asked en) (cache : Cache en cfg)
      → (render a cache).0
        ≡ write_page en cfg a.fill (or_else (lookup en cfg a.name cache) (load a))
  unfolding render render_partial render_template parse_template load or_else
  answered a cache = ground arith

  looked_up :
      (a : Asked en) (cache : Cache en cfg) (name : Bytes)
      → cfg.template_cache ≡ true
      → lookup en cfg name (render a cache).1
        ≡ or_else (lookup en cfg name cache) (if equal name a.name then load a else none)
  unfolding render render_partial render_template parse_template load or_else lookup
  looked_up a cache name on = ground (arith, equal_iff name a.name)

  unused :
      (a : Asked en) (cache : Cache en cfg)
      → cfg.template_cache ≡ false
      → (render a cache).1 ≡ cache
  unfolding render render_partial render_template parse_template
  unused a cache off = ground arith

  unused_all :
      (asked : List (Asked en)) (cache : Cache en cfg)
      → cfg.template_cache ≡ false
      → render_all asked cache ≡ cache
  unfolding render_all
  unused_all [] cache off = refl
  unused_all (a ∷ asked) cache off = unused_all asked (render a cache).1 off ∙ unused a cache off

  looked_up_all :
      (asked : List (Asked en)) (cache : Cache en cfg) (name : Bytes)
      → cfg.template_cache ≡ true
      → lookup en cfg name (render_all asked cache)
        ≡ or_else (lookup en cfg name cache) (first_loaded name asked)
  unfolding render_all first_loaded or_else
  looked_up_all [] cache name on = ground arith
  looked_up_all (a ∷ asked) cache name on =
      ground (arith, looked_up_all asked (render a cache).1 name on, looked_up a cache name on)

  first_loaded-last :
      (asked : List (Asked en)) (a : Asked en)
      → first_loaded a.name (asked ++ a ∷ []) ≡ or_else (first_loaded a.name asked) (load a)
  unfolding first_loaded or_else
  first_loaded-last [] a = ground (arith, equal_iff a.name a.name)
  first_loaded-last (b ∷ asked) a = ground (arith, first_loaded-last asked a)

  -- What the cache and the files have behind some requests.
  behind :
      (on : Bool) (asked : List (Asked en)) (a : Asked en)
      → cfg.template_cache ≡ on
      → or_else (lookup en cfg a.name (render_all asked [])) (load a)
        ≡ (if on then first_loaded a.name (asked ++ a ∷ []) else load a)
  unfolding lookup or_else
  behind true asked a e = ground (arith, looked_up_all asked [] a.name e, first_loaded-last asked a)
  behind false asked a e = ground (arith, unused_all asked [] e)

  -- A page behind any requests, at whatever files each of them met, is that of the template which
  -- the first request for the name whose template could be parsed has loaded, of whichever kind
  -- that request was, where templates are cached, and of the files at the time of the request
  -- where they are not. It is an error where there is none.
  pub render-first_loaded :
      (asked : List (Asked en)) (a : Asked en)
      → (render a (render_all asked [])).0
        ≡ write_page en cfg a.fill
            (if cfg.template_cache then first_loaded a.name (asked ++ a ∷ []) else load a)
  render-first_loaded asked a =
      answered a (render_all asked [])
      ∙ ap (write_page en cfg a.fill) (behind cfg.template_cache asked a refl)
