-- ===== src/Httpd/Templates.antt =====
-- httpd/template.go: `ParseTemplate` with its cache, `RenderTemplate` and `RenderPartial`.
pub mod Cached
use inbucket.Config.{WebConfig}
use inbucket.Common.{
  ◌≡◌, refl, ◌==◌, ℕ, Bool, true, false, Option, none, some, List, [], ◌∷◌, ◌++◌, map,
  if◌then◌else◌, Bytes, codes, equal, arith,
}

-- What the program uses of html/template and of path/filepath, with the files as they are at a
-- request; a partial template that fails to execute has written a part of its text.
pub record Engine : Type 1 where
  pub Template : Type 0
  pub Disk : Type 0
  pub Data : Type 0
  pub separator : ℕ
  pub join : Bytes → Bytes → Bytes
  pub base_of : Bytes → Bytes
  pub parse_files : Disk → Bytes → List Bytes → Option Template
  pub execute : Template → Data → Bytes × Bool

-- `strings.Replace(name, "/", string(filepath.Separator), -1)`
unfoldable pub with_separator : ℕ → Bytes → Bytes
with_separator separator name = map (λ c. if c == b'/' then separator else c) name

-- What a call of `RenderTemplate` or `RenderPartial` leaves: the header `Expires`, the text
-- written, and whether it returns an error.
pub record Rendering : Type 0 where
  pub expires : Bool
  pub body : Bytes
  pub failed : Bool

module _ (en : Engine) {Ip : Type 0} (cfg : WebConfig Ip) where
  -- `cachedTemplates`, of templates and partials alike.
  abbrev pub Cache : Type 0
  Cache = List (Bytes × en.Template)

  unfoldable pub lookup : Bytes → Cache → Option en.Template
  lookup name [] = none
  lookup name ((key, t) ∷ cache) =
      let rest = lookup name cache in if equal name key then some t else rest

  -- The parse of `ParseTemplate`, for a name that is not in the cache.
  unfoldable pub load_template : en.Disk → Bool → Bytes → Option en.Template
  load_template disk partial name =
      let temp_file = en.join cfg.template_dir (with_separator en.separator name) in
      if partial
      then en.parse_files disk (en.base_of name) (temp_file ∷ [])
      else en.parse_files disk (codes "_base.html")
          (en.join cfg.template_dir (codes "_base.html") ∷ temp_file ∷ [])

  -- `ParseTemplate`; none is an error.
  unfoldable pub parse_template : en.Disk → Bool → Bytes → Cache → Option en.Template × Cache
  parse_template disk partial name cache = elim (lookup name cache) [
    | some t ↦ (some t, cache)
    | none ↦ elim (load_template disk partial name) [
      | none ↦ (none, cache)
      | some t ↦ (some t, (if cfg.template_cache then (name, t) ∷ cache else cache))
    ]
  ]

  -- What `RenderTemplate` and `RenderPartial` do with the outcome of `ParseTemplate`.
  unfoldable pub write_page : en.Data → Option en.Template → Rendering
  write_page d none = record { expires = false; body = []; failed = true }
  write_page d (some t) =
      let (text, failed) = en.execute t d in record { expires = true; body = text; failed = failed }

  -- `RenderTemplate`
  unfoldable pub render_template : en.Disk → Bytes → en.Data → Cache → Rendering × Cache
  render_template disk name d cache =
      let (parsed, cache') = parse_template disk false name cache in (write_page d parsed, cache')

  -- `RenderPartial`
  unfoldable pub render_partial : en.Disk → Bytes → en.Data → Cache → Rendering × Cache
  render_partial disk name d cache =
      let (parsed, cache') = parse_template disk true name cache in (write_page d parsed, cache')
