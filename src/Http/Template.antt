-- ===== src/Http/Template.antt =====
-- The template engine of web/template.go. The package html/template is a parameter.
use go_web.Prelude.{Option, none, some, List, maybe}
use go_web.Strings.{Bytes}
use go_web.Http.Values.{ValueError, library_error}

-- Templates `T`, data `D` and file systems `Fs`. A result without a template is an error; an
-- execution gives what was written before it ended.
pub record TemplateLib (T D Fs : Type 0) : Type 0 where
  pub execute_template : T → Bytes → D → Bytes × Option ValueError
  pub parse_glob : Bytes → Option T
  pub parse_files : List Bytes → Option T
  pub parse_fs : Fs → List Bytes → Option T

-- `GOTemplateEngine`; `none` is a nil template.
pub record GoTemplateEngine (T : Type 0) : Type 0 where
  pub t : Option T

module _ {T D Fs : Type 0} (lib : TemplateLib T D Fs) where
  -- `Render`: `none` is a panic, where no template was loaded.
  unfoldable pub render_template :
      GoTemplateEngine T → Bytes → D → Option (Bytes × Option ValueError)
  render_template g telname data_ =
      maybe none (λ t. some (lib.execute_template t telname data_)) g.t

  -- `g.T, err = ...`: the template is assigned with the error too.
  abbrev pub loaded : Option T → GoTemplateEngine T × Option ValueError
  loaded t = (record { t = t }, maybe (some library_error) (λ _. none) t)

  unfoldable pub load_from_glob :
      GoTemplateEngine T → Bytes → GoTemplateEngine T × Option ValueError
  load_from_glob g pattern_ = loaded (lib.parse_glob pattern_)

  unfoldable pub load_from_files :
      GoTemplateEngine T → List Bytes → GoTemplateEngine T × Option ValueError
  load_from_files g filenames = loaded (lib.parse_files filenames)

  unfoldable pub load_from_fs :
      GoTemplateEngine T → Fs → List Bytes → GoTemplateEngine T × Option ValueError
  load_from_fs g fs patterns = loaded (lib.parse_fs fs patterns)
