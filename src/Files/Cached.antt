-- ===== src/Files/Cached.antt =====
-- When the handler of static resources caches (web/file.go).
use go_web.Prelude.{
  ℕ, ◌<◌, false, List, [], ◌∷◌, ◌≡◌, refl, arith, Option-cases, inl, inr, length, ap, ◌∙◌,
}
use go_web.Strings.{Bytes}
use go_web.Int64.{lt64, half}
use go_web.Http.{Context}
use go_web.Files.{Opened, opened, failed, FileSystem, Filepath, apply_options}
use go_web.Files.Static.{
  LruLib, StaticResourceHandler, new_static_resource_handler, with_more_extension, with_set_dir,
  default_handler, static_resource, send_file,
}
use go_web.Files.Served.{asked, from_cache, from_disk}

-- The options of the package.
pub data StaticOption : Type 0 where
  more_extension : (ext_map : List (Bytes × Bytes)) → StaticOption
  set_dir : (dir : Bytes) → StaticOption

module _ {K : Type 0} where
  abbrev pub option : StaticOption → StaticResourceHandler K → StaticResourceHandler K
  option (more_extension m) = with_more_extension m
  option (set_dir dir) = with_set_dir dir

  abbrev pub options : List StaticOption → List (StaticResourceHandler K → StaticResourceHandler K)
  options [] = []
  options (o ∷ os) = option o ∷ options os

  option-max_file_size :
      (o : StaticOption) (h : StaticResourceHandler K)
      → (option o h).max_file_size ≡ h.max_file_size
  unfolding with_more_extension with_set_dir
  option-max_file_size (more_extension m) h = refl
  option-max_file_size (set_dir dir) h = refl

  options-max_file_size :
      (os : List StaticOption) (h : StaticResourceHandler K)
      → (apply_options (options os) h).max_file_size ≡ h.max_file_size
  options-max_file_size [] h = refl
  options-max_file_size (o ∷ os) h =
      options-max_file_size os (option o h) ∙ option-max_file_size o h

-- The cache package with an `Add` that does nothing.
abbrev pub without_add : {K S : Type 0} → LruLib K S → LruLib K S
without_add caches = record { lookup = caches.lookup; add = λ k name item s. s }

not_below_zero : (n : ℕ) → n < half → lt64 n 0 ≡ false
not_below_zero n h = ground arith

module _ {F D K S : Type 0} (lib : FileSystem F D S) (caches : LruLib K S) (paths : Filepath) where
  send_file-without_add :
      (h : StaticResourceHandler K) (name : Bytes) (c : Context S) (file : Opened Bytes)
      → ((d : Bytes) → file ≡ opened d → lt64 (length d) h.max_file_size ≡ false)
      → send_file caches h name c file ≡ send_file (without_add caches) h name c file
  send_file-without_add h name c (failed e) large = refl
  send_file-without_add h name c (opened d) large = rw (large d refl) refl

  -- A handler made by NewStaticResourceHandler with the options of the package never caches, where
  -- no file has 2 ^ 63 bytes or more: it does the same with a cache whose `Add` does nothing.
  pub static_resource_uncached :
      (k : K) (os : List StaticOption) (ctx : Context S)
      → ((path d : Bytes) (s : S) → (lib.read_file path s).1 ≡ opened d → length d < half)
      → static_resource lib caches paths (new_static_resource_handler k (options os)) ctx
        ≡ static_resource lib
            (without_add caches)
            paths
            (new_static_resource_handler k (options os))
            ctx
  unfolding static_resource new_static_resource_handler
  static_resource_uncached k os ctx small = elim (Option-cases (from_cache caches h ctx).1) [
    | inr (item, found) ↦ rw found refl
    | inl miss ↦ rw miss (
        send_file-without_add h (asked ctx)
          (record ctx { shared = (from_disk lib caches paths h ctx).0 })
          (from_disk lib caches paths h ctx).1
          (λ d e.
            ap (lt64 (length d)) (options-max_file_size os (default_handler k))
            ∙ not_below_zero (length d) (small _ d _ e)))
  ]
    where
      h : StaticResourceHandler K
      h = new_static_resource_handler k (options os)
