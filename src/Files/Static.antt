-- ===== src/Files/Static.antt =====
-- Static resources with their cache (web/file.go). The cache package golang-lru is a parameter.
use go_web.Prelude.{ℕ, Option, none, some, List, [], ◌∷◌, get, put, maybe, length, if◌then◌else◌}
use go_web.Strings.{Bytes, Bytes-discrete, bytes, split}
use go_web.Int64.{lt64}
use go_web.Http.{
  Context, Response, Run, returned, panicked, HandleFunc, and_then, write_header, set_header, write,
}
use go_web.Http.Values.{path_value, to_string}
use go_web.Files.{Opened, opened, failed, FileSystem, Filepath, apply_options}

-- `fileCacheItem`.
pub record FileCacheItem : Type 0 where
  pub file_name : Bytes
  pub file_size : ℕ
  pub content_type : Bytes
  pub data_ : Bytes

-- The methods of `*lru.Cache` on the state; `K` is a pointer to a cache.
pub record LruLib (K S : Type 0) : Type 0 where
  pub lookup : K → Bytes → S → S × Option FileCacheItem
  pub add : K → Bytes → FileCacheItem → S → S

-- `StaticResourceHandler`; `none` is a nil cache.
pub record StaticResourceHandler (K : Type 0) : Type 0 where
  pub dir : Bytes
  pub extension_content_type_map : List (Bytes × Bytes)
  pub cache : Option K
  pub max_file_size : ℕ

-- `getFileExt`: `ext[1]` of the parts between the dots.
abbrev pub second : List Bytes → Bytes
second (s ∷ t ∷ ss) = t
second ss = []

unfoldable pub get_file_ext : Bytes → Bytes
unfolding split
get_file_ext fn = second (split b'.' fn)

abbrev pub default_types : List (Bytes × Bytes)
default_types =
    (bytes "jpeg", bytes "image/jpeg")
    ∷ (bytes "jpe", bytes "image/jpeg")
    ∷ (bytes "jpg", bytes "image/jpeg")
    ∷ (bytes "png", bytes "image/png")
    ∷ (bytes "pdf", bytes "image/pdf")
    ∷ []

abbrev pub default_dir : Bytes
default_dir = bytes "C:\\Users\\wp199\\Desktop\\go_pro\\go_web\\testdata\\img"

abbrev pub put_all : List (Bytes × Bytes) → List (Bytes × Bytes) → List (Bytes × Bytes)
put_all [] m = m
put_all ((ext, t) ∷ exts) m = put_all exts (put Bytes-discrete ext t m)

module _ {K : Type 0} where
  -- The handler that `NewStaticResourceHandler` starts from: it sets no `maxFileSize`.
  abbrev pub default_handler : K → StaticResourceHandler K
  default_handler c = record {
    dir = default_dir;
    extension_content_type_map = default_types;
    cache = some c;
    max_file_size = 0;
  }

  unfoldable pub new_static_resource_handler :
      K → List (StaticResourceHandler K → StaticResourceHandler K) → StaticResourceHandler K
  new_static_resource_handler c options = apply_options options (default_handler c)

  unfoldable pub with_more_extension :
      List (Bytes × Bytes) → StaticResourceHandler K → StaticResourceHandler K
  with_more_extension ext_map s = record s {
    extension_content_type_map = put_all ext_map s.extension_content_type_map;
  }

  unfoldable pub with_set_dir : Bytes → StaticResourceHandler K → StaticResourceHandler K
  with_set_dir dir s = record s { dir = dir }

-- `writeItemAsResponse`.
unfoldable pub write_item_as_response : FileCacheItem → Response → Response
write_item_as_response item w =
    let w₁ = set_header (bytes "Content-Type") item.content_type (write_header 200 w) in
    write item.data_ (record w₁ { content_length = some item.file_size })

abbrev pub send_item : {S : Type 0} → FileCacheItem → Context S → Context S
send_item item c = record c { w = write_item_as_response item c.w }

module _ {K S : Type 0} (caches : LruLib K S) where
  -- `readFileFromData`.
  unfoldable pub read_file_from_data :
      StaticResourceHandler K → Bytes → S → S × Option FileCacheItem
  read_file_from_data h name s = maybe (s, none) (λ c. caches.lookup c name s) h.cache

  -- `s.cache.Add`, which dereferences a nil cache.
  abbrev pub add_item : StaticResourceHandler K → FileCacheItem → HandleFunc S
  add_item h item c =
      maybe (panicked c)
        (λ k. returned (record c { shared = caches.add k item.file_name item c.shared })) h.cache

  -- A file that was read, or not.
  abbrev pub send_file : StaticResourceHandler K → Bytes → Context S → Opened Bytes → Run S
  send_file h name c (failed e) = returned (record c { resp_status_code = 500 })
  send_file h name c (opened fdata) =
      maybe (returned (record c { resp_status_code = 400 }))
        (λ t.
          let item : FileCacheItem = record {
            file_name = name;
            file_size = length fdata;
            content_type = t;
            data_ = fdata;
          } in
          let cached = add_item h item c in
          and_then (if lt64 (length fdata) h.max_file_size then cached else returned c)
            (λ d. returned (send_item item d)))
        (get Bytes-discrete (get_file_ext name) h.extension_content_type_map)

module _ {F D K S : Type 0} (lib : FileSystem F D S) (caches : LruLib K S) (paths : Filepath) where
  -- `StaticResourceHandler.handle`.
  unfoldable pub static_resource : StaticResourceHandler K → HandleFunc S
  unfolding path_value to_string read_file_from_data get_file_ext write_item_as_response
  static_resource h ctx =
      let name = (to_string (path_value ctx (bytes "file"))).0 in
      let (s, found) = read_file_from_data caches h name ctx.shared in
      let c = record ctx { shared = s } in
      maybe
        (let (s', file) = lib.read_file (paths.join h.dir name) c.shared in
          send_file caches h name (record c { shared = s' }) file)
        (λ item. returned (send_item item c)) found
