-- ===== src/Files/Served.antt =====
-- What the handler of static resources answers (web/file.go).
use go_web.Prelude.{
  ℕ, true, false, Option, none, some, [], ◌∷◌, ◌++◌, ◌≡◌, refl, get, Option-cases, inl, inr, ◌⊎◌,
  length, ap, ◌∙◌, append-nil, Bool-cases,
}
use go_web.Strings.{Bytes, Bytes-discrete, bytes}
use go_web.Strings.Split.{Lacks, split_first, split_lacking}
use go_web.Int64.{lt64}
use go_web.Http.{
  Context, returned, flash_resp, checked_header, is_refused, is_informational, write_header,
  write_data,
}
use go_web.Http.Values.{path_value, to_string}
use go_web.Files.{Opened, opened, failed, FileSystem, Filepath}
use go_web.Files.Static.{
  FileCacheItem, LruLib, StaticResourceHandler, get_file_ext, second, read_file_from_data,
  static_resource, send_file, send_item, write_item_as_response,
}

pub Opened-cases :
    {A : Type 0} (o : Opened A) → ((a : A) × (o ≡ opened a)) ⊎ ((e : Bytes) × (o ≡ failed e))
Opened-cases (opened a) = inl (a, refl)
Opened-cases (failed e) = inr (e, refl)

-- What is cached of a file.
abbrev pub item_of : Bytes → Bytes → Bytes → FileCacheItem
item_of name data_ t = record {
  file_name = name;
  file_size = length data_;
  content_type = t;
  data_ = data_;
}

-- The extension of a name is what stands between its first dot and its second.
pub get_file_ext_between :
    (a b c : Bytes)
    → Lacks b'.' a
    → Lacks b'.' b
    → (get_file_ext (a ++ (b'.' ∷ b)) ≡ b) × (get_file_ext (a ++ (b'.' ∷ (b ++ (b'.' ∷ c)))) ≡ b)
unfolding get_file_ext
get_file_ext_between a b c ha hb = (
  ap second (split_first b'.' a b ha ∙ ap (◌∷◌ a) (split_lacking b'.' b hb)),
  ap second (split_first b'.' a (b ++ (b'.' ∷ c)) ha ∙ ap (◌∷◌ a) (split_first b'.' b c hb)),
)

-- The file that is asked for, what the cache has of it, and what the file system has.
abbrev pub asked : {S : Type 0} → Context S → Bytes
asked ctx = (to_string (path_value ctx (bytes "file"))).0

abbrev pub from_cache :
    {K S : Type 0} → LruLib K S → StaticResourceHandler K → Context S → S × Option FileCacheItem
from_cache caches h ctx = read_file_from_data caches h (asked ctx) ctx.shared

module _ {S : Type 0} where
  -- Nothing has been written or left to be written.
  pub record IsFresh (ctx : Context S) : Type 0 where
    pub no_status : ctx.w.status ≡ none
    pub no_body : ctx.w.body ≡ []
    pub no_code : ctx.resp_status_code ≡ 0
    pub no_data : ctx.resp_data ≡ []

  -- The answer of a context to which nothing has been written has its status code and its data, if
  -- net/http takes the code for a final one.
  pub replied :
      (c : Context S) (code : ℕ)
      → c.w.status ≡ none
      → c.w.body ≡ []
      → c.resp_status_code ≡ code
      → (lt64 0 code ≡ true) × (is_refused code ≡ false) × (is_informational code ≡ false)
      → (d : Context S) × (flash_resp c ≡ returned d)
        × (d.w.status ≡ some code)
        × (d.w.body ≡ c.resp_data)
  unfolding flash_resp checked_header
  replied c code no_status no_body is_code (positive, accepted, final) = (
    write_data c (write_header code c.w),
    rw is_code (rw positive (rw no_status (rw accepted (rw final refl)))),
    rw no_status refl,
    rw no_status (rw no_body refl),
  )

module _ {F D K S : Type 0} (lib : FileSystem F D S) (caches : LruLib K S) (paths : Filepath) where
  abbrev pub from_disk : StaticResourceHandler K → Context S → S × Opened Bytes
  from_disk h ctx = lib.read_file (paths.join h.dir (asked ctx)) (from_cache caches h ctx).0

  pub static_resource_cached :
      (h : StaticResourceHandler K) (ctx : Context S) (item : FileCacheItem)
      → (from_cache caches h ctx).1 ≡ some item
      → static_resource lib caches paths h ctx
        ≡ returned (send_item item (record ctx { shared = (from_cache caches h ctx).0 }))
  unfolding static_resource
  static_resource_cached h ctx item found = rw found refl

  pub static_resource_read :
      (h : StaticResourceHandler K) (ctx : Context S) (file : Opened Bytes)
      → (from_cache caches h ctx).1 ≡ none
      → (from_disk h ctx).1 ≡ file
      → static_resource lib caches paths h ctx
        ≡ send_file caches h (asked ctx) (record ctx { shared = (from_disk h ctx).0 }) file
  unfolding static_resource
  static_resource_read h ctx file found read = rw found (rw read refl)

  -- The answer that is written at the end holds an item, with status 200.
  abbrev pub Sends : Context S → FileCacheItem → Context S → Type 0
  Sends ctx item c =
      (d : Context S) × (flash_resp c ≡ returned d)
      × (d.w.status ≡ some 200)
      × (d.w.body ≡ item.data_)
      × (d.w.sent_headers ≡ ctx.w.headers)

  abbrev pub Fails : ℕ → Context S → Type 0
  Fails code c =
      (d : Context S) × (flash_resp c ≡ returned d) × (d.w.status ≡ some code) × (d.w.body ≡ [])

  sent :
      (ctx : Context S) (s : S) (item : FileCacheItem)
      → IsFresh ctx
      → Sends ctx item (send_item item (record ctx { shared = s }))
  unfolding flash_resp write_item_as_response
  sent ctx s item h = (
    write_data (send_item item (record ctx { shared = s })) (write_item_as_response item ctx.w),
    rw h.no_code refl,
    rw h.no_status refl,
    rw h.no_status (rw h.no_body (rw h.no_data (append-nil item.data_))),
    rw h.no_status refl,
  )

  failed_with :
      (ctx : Context S) (s : S) (code : ℕ)
      → IsFresh ctx
      → (lt64 0 code ≡ true) × (is_refused code ≡ false) × (is_informational code ≡ false)
      → Fails code (record ctx { shared = s; resp_status_code = code })
  failed_with ctx s code h final =
      let (d, e, status, body) =
        replied (record ctx { shared = s; resp_status_code = code }) code h.no_status h.no_body refl
          final in
      (d, e, status, body ∙ h.no_data)

  pub send_file_small :
      (h : StaticResourceHandler K) (k : K) (name d t : Bytes) (c : Context S)
      → h.cache ≡ some k
      → get Bytes-discrete (get_file_ext name) h.extension_content_type_map ≡ some t
      → lt64 (length d) h.max_file_size ≡ true
      → send_file caches h name c (opened d)
        ≡ returned (
            send_item
              (item_of name d t)
              (record c { shared = caches.add k name (item_of name d t) c.shared }))
  send_file_small h k name d t c there known small = rw known (rw small (rw there refl))

  send_file_known :
      (h : StaticResourceHandler K) (k : K) (name d t : Bytes) (c : Context S)
      → h.cache ≡ some k
      → get Bytes-discrete (get_file_ext name) h.extension_content_type_map ≡ some t
      → (s : S) × (send_file caches h name c (opened d)
          ≡ returned (send_item (item_of name d t) (record c { shared = s })))
  send_file_known h k name d t c there known = elim (Bool-cases (lt64 (length d) h.max_file_size)) [
    | inl small ↦ (
      caches.add k name (item_of name d t) c.shared,
      send_file_small h k name d t c there known small,
    )
    | inr large ↦ (c.shared, rw known (rw large refl))
  ]

  -- The four ways a request for a static resource can go.
  pub data Answered (h : StaticResourceHandler K) (ctx c : Context S) : Type 0 where
    from_memory :
        (item : FileCacheItem)
        → (from_cache caches h ctx).1 ≡ some item
        → Sends ctx item c
        → Answered h ctx c
    from_file :
        (d t : Bytes)
        → (from_cache caches h ctx).1 ≡ none
        → (from_disk h ctx).1 ≡ opened d
        → get Bytes-discrete (get_file_ext (asked ctx)) h.extension_content_type_map ≡ some t
        → Sends ctx (item_of (asked ctx) d t) c
        → Answered h ctx c
    unreadable :
        (e : Bytes)
        → (from_cache caches h ctx).1 ≡ none
        → (from_disk h ctx).1 ≡ failed e
        → Fails 500 c
        → Answered h ctx c
    unknown_type :
        (d : Bytes)
        → (from_cache caches h ctx).1 ≡ none
        → (from_disk h ctx).1 ≡ opened d
        → get Bytes-discrete (get_file_ext (asked ctx)) h.extension_content_type_map ≡ none
        → Fails 400 c
        → Answered h ctx c

  -- On a fresh context, with a cache, the handler of static resources returns. Then the response has
  -- status 200 and the bytes of the cached item, or else of the file, if the extension has a type;
  -- 500 and no body if the file cannot be read; and 400 and no body if the extension has no type.
  -- The headers that are sent with status 200 are those that were set before: the content type of
  -- the item is not among them.
  pub static_resource-Answered :
      (h : StaticResourceHandler K) (k : K) (ctx : Context S)
      → h.cache ≡ some k
      → IsFresh ctx
      → (c : Context S) × (static_resource lib caches paths h ctx ≡ returned c) × Answered h ctx c
  static_resource-Answered h k ctx there fresh = elim (Option-cases (from_cache caches h ctx).1) [
    | inr (item, found) ↦ (
      _,
      static_resource_cached h ctx item found,
      from_memory item found (sent ctx (from_cache caches h ctx).0 item fresh),
    )
    | inl miss ↦ elim (Opened-cases (from_disk h ctx).1) [
      | inr (e, p) ↦ (
        _,
        static_resource_read h ctx (failed e) miss p,
        unreadable e miss p (failed_with ctx (from_disk h ctx).0 500 fresh (refl, refl, refl)),
      )
      | inl (d, p) ↦
          elim (Option-cases
            (get Bytes-discrete (get_file_ext (asked ctx)) h.extension_content_type_map)) [
              | inl unknown ↦ (
                record ctx { shared = (from_disk h ctx).0; resp_status_code = 400 },
                static_resource_read h ctx (opened d) miss p ∙ rw unknown refl,
                unknown_type d miss p unknown
                    (failed_with ctx (from_disk h ctx).0 400 fresh (refl, refl, refl)),
              )
              | inr (t, known) ↦
                  let (s, e) =
                    send_file_known h k (asked ctx) d t
                      (record ctx { shared = (from_disk h ctx).0 }) there known in
                  (
                    _,
                    static_resource_read h ctx (opened d) miss p ∙ e,
                    from_file d t miss p known (sent ctx s (item_of (asked ctx) d t) fresh),
                  )
            ]
    ]
  ]
