-- ===== src/Files/Tests.antt =====
-- Runs of the file handlers, and the theorems at concrete inputs.
use go_web.Prelude.{
  ℕ, Bool, true, false, suc, ◌-◌, if◌then◌else◌, ◌<◌, none, some, List, [], ◌∷◌, ◌++◌, ◌≡◌, refl,
  get, put, arith, ℕ_discrete, length,
}
use go_web.Strings.{Bytes, Bytes-discrete, bytes, split}
use go_web.Int64.{half}
use go_web.Http.{Context, Request, Response, returned}
use go_web.Files.{Opened, opened, failed, FormFile, FileSystem, Filepath}
use go_web.Files.Transfer.{new_file_up_loader, upload}
use go_web.Files.Static.{
  FileCacheItem, LruLib, StaticResourceHandler, default_handler, new_static_resource_handler,
  static_resource, get_file_ext,
}
use go_web.Files.Served.{Answered, static_resource-Answered}
use go_web.Files.Cached.{more_extension, options, without_add, static_resource_uncached}
use go_web.Files.Uploaded.{CountsOpen, Uploaded, upload-Uploaded}

-- One cache, as a map; every file holds three bytes, and every form the file `a.txt`.
abbrev Cached : Type 0
Cached = List (Bytes × FileCacheItem)

abbrev caches : LruLib (Unit {0}) Cached
caches = record {
  lookup = λ k name s. (s, get Bytes-discrete name s);
  add = λ k name item s. put Bytes-discrete name item s;
}

abbrev files : FileSystem Bytes Bytes Cached
files = record {
  form_file =
      λ r field s. (s, record { file = some (bytes "text"); filename = bytes "a.txt"; err = none });
  open_file = λ path s. (s, opened path);
  copy_buffer = λ dst src s. (s, none);
  close_form = λ f s. s;
  close_file = λ d s. s;
  read_file = λ path s. (s, opened (bytes "PNG"));
  serve_file = λ w r path s. (s, w);
}

-- A file system whose state is the number of open files. The field `broken` gives a file that
-- could not be opened, and the field `none` no file; the destination opens if its name is not
-- empty.
abbrev form_of : Bytes → ℕ → ℕ × FormFile Bool
form_of field n = elim (Bytes-discrete field (bytes "none")) [
  | yes _ ↦ (n, record { file = none; filename = []; err = some (bytes "no such file") })
  | no _ ↦ elim (Bytes-discrete field (bytes "broken")) [
    | yes _ ↦ (n, record { file = some false; filename = []; err = some (bytes "broken") })
    | no _ ↦ (suc n, record { file = some true; filename = bytes "a.txt"; err = none })
  ]
]

abbrev destination_of : Bytes → ℕ → ℕ × Opened Bytes
destination_of [] n = (n, failed (bytes "no name"))
destination_of (b ∷ path) n = (suc n, opened (b ∷ path))

abbrev counting : FileSystem Bool Bytes ℕ
counting = record {
  form_file = λ r field n. form_of field n;
  open_file = destination_of;
  copy_buffer = λ dst src n. (n, none);
  close_form = λ is_open n. if is_open then n - 1 else n;
  close_file = λ d n. n - 1;
  read_file = λ path n. (n, opened (bytes "PNG"));
  serve_file = λ w r path n. (n, w);
}

destination_of-opened :
    (path : Bytes) (n : ℕ) (dst : Bytes)
    → (destination_of path n).1 ≡ opened dst
    → (destination_of path n).0 ≡ suc n
destination_of-opened [] n dst e = cc
destination_of-opened (b ∷ path) n dst e = refl

destination_of-failed :
    (path : Bytes) (n : ℕ) (e : Bytes)
    → (destination_of path n).1 ≡ failed e
    → (destination_of path n).0 ≡ n
destination_of-failed [] n e h = refl
destination_of-failed (b ∷ path) n e h = cc

counting-CountsOpen : CountsOpen counting (λ n. n)
counting-CountsOpen = record {
  form_absent = λ r field n h. ground (arith);
  form_opened = λ r field n src h h'. ground (arith);
  form_failed = λ r field n src e h h'. ground (arith);
  file_opened = destination_of-opened;
  file_failed = destination_of-failed;
  copied_same = λ dst src n. refl;
  file_closed = λ dst n. refl;
}

abbrev paths : Filepath
paths = record { join = λ a b. a ++ b'/' ∷ b; clean = λ a. a; base = λ a. a }

abbrev request : Request
request = record {
  method = bytes "GET";
  path = bytes "/img/cat.png";
  request_uri = bytes "/img/cat.png";
  host = [];
  url = bytes "/img/cat.png";
  scheme = [];
  remote_addr = [];
  proto = [];
  body = none;
}

abbrev no_response : Response
no_response = record {
  status = none;
  headers = [];
  sent_headers = [];
  content_length = none;
  body = [];
}

abbrev context_of : {S : Type 0} → S → Context S
context_of s = record {
  r = request;
  path_params = (bytes "file", bytes "cat.png") ∷ [];
  cache_query_values = none;
  match_route = bytes "/img/:file";
  w = no_response;
  resp_status_code = 0;
  resp_data = [];
  shared = s;
}

abbrev asking : Cached → Context Cached
asking s = context_of s

abbrev form_to : ℕ → Context ℕ
form_to n = context_of n

-- A handler that caches files of less than ten bytes.
abbrev caching : StaticResourceHandler (Unit {0})
caching = record (default_handler tt) { max_file_size = 10 }

-- The extension of `archive.tar.gz` is `tar`.
archive_ext : get_file_ext (bytes "archive.tar.gz") ≡ bytes "tar"
unfolding get_file_ext split ℕ_discrete
archive_ext = refl

static_resource-Answered_example :
    (c : Context Cached) × (static_resource files caches paths caching (asking []) ≡ returned c)
    × Answered files caches paths caching (asking []) c
static_resource-Answered_example =
    static_resource-Answered files caches paths caching tt (asking []) refl
      (record { no_status = refl; no_body = refl; no_code = refl; no_data = refl })

small_file :
    (d : Bytes) → ◌≡◌ {A = Opened Bytes} (opened (bytes "PNG")) (opened d) → length d < half
small_file d e = ground (arith)

static_resource_uncached_example :
    static_resource files caches paths
      (new_static_resource_handler tt (options (more_extension [] ∷ [])))
      (asking [])
    ≡ static_resource files
        (without_add caches)
        paths
        (new_static_resource_handler tt (options (more_extension [] ∷ [])))
        (asking [])
static_resource_uncached_example =
    static_resource_uncached files caches paths tt (more_extension [] ∷ []) (asking [])
      (λ path d s e. small_file d e)

upload-Uploaded_example :
    Uploaded counting
      (λ n. n)
      (new_file_up_loader paths (bytes "file") [])
      (form_to 3)
      (upload counting (new_file_up_loader paths (bytes "file") []) (form_to 3))
upload-Uploaded_example =
    upload-Uploaded counting (λ n. n) (new_file_up_loader paths (bytes "file") []) (form_to 3)
      counting-CountsOpen
      (record { no_status = refl; no_body = refl; no_code = refl; no_data = refl })
