-- ===== src/Files.antt =====
-- The file handlers of web/file.go: upload, download and static resources. The file system, the
-- forms and net/http's ServeFile are parameters on the state that handlers share.
pub mod Transfer
pub mod Static
pub mod Served
pub mod Cached
pub mod Uploaded
pub mod Tests
use go_web.Prelude.{
  ℕ, Bool, true, false, Option, none, some, List, [], ◌∷◌, ◌++◌, get, put, maybe, length,
  if◌then◌else◌,
}
use go_web.Strings.{Bytes, Bytes-discrete, bytes, split}
use go_web.Int64.{lt64}
use go_web.Http.{
  Context, Request, Response, Run, returned, panicked, HandleFunc, and_then, deferred, write_header,
  set_header, write,
}
use go_web.Http.Values.{StringValue, path_value, query_value, to_string}

-- What opening or reading a file gives, or the text of its error.
pub data Opened (D : Type 0) : Type 0 where
  opened : D → Opened D
  failed : Bytes → Opened D

-- What `FormFile` returns: `none` is a nil file.
pub record FormFile (F : Type 0) : Type 0 where
  pub file : Option F
  pub filename : Bytes
  pub err : Option Bytes

-- A form file `F` and a file of the system `D`. `open_file` is OpenFile with the flags and the
-- permissions of the upload, `copy_buffer` is CopyBuffer with its error.
pub record FileSystem (F D S : Type 0) : Type 0 where
  pub form_file : Request → Bytes → S → S × FormFile F
  pub open_file : Bytes → S → S × Opened D
  pub copy_buffer : D → F → S → S × Option Bytes
  pub close_form : F → S → S
  pub close_file : D → S → S
  pub read_file : Bytes → S → S × Opened Bytes
  pub serve_file : Response → Request → Bytes → S → S × Response

-- `path/filepath`.
pub record Filepath : Type 0 where
  pub join : Bytes → Bytes → Bytes
  pub clean : Bytes → Bytes
  pub base : Bytes → Bytes

-- Options, applied one after the other.
abbrev pub apply_options : {A : Type 0} → List (A → A) → A → A
apply_options [] a = a
apply_options (opt ∷ opts) a = apply_options opts (opt a)
