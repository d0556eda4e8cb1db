-- ===== src/Files/Transfer.antt =====
-- Upload and download of files (web/file.go).
use go_web.Prelude.{ℕ, List, [], ◌∷◌, ◌++◌, maybe}
use go_web.Strings.{Bytes, bytes}
use go_web.Http.{
  Context, Request, Response, Run, returned, panicked, HandleFunc, deferred, set_header,
}
use go_web.Http.Values.{query_value, to_string}
use go_web.Files.{Opened, opened, failed, FileSystem, Filepath, apply_options}

-- `FileUpLoader`: the destination is computed from the name in the form.
pub record FileUpLoader : Type 0 where
  pub file_field : Bytes
  pub dst_path_func : Bytes → Bytes

-- `NewFileUpLoader`, and `WithDefaultFileUpLoader` as an option.
unfoldable pub new_file_up_loader :
    Filepath → Bytes → List (FileUpLoader → FileUpLoader) → FileUpLoader
new_file_up_loader lib field opts = apply_options opts (record {
  file_field = field;
  dst_path_func = λ name. lib.join (lib.join (bytes "testdata") (bytes "upload")) name;
})

abbrev pub with_default_file_up_loader : (Bytes → Bytes) → FileUpLoader → FileUpLoader
with_default_file_up_loader dst f = record f { dst_path_func = dst }

-- The texts of the answers, in UTF-8.
abbrev pub failed_text : Bytes
failed_text = 228 ∷ 184 ∷ 138 ∷ 228 ∷ 188 ∷ 160 ∷ 229 ∷ 164 ∷ 177 ∷ 232 ∷ 180 ∷ 165 ∷ []

abbrev pub no_data_text : Bytes
no_data_text =
    failed_text
    ++ (239 ∷ 188 ∷ 140 ∷ 230 ∷ 156 ∷ 170 ∷ 230 ∷ 137 ∷ 190 ∷ 229 ∷ 136 ∷ 176 ∷ 230 ∷ 149 ∷ 176
        ∷ 230 ∷ 141 ∷ 174 ∷ [])

abbrev pub done_text : Bytes
done_text = 228 ∷ 184 ∷ 138 ∷ 228 ∷ 188 ∷ 160 ∷ 230 ∷ 136 ∷ 144 ∷ 229 ∷ 138 ∷ 159 ∷ []

abbrev pub answer : {S : Type 0} → ℕ → Bytes → Context S → Context S
answer code text c = record c { resp_data = text; resp_status_code = code }

module _ {F D S : Type 0} (lib : FileSystem F D S) where
  -- The upload from the open destination on.
  abbrev pub copy_to : Bytes → F → D → HandleFunc S
  copy_to dst_path src dst c =
      let (s, err) = lib.copy_buffer dst src c.shared in
      let c' = record c { shared = s } in
      returned
        (maybe (answer 200 (done_text ++ dst_path) c') (λ e. answer 500 (failed_text ++ e) c') err)

  abbrev pub write_upload : Bytes → F → Context S → Opened D → Run S
  write_upload dst_path src c (failed e) = returned (answer 500 (failed_text ++ e) c)
  write_upload dst_path src c (opened dst) =
      deferred (λ d. returned (record d { shared = lib.close_file dst d.shared }))
        (copy_to dst_path src dst c)

  -- `FileUpLoader.Handle`. `defer srcFile.Close()` of a nil file panics where it stands.
  unfoldable pub upload : FileUpLoader → HandleFunc S
  upload f ctx =
      let (s, form) = lib.form_file ctx.r f.file_field ctx.shared in
      let c = record ctx { shared = s } in
      maybe (panicked c)
        (λ src.
          deferred (λ d. returned (record d { shared = lib.close_form src d.shared }))
            (maybe
              (let dst_path = f.dst_path_func form.filename in
                let (s', file) = lib.open_file dst_path c.shared in
                write_upload dst_path src (record c { shared = s' }) file)
              (λ e. returned (answer 400 (no_data_text ++ e) c)) form.err))
        form.file

-- `FileDownloader`.
pub record FileDownloader : Type 0 where
  pub dir : Bytes

abbrev pub attachment_headers : Bytes → List (Bytes × Bytes)
attachment_headers fn =
    (bytes "Content-Disposition", bytes "attachment;filename=" ++ fn)
    ∷ (bytes "Content-Description", bytes "File Transfer")
    ∷ (bytes "Content-Type", bytes "application/octet-stream")
    ∷ (bytes "Content-Transfer-Encoding", bytes "binary")
    ∷ (bytes "Expires", bytes "0")
    ∷ (bytes "Cache-Control", bytes "must-revalidate")
    ∷ (bytes "Pragma", bytes "public")
    ∷ []

abbrev pub set_headers : List (Bytes × Bytes) → Response → Response
set_headers [] w = w
set_headers ((key, val) ∷ hs) w = set_headers hs (set_header key val w)

module _ {F D S : Type 0} (lib : FileSystem F D S) (paths : Filepath)
    (query : Request → List (Bytes × List Bytes)) where
  -- The path of the file that a download names.
  abbrev pub download_path : FileDownloader → Bytes → Bytes
  download_path f req_file = paths.join f.dir (paths.clean req_file)

  -- `FileDownloader.Handle`. The error of a missing query value is dropped.
  unfoldable pub download : FileDownloader → HandleFunc S
  unfolding query_value to_string
  download f ctx =
      let (c, val) = query_value query ctx (bytes "file") in
      maybe (panicked c)
        (λ v.
          let path = download_path f (to_string v).0 in
          let w = set_headers (attachment_headers (paths.base path)) c.w in
          let (s, w') = lib.serve_file w c.r path c.shared in
          returned (record c { w = w'; shared = s }))
        val
