-- ===== src/Files/Uploaded.antt =====
-- How an upload ends (web/file.go).
use go_web.Prelude.{
  ℕ, suc, ◌-◌, Option, none, some, ◌++◌, ◌≡◌, refl, ◌∙◌, arith, Option-cases, inl, inr,
}
use go_web.Strings.{Bytes}
use go_web.Http.{Context, Request, Run, returned, panicked, flash_resp}
use go_web.Files.{Opened, opened, failed, FormFile, FileSystem}
use go_web.Files.Transfer.{FileUpLoader, failed_text, no_data_text, done_text, upload}
use go_web.Files.Served.{Opened-cases, IsFresh, replied}

-- How many files are open: FormFile and OpenFile open one unless they return an error, and closing
-- it closes one. A file that FormFile returns with an error is not open.
pub record CountsOpen {F D S : Type 0} (lib : FileSystem F D S) (open_files : S → ℕ) : Type 0 where
  pub form_absent :
      (r : Request) (field : Bytes) (s : S)
      → (lib.form_file r field s).1.file ≡ none
      → open_files (lib.form_file r field s).0 ≡ open_files s
  pub form_opened :
      (r : Request) (field : Bytes) (s : S) (src : F)
      → (lib.form_file r field s).1.file ≡ some src
      → (lib.form_file r field s).1.err ≡ none
      → (open_files (lib.form_file r field s).0 ≡ suc (open_files s))
        × ((s' : S) → open_files (lib.close_form src s') ≡ open_files s' - 1)
  pub form_failed :
      (r : Request) (field : Bytes) (s : S) (src : F) (e : Bytes)
      → (lib.form_file r field s).1.file ≡ some src
      → (lib.form_file r field s).1.err ≡ some e
      → (open_files (lib.form_file r field s).0 ≡ open_files s)
        × ((s' : S) → open_files (lib.close_form src s') ≡ open_files s')
  pub file_opened :
      (path : Bytes) (s : S) (dst : D)
      → (lib.open_file path s).1 ≡ opened dst
      → open_files (lib.open_file path s).0 ≡ suc (open_files s)
  pub file_failed :
      (path : Bytes) (s : S) (e : Bytes)
      → (lib.open_file path s).1 ≡ failed e
      → open_files (lib.open_file path s).0 ≡ open_files s
  pub copied_same :
      (dst : D) (src : F) (s : S) → open_files (lib.copy_buffer dst src s).0 ≡ open_files s
  pub file_closed : (dst : D) (s : S) → open_files (lib.close_file dst s) ≡ open_files s - 1

-- The response that is written at the end has the status and the body.
abbrev pub Replies : {S : Type 0} → ℕ → Bytes → Context S → Type 0
Replies {S = S} code text c =
    (d : Context S) × (flash_resp c ≡ returned d) × (d.w.status ≡ some code) × (d.w.body ≡ text)

module _ {F D S : Type 0} (lib : FileSystem F D S) (open_files : S → ℕ) (f : FileUpLoader)
    (ctx : Context S) where
  -- What the form has, and what opening the destination and copying to it give.
  abbrev pub form : S × FormFile F
  form = lib.form_file ctx.r f.file_field ctx.shared

  abbrev pub dst_path : Bytes
  dst_path = f.dst_path_func form.1.filename

  abbrev pub destination : S × Opened D
  destination = lib.open_file dst_path form.0

  abbrev pub copied : D → F → S × Option Bytes
  copied dst src = lib.copy_buffer dst src destination.0

  -- A return with a reply and with as many open files as before.
  abbrev pub Ends : ℕ → Bytes → Run S → Type 0
  Ends code text r =
      (c : Context S) × (r ≡ returned c)
      × Replies code text c
      × (open_files c.shared ≡ open_files ctx.shared)

  -- The ways an upload can end.
  pub data Uploaded (r : Run S) : Type 0 where
    no_form_file :
        (c : Context S)
        → form.1.file ≡ none
        → r ≡ panicked c
        → c.w ≡ ctx.w
        → open_files c.shared ≡ open_files ctx.shared
        → Uploaded r
    refused :
        (src : F) (e : Bytes)
        → form.1.file ≡ some src
        → form.1.err ≡ some e
        → Ends 400 (no_data_text ++ e) r
        → Uploaded r
    not_opened :
        (src : F) (e : Bytes)
        → form.1.file ≡ some src
        → form.1.err ≡ none
        → destination.1 ≡ failed e
        → Ends 500 (failed_text ++ e) r
        → Uploaded r
    not_copied :
        (src : F) (dst : D) (e : Bytes)
        → form.1.file ≡ some src
        → form.1.err ≡ none
        → destination.1 ≡ opened dst
        → (copied dst src).1 ≡ some e
        → Ends 500 (failed_text ++ e) r
        → Uploaded r
    stored :
        (src : F) (dst : D)
        → form.1.file ≡ some src
        → form.1.err ≡ none
        → destination.1 ≡ opened dst
        → (copied dst src).1 ≡ none
        → Ends 200 (done_text ++ dst_path) r
        → Uploaded r

  abbrev answered : ℕ → Bytes → S → Context S
  answered code text s = record ctx { resp_data = text; resp_status_code = code; shared = s }

  module _ (laws : CountsOpen lib open_files) (fresh : IsFresh ctx) where
    -- Closing both files after the copy, or the one where the destination was not opened.
    closed_both :
        (src : F) (dst : D)
        → form.1.file ≡ some src
        → form.1.err ≡ none
        → destination.1 ≡ opened dst
        → open_files (lib.close_form src (lib.close_file dst (copied dst src).0))
          ≡ open_files ctx.shared
    closed_both src dst found no_err p =
        let (form_open, form_closed) =
          laws.form_opened ctx.r f.file_field ctx.shared src found no_err in
        omega (
          arith,
          form_open,
          form_closed (lib.close_file dst (copied dst src).0),
          laws.file_closed dst (copied dst src).0,
          laws.copied_same dst src destination.0,
          laws.file_opened dst_path form.0 dst p,
        )

    closed_form :
        (src : F) (e : Bytes)
        → form.1.file ≡ some src
        → form.1.err ≡ none
        → destination.1 ≡ failed e
        → open_files (lib.close_form src destination.0) ≡ open_files ctx.shared
    closed_form src e found no_err p =
        let (form_open, form_closed) =
          laws.form_opened ctx.r f.file_field ctx.shared src found no_err in
        omega (arith, form_open, form_closed destination.0, laws.file_failed dst_path form.0 e p)

    -- On a fresh context, an upload without a file in the form panics with nothing written, and so
    -- never answers 400. With a file it answers, in status and body: 400 if FormFile returned an
    -- error with the file, 500 if the destination cannot be opened or the copy fails, and else 200
    -- with the path. In every case there are as many open files as before.
    pub upload-Uploaded : Uploaded (upload lib f ctx)
    unfolding upload
    upload-Uploaded = elim (Option-cases form.1.file) [
      | inl absent ↦
          no_form_file (record ctx { shared = form.0 }) absent (rw absent refl) refl
            (laws.form_absent ctx.r f.file_field ctx.shared absent)
      | inr (src, found) ↦ elim (Option-cases form.1.err) [
        | inr (e, failing) ↦
            let (same, closed) =
              laws.form_failed ctx.r f.file_field ctx.shared src e found failing in
            let c = answered 400 (no_data_text ++ e) (lib.close_form src form.0) in
            refused src e found failing (
              c,
              rw found (rw failing refl),
              replied c 400 fresh.no_status fresh.no_body refl (refl, refl, refl),
              closed form.0 ∙ same,
            )
        | inl no_err ↦ elim (Opened-cases destination.1) [
          | inr (e, p) ↦
              let c = answered 500 (failed_text ++ e) (lib.close_form src destination.0) in
              not_opened src e found no_err p (
                c,
                rw found (rw no_err (rw p refl)),
                replied c 500 fresh.no_status fresh.no_body refl (refl, refl, refl),
                closed_form src e found no_err p,
              )
          | inl (dst, p) ↦
              let s = lib.close_form src (lib.close_file dst (copied dst src).0) in
              elim (Option-cases (copied dst src).1) [
                | inl done ↦
                    let c = answered 200 (done_text ++ dst_path) s in
                    stored src dst found no_err p done (
                      c,
                      rw found (rw no_err (rw p (rw done refl))),
                      replied c 200 fresh.no_status fresh.no_body refl (refl, refl, refl),
                      closed_both src dst found no_err p,
                    )
                | inr (e, broken) ↦
                    let c = answered 500 (failed_text ++ e) s in
                    not_copied src dst e found no_err p broken (
                      c,
                      rw found (rw no_err (rw p (rw broken refl))),
                      replied c 500 fresh.no_status fresh.no_body refl (refl, refl, refl),
                      closed_both src dst found no_err p,
                    )
              ]
        ]
      ]
    ]
