-- ===== src/Middlewares/Recovered.antt =====
-- What the middlewares guarantee to the server (middlewares/recover, middlewares/accesslog,
-- middlewares/errhandle with web/server.go).
use go_web.Prelude.{
  ℕ, arith, true, ◌||◌, none, some, ◌⊎◌, inl, inr, Option-cases, Bool-cases, length, List, [], ◌∷◌,
  ◌≡◌, refl, ap, ◌∙◌, get-put_self, ℕ_discrete, ◌++◌, backwards,
}
use go_web.Strings.{Bytes}
use go_web.Int64.{lt64}
use go_web.Http.{
  Context, Request, Response, Run, returned, panicked, HandleFunc, Middleware, new_context,
  and_then, flash_resp, deferred, panics_on, checked_header, is_refused, is_informational,
  write_header, write, write_data,
}
use go_web.Router.Node.{Node}
use go_web.Router.Register.{RegexpLib}
use go_web.Router.Search.{find_router}
use go_web.Server.{Group, ServerEngine, middle_group, call_found, serve, serve_http}
use go_web.Server.Chain.{chain, mdls_of, serve_http-chain}
use go_web.Middlewares.{build_recover, build_accesslog, build_errhandle, register_error, recovered}

checked_header-cases :
    (code : ℕ) (w : Response)
    → ((w' : Response) × (checked_header code w ≡ some w'))
      ⊎ ((checked_header code w ≡ none) × (w.status ≡ none) × (is_refused code ≡ true))
unfolding checked_header
checked_header-cases code w = elim (Option-cases w.status) [
  | inr (n, p) ↦ inl (w, rw p refl)
  | inl p ↦ elim (Bool-cases (is_refused code)) [
    | inl q ↦ inr (rw p (rw q refl), p, q)
    | inr q ↦ elim (Bool-cases (is_informational code)) [
      | inl i ↦ inl (w, rw p (rw q (rw i refl)))
      | inr i ↦ inl (write_header code w, rw p (rw q (rw i refl)))
    ]
  ]
]

write-status : (data_ : Bytes) (w : Response) → (n : ℕ) × ((write data_ w).status ≡ some n)
write-status data_ w = elim (Option-cases w.status) [
  | inr (n, p) ↦ (n, ground arith)
  | inl p ↦ (200, ground arith)
]

module _ {S : Type 0} where
  -- A handler that never panics.
  abbrev pub Returns : HandleFunc S → Type 0
  Returns f = (c : Context S) → (c' : Context S) × (f c ≡ returned c')

  recovered-Returns :
      (f : HandleFunc S) (x : Run S) → Returns f → (c' : Context S) × (recovered f x ≡ returned c')
  recovered-Returns f (returned c) h = (c, refl)
  recovered-Returns f (panicked c) h = h c

  -- The write of the response, to its end or to the panic of `WriteHeader`.
  flash_resp-cases :
      (c : Context S)
      → ((d : Context S) × (status : ℕ) × (flash_resp c ≡ returned d) × (d.w.status ≡ some status))
        ⊎ ((flash_resp c ≡ panicked c)
            × (c.w.status ≡ none)
            × (lt64 0 c.resp_status_code ≡ true)
            × (is_refused c.resp_status_code ≡ true))
  unfolding flash_resp
  flash_resp-cases c = elim (Bool-cases (lt64 0 c.resp_status_code)) [
    | inr p ↦
        let (n, sent) =
          write-status c.resp_data (record c.w { content_length = some (length c.resp_data) }) in
        inl (write_data c c.w, n, rw p refl, sent)
    | inl p ↦ elim (checked_header-cases c.resp_status_code c.w) [
      | inl (w, e) ↦
          let (n, sent) =
            write-status c.resp_data (record w { content_length = some (length c.resp_data) }) in
          inl (write_data c w, n, rw p (rw e refl), sent)
      | inr (e, no_status, refused) ↦ inr (rw p (rw e refl), no_status, p, refused)
    ]
  ]

  -- Behind the recover middleware, with a log function that does not panic, nothing panics.
  build_recover-Returns :
      (code : ℕ) (msg : Bytes) (log_func next : HandleFunc S)
      → Returns log_func
      → Returns (build_recover code msg log_func next)
  unfolding build_recover
  build_recover-Returns code msg log_func next h c =
      recovered-Returns (λ d. log_func (record d { resp_status_code = code; resp_data = msg }))
        (next c) (λ d. h (record d { resp_status_code = code; resp_data = msg }))

  module _ (lib : RegexpLib) (order : Node (HandleFunc S) → List (Bytes × Node (HandleFunc S)))
      (sorted : List (Group S) → List (Group S)) where
    -- With the recover middleware first, whose log function does not panic, and where the write of
    -- the response does not fail, ServeHTTP ends in one of two ways for every request, whatever the
    -- other middlewares, the groups and the handlers do: it returns, and a status has been sent, or
    -- it panics where no status has been sent and the status code of the context is positive and
    -- below 100 or above 999, which WriteHeader refuses.
    pub serve_http_recovers :
        (s : ServerEngine S) (rest : List (Middleware S)) (code : ℕ) (msg : Bytes)
        (log_func : HandleFunc S) (w : Response) (r : Request) (st : S)
        → s.mdls ≡ build_recover code msg log_func ∷ rest
        → Returns log_func
        → ((d : Context S) × (status : ℕ) × (serve_http lib order sorted s w r st ≡ returned d)
            × (d.w.status ≡ some status))
          ⊎ ((d : Context S) × (serve_http lib order sorted s w r st ≡ panicked d)
              × (d.w.status ≡ none)
              × (lt64 0 d.resp_status_code ≡ true)
              × ((lt64 d.resp_status_code 100 || lt64 999 d.resp_status_code) ≡ true))
    serve_http_recovers s rest code msg log_func w r st first h =
        let others = mdls_of (backwards (sorted (middle_group r.path s.groups))) in
        let (c, e) =
          build_recover-Returns code msg log_func (chain (rest ++ others) (serve lib order s)) h
            (new_context w r st) in
        let flashed =
          serve_http-chain lib order sorted s w r st
          ∙ ap
              (λ mdls.
                and_then (chain (mdls ++ others) (serve lib order s) (new_context w r st))
                  flash_resp)
              first
          ∙ ap (λ x. and_then x flash_resp) e in
        elim (flash_resp-cases c) [
          | inl (d, status, e', sent) ↦ inl (d, status, flashed ∙ e', sent)
          | inr (e', no_status, positive, refused) ↦
              inr (c, flashed ∙ e', no_status, positive, refused)
        ]

    -- The page registered for 404 is what a path without a route gets.
    pub errhandle_not_found :
        (s : ServerEngine S) (resp : List (ℕ × Bytes)) (page : Bytes) (ctx : Context S)
        → find_router lib order s.router ctx.r.method ctx.r.path ≡ none
        → build_errhandle (register_error resp 404 page) (serve lib order s) ctx
          ≡ returned (record ctx { resp_status_code = 404; resp_data = page })
    unfolding build_errhandle register_error serve call_found
    errhandle_not_found s resp page ctx e = rw e (rw (get-put_self ℕ_discrete 404 page resp) refl)

  -- With the access log behind the recover middleware, a handler that panics is logged once, and
  -- then the answer is the one that the recover middleware was given.
  pub recover-accesslog :
      (code : ℕ) (msg : Bytes) (recover_log access_log next : HandleFunc S) (ctx c c' : Context S)
      → next ctx ≡ panicked c
      → access_log c ≡ returned c'
      → chain (build_recover code msg recover_log ∷ build_accesslog access_log ∷ []) next ctx
        ≡ recover_log (record c' { resp_status_code = code; resp_data = msg })
  unfolding build_recover build_accesslog
  recover-accesslog code msg recover_log access_log next ctx c c' e f =
      ap (recovered (λ d. recover_log (record d { resp_status_code = code; resp_data = msg })))
        (ap (deferred access_log) e ∙ ap panics_on f)
