-- ===== src/Server/Chain.antt =====
-- How ServeHTTP (web/server.go) composes the middlewares: the loops from the last to the first,
-- against one chain.
use go_web.Prelude.{
  ℕ, backwards, zero, suc, List, [], ◌∷◌, ◌++◌, ◌≡◌, refl, sym, ap, ◌∙◌, length, maybe, get_elem?,
  append_assoc, append-nil,
}
use go_web.Strings.{Bytes}
use go_web.Http.{Request, Response, HandleFunc, Middleware, new_context, and_then, flash_resp}
use go_web.Router.Node.{Node}
use go_web.Router.Register.{RegexpLib}
use go_web.Server.{
  Group, ServerEngine, wrap_from, wrap, wrap_groups, middle_group, serve, serve_http,
}

module _ {S : Type 0} where
  -- The first middleware is the outermost.
  abbrev pub chain : List (Middleware S) → HandleFunc S → HandleFunc S
  chain [] root = root
  chain (m ∷ mdls) root = m (chain mdls root)

  abbrev pub mdls_of : List (Group S) → List (Middleware S)
  mdls_of [] = []
  mdls_of (g ∷ gs) = g.mdls ++ mdls_of gs

  pub chain-append :
      (a b : List (Middleware S)) (root : HandleFunc S)
      → chain (a ++ b) root ≡ chain a (chain b root)
  chain-append [] b root = refl
  chain-append (m ∷ a) b root = ap m (chain-append a b root)

  -- Steps of the loop that only the tail of the list is in.
  wrap_from-cons :
      (n : ℕ) (m : Middleware S) (mdls : List (Middleware S)) (root : HandleFunc S)
      → wrap_from (suc n) (m ∷ mdls) root ≡ m (wrap_from n mdls root)
  unfolding wrap_from
  wrap_from-cons zero m mdls root = refl
  wrap_from-cons (suc n) m mdls root =
      wrap_from-cons n m mdls (maybe root (λ f. f root) (get_elem? mdls n))

  pub wrap-chain :
      (mdls : List (Middleware S)) (root : HandleFunc S) → wrap mdls root ≡ chain mdls root
  unfolding wrap wrap_from
  wrap-chain [] root = refl
  wrap-chain (m ∷ mdls) root =
      wrap_from-cons (length mdls) m mdls root ∙ ap m (wrap-chain mdls root)

  mdls_of-append : (a b : List (Group S)) → mdls_of (a ++ b) ≡ mdls_of a ++ mdls_of b
  mdls_of-append [] b = refl
  mdls_of-append (g ∷ a) b =
      ap (λ x. g.mdls ++ x) (mdls_of-append a b) ∙ sym (append_assoc g.mdls (mdls_of a) (mdls_of b))

  pub wrap_groups-chain :
      (gs : List (Group S)) (root : HandleFunc S)
      → wrap_groups gs root ≡ chain (mdls_of (backwards gs)) root
  unfolding wrap_groups
  wrap_groups-chain [] root = refl
  wrap_groups-chain (g ∷ gs) root =
      wrap_groups-chain gs (wrap g.mdls root)
      ∙ ap (chain (mdls_of (backwards gs)))
          (wrap-chain g.mdls root ∙ ap (λ x. chain x root) (sym (append-nil g.mdls)))
      ∙ sym (chain-append (mdls_of (backwards gs)) (g.mdls ++ []) root)
      ∙ ap (λ x. chain x root) (sym (mdls_of-append (backwards gs) (g ∷ [])))

  module _ (lib : RegexpLib) (order : Node (HandleFunc S) → List (Bytes × Node (HandleFunc S)))
      (sorted : List (Group S) → List (Group S)) where
    -- ServeHTTP runs one chain and then writes the response: the middlewares of the engine, then
    -- those of the groups whose prefix the path has, in the reverse of the order that sorting by
    -- descending length gives, each list in the order of registration, and then the routed handler.
    pub serve_http-chain :
        (s : ServerEngine S) (w : Response) (r : Request) (st : S)
        → serve_http lib order sorted s w r st
          ≡ and_then
              (chain
                (s.mdls ++ mdls_of (backwards (sorted (middle_group r.path s.groups))))
                (serve lib order s)
                (new_context w r st))
              flash_resp
    unfolding serve_http
    serve_http-chain s w r st =
        let gs = sorted (middle_group r.path s.groups) in
        ap (λ (h : HandleFunc S). and_then (h (new_context w r st)) flash_resp)
          (wrap-chain s.mdls (wrap_groups gs (serve lib order s))
            ∙ ap (chain s.mdls) (wrap_groups-chain gs (serve lib order s))
            ∙ sym (chain-append s.mdls (mdls_of (backwards gs)) (serve lib order s)))
