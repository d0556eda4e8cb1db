-- ===== src/Server/Grouped.antt =====
-- A route that a group has registered, from the request to the handler (web/group.go on
-- web/server.go).
mod Tests
use mathlib.Core.List.Memᴰ
use mathlib.Core.List.Permᴰ
use mathlib.Core.List.{Memᴰ, Permᴰ, tail}
use go_web.Prelude.{
  true, some, List, [], ◌∷◌, ◌++◌, ◌≡◌, ◌≢◌, refl, sym, ap, ◌∙◌, subst, All, backwards, Mem_of_Perm,
  arith, Bool-cases, inl, inr,
}
use go_web.Strings.{Bytes, has_prefix, split}
use go_web.Http.{
  Context, Request, Response, returned, HandleFunc, new_context, and_then, flash_resp,
}
use go_web.Router.Node.{Node}
use go_web.Router.Register.{RegexpLib, Result, ok}
use go_web.Router.RoundTrip.{IsStatic}
use go_web.Server.{Group, ServerEngine, middle_group, group_route, server_route, serve, serve_http}
use go_web.Server.Chain.{chain, mdls_of, serve_http-chain}
use go_web.Server.Nested.{backwards-Perm}
use go_web.Server.Served.{serve-server_route}

has_prefix-append : (p q : Bytes) → has_prefix (p ++ q) p ≡ true
unfolding has_prefix
has_prefix-append [] q = refl
has_prefix-append (c ∷ p) q = ground (arith, has_prefix-append p q)

module _ {S : Type 0} where
  Mem-middle_group :
      (path : Bytes) (gs : List (Group S)) (g : Group S)
      → Memᴰ g gs
      → has_prefix path g.prefix ≡ true
      → Memᴰ g (middle_group path gs)
  unfolding middle_group
  Mem-middle_group path [] g m h = elim m [ ]
  Mem-middle_group path (x ∷ gs) g (Memᴰ.head q) h =
      let t : has_prefix path x.prefix ≡ true =
        subst (λ (y : Group S). has_prefix path y.prefix ≡ true) q h in
      rw t (Memᴰ.head q)
  Mem-middle_group path (x ∷ gs) g (Memᴰ.tail m) h =
      let later = Mem-middle_group path gs g m h in
      elim (Bool-cases (has_prefix path x.prefix)) [
        | inl t ↦ rw t (Memᴰ.tail later)
        | inr f ↦ rw f later
      ]

  module _ (lib : RegexpLib) (order : Node (HandleFunc S) → List (Bytes × Node (HandleFunc S)))
      (sorted : List (Group S) → List (Group S)) where
    group_route-groups :
        (s s' : ServerEngine S) (g : Group S) (method pattern : Bytes) (h : HandleFunc S)
        → group_route lib s g method pattern (some h) ≡ (s', ok tt)
        → s'.groups ≡ s.groups
    unfolding group_route server_route
    group_route-groups s s' g method pattern h e =
        ap (λ (x : ServerEngine S × Result (Unit {0})). x.0.groups) (sym e)

    -- If sort.Slice permutes the groups then, once a group of the engine has accepted a handler for a
    -- pattern that with its prefix is of static segments and not `/`, ServeHTTP runs for a request of
    -- that method and path the middlewares of the engine, then those of groups among which is the
    -- group, and what these are wrapped around runs the handler, with no path parameters and the
    -- prefix with the pattern as the matched route.
    pub serve_http-group_route :
        ((gs : List (Group S)) → Permᴰ (sorted gs) gs)
        → (s s' : ServerEngine S) (g : Group S) (method pattern : Bytes) (h : HandleFunc S)
          (w : Response) (r : Request) (st : S)
        → Memᴰ g s.groups
        → (g.prefix ++ pattern) ≢ (b'/' ∷ [])
        → All IsStatic (split b'/' (tail (g.prefix ++ pattern)))
        → group_route lib s g method pattern (some h) ≡ (s', ok tt)
        → r.method ≡ method
        → r.path ≡ g.prefix ++ pattern
        → (gs : List (Group S)) × (root : HandleFunc S) × Memᴰ g gs
          × (serve_http lib order sorted s' w r st
              ≡ and_then (chain (s'.mdls ++ mdls_of gs) root (new_context w r st)) flash_resp)
          × ((c : Context S)
              → c.r ≡ r
              → root c ≡ h (record c { path_params = []; match_route = g.prefix ++ pattern }))
    unfolding group_route
    serve_http-group_route perm s s' g method pattern h w r st m ne statics e is_method is_path =
        let matched = middle_group r.path s'.groups in
        let there =
          subst (λ gs. Memᴰ g gs) (sym (group_route-groups s s' g method pattern h e)) m in
        let fits : has_prefix r.path g.prefix ≡ true =
          subst (λ x. has_prefix x g.prefix ≡ true) (sym is_path)
            (has_prefix-append g.prefix pattern) in
        (
          backwards (sorted matched),
          serve lib order s',
          Mem_of_Perm (Permᴰ.symm (Permᴰ.trans (backwards-Perm (sorted matched)) (perm matched)))
              (Mem-middle_group r.path s'.groups g there fits),
          serve_http-chain lib order sorted s' w r st,
          λ c same.
              serve-server_route lib order s s' method (g.prefix ++ pattern) h c ne statics e
                (ap (λ (x : Request). x.method) same ∙ is_method)
                (ap (λ (x : Request). x.path) same ∙ is_path),
        )
