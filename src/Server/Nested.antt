-- ===== src/Server/Nested.antt =====
-- The order in which the middlewares of groups run (web/server.go, web/group.go): a group's run
-- around those of the groups nested in it.
use mathlib.Core.List.Permᴰ
use mathlib.Core.List.{Permᴰ}
use go_web.Prelude.{
  ◌≤◌, true, List, [], ◌∷◌, ◌++◌, ◌≡◌, refl, subst, All, backwards, length, arith, Bool-cases, inl,
  inr,
}
use go_web.Strings.{Bytes, has_prefix}
use go_web.Http.{Request, Response, HandleFunc, new_context, and_then, flash_resp}
use go_web.Router.Node.{Node}
use go_web.Router.Register.{RegexpLib}
use go_web.Server.{Group, ServerEngine, middle_group, serve, serve_http}
use go_web.Server.Chain.{chain, mdls_of, serve_http-chain}

-- Of two prefixes of a path, the shorter is a prefix of the longer.
has_prefix_shorter :
    (path p q : Bytes)
    → has_prefix path p ≡ true
    → has_prefix path q ≡ true
    → length p ≤ length q
    → has_prefix q p ≡ true
unfolding has_prefix
has_prefix_shorter path [] q hp hq le = refl
has_prefix_shorter [] (c ∷ p) q hp hq le = cc
has_prefix_shorter (b ∷ path) (c ∷ p) [] hp hq le = absurd (omega (arith, le))
has_prefix_shorter (b ∷ path) (c ∷ p) (d ∷ q) hp hq le = ground (arith, has_prefix_shorter path p q)

pub All-Perm : {A : Type 0} (P : A → Type 0) {xs ys : List A} → Permᴰ xs ys → All P xs → All P ys
All-Perm P Permᴰ.nil h = tt
All-Perm P (Permᴰ.cons e d) (h, hs) = (subst P e h, All-Perm P d hs)
All-Perm P (Permᴰ.swap e₁ e₂) h = (subst P e₂ h.1.0, (subst P e₁ h.0, h.1.1))
All-Perm P (Permᴰ.trans d₁ d₂) h = All-Perm P d₂ (All-Perm P d₁ h)

All-append : {A : Type 0} (P : A → Type 0) (xs ys : List A) → All P xs → All P ys → All P (xs ++ ys)
All-append P [] ys h k = k
All-append P (x ∷ xs) ys h k = (h.0, All-append P xs ys h.1 k)

All-backwards : {A : Type 0} (P : A → Type 0) (xs : List A) → All P xs → All P (backwards xs)
All-backwards P [] h = tt
All-backwards P (x ∷ xs) h = All-append P (backwards xs) (x ∷ []) (All-backwards P xs h.1) (h.0, tt)

pub backwards-Perm : {A : Type 0} (xs : List A) → Permᴰ (backwards xs) xs
backwards-Perm [] = Permᴰ.nil
backwards-Perm (x ∷ xs) =
    Permᴰ.trans (Permᴰ.append_comm (backwards xs) (x ∷ [])) (Permᴰ.cons refl (backwards-Perm xs))

module _ {S : Type 0} where
  -- No group has a longer prefix than one before it.
  abbrev pub Descending : List (Group S) → Type 0
  Descending [] = Unit
  Descending (g ∷ gs) = All (λ h. length h.prefix ≤ length g.prefix) gs × Descending gs

  -- Each group has the prefixes of all those before it as prefixes of its own.
  abbrev pub Nested : List (Group S) → Type 0
  Nested [] = Unit
  Nested (g ∷ gs) = All (λ h. has_prefix h.prefix g.prefix ≡ true) gs × Nested gs

  abbrev Matches : Bytes → Group S → Type 0
  Matches path g = has_prefix path g.prefix ≡ true

  middle_group-All :
      (path : Bytes) (gs : List (Group S)) → All (Matches path) (middle_group path gs)
  unfolding middle_group
  middle_group-All path [] = tt
  middle_group-All path (g ∷ gs) = elim (Bool-cases (has_prefix path g.prefix)) [
    | inl t ↦ rw t (t, middle_group-All path gs)
    | inr f ↦ rw f (middle_group-All path gs)
  ]

  Nested-append :
      (gs : List (Group S)) (g : Group S)
      → Nested gs
      → All (λ h. has_prefix g.prefix h.prefix ≡ true) gs
      → Nested (gs ++ g ∷ [])
  Nested-append [] g h k = (tt, tt)
  Nested-append (x ∷ gs) g h k = (
    All-append (λ y. has_prefix y.prefix x.prefix ≡ true) gs (g ∷ []) h.0 (k.0, tt),
    Nested-append gs g h.1 k.1,
  )

  shorter_prefixes :
      (path : Bytes) (g : Group S) (gs : List (Group S))
      → Matches path g
      → All (Matches path) gs
      → All (λ h. length h.prefix ≤ length g.prefix) gs
      → All (λ h. has_prefix g.prefix h.prefix ≡ true) gs
  shorter_prefixes path g [] m ms le = tt
  shorter_prefixes path g (h ∷ gs) m ms le = (
    has_prefix_shorter path h.prefix g.prefix ms.0 m le.0,
    shorter_prefixes path g gs m ms.1 le.1,
  )

  backwards-Nested :
      (path : Bytes) (gs : List (Group S))
      → All (Matches path) gs
      → Descending gs
      → Nested (backwards gs)
  backwards-Nested path [] m d = tt
  backwards-Nested path (g ∷ gs) m d =
      Nested-append (backwards gs) g (backwards-Nested path gs m.1 d.1) (
        All-backwards (λ h. has_prefix g.prefix h.prefix ≡ true) gs
          (shorter_prefixes path g gs m.0 m.1 d.0))

  module _ (lib : RegexpLib) (order : Node (HandleFunc S) → List (Bytes × Node (HandleFunc S)))
      (sorted : List (Group S) → List (Group S)) where
    -- If sort.Slice permutes the groups and puts longer prefixes first, then ServeHTTP runs the
    -- middlewares of the engine, and then those of the groups whose prefix the path has, each once,
    -- the groups in an order in which each has the prefixes of those before it.
    pub serve_http-Nested :
        ((gs : List (Group S)) → Permᴰ (sorted gs) gs)
        → ((gs : List (Group S)) → Descending (sorted gs))
        → (s : ServerEngine S) (w : Response) (r : Request) (st : S)
        → (gs : List (Group S)) × Permᴰ gs (middle_group r.path s.groups)
          × Nested gs
          × (serve_http lib order sorted s w r st
              ≡ and_then
                  (chain (s.mdls ++ mdls_of gs) (serve lib order s) (new_context w r st))
                  flash_resp)
    serve_http-Nested perm descending s w r st =
        let matched = middle_group r.path s.groups in
        (
          backwards (sorted matched),
          Permᴰ.trans (backwards-Perm (sorted matched)) (perm matched),
          backwards-Nested r.path (sorted matched)
              (All-Perm (Matches r.path) (Permᴰ.symm (perm matched))
                (middle_group-All r.path s.groups))
              (descending matched),
          serve_http-chain lib order sorted s w r st,
        )
