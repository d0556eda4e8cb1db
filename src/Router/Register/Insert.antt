-- ===== src/Router/Register/Insert.antt =====
-- `ChildOrCreate` and the loop of `Route` (web/router.go) as updates of the map from places to
-- handlers.
use go_web.Prelude.{
  Option, none, some, List, [], ◌∷◌, ◌≡◌, refl, sym, ap, get, maybe, ◌∙◌, ℕ_discrete, maybe_case,
  ite_case, ite_related,
}
use go_web.Strings.{Bytes, Bytes-discrete}
use go_web.Router.Node.{
  Node, NodeType, NodeFields, static, param, regexp, star, load, new_node, Place, at_static,
  at_regexp, at_param, at_star, child_at,
}
use go_web.Router.Register.{
  Result, ok, panic, ◌>>=◌, RegexpLib, parse_param, check_reg, for_param, child_or_create_reg,
  child_or_create_param, child_or_create_star, child_or_create_static, child_or_create,
}
use go_web.Router.Register.Handlers.{place_for, place_of, handler_at, IsChild, IsChild-found}

module _ {H : Type 0} where
  -- Nothing hangs in a node.
  pub record IsBare (f : NodeFields H) : Type 0 where
    pub handlefunc : f.handlefunc ≡ none
    pub children : f.children ≡ []
    pub regexp_child : f.regexp_child ≡ []
    pub param_child : f.param_child ≡ none
    pub star_child : f.star_child ≡ none

  pub child_at_bare : (f : NodeFields H) → IsBare f → (p : Place) → child_at f p ≡ none
  unfolding child_at get
  child_at_bare f b (at_static k) = rw b.children refl
  child_at_bare f b (at_regexp e) = rw b.regexp_child refl
  child_at_bare f b at_param = b.param_child
  child_at_bare f b at_star = b.star_child

  handler_at_bare : (f : NodeFields H) → IsBare f → (qs : List Place) → handler_at f qs ≡ none
  unfolding handler_at
  handler_at_bare f b [] = b.handlefunc
  handler_at_bare f b (p ∷ qs) = rw (child_at_bare f b p) refl

  bare : (t : NodeType) (path name : Bytes) (e : Option Bytes) → NodeFields H
  unfolding new_node
  bare t path name e = record (new_node t path) { param_name = name; reg_expr = e }

  -- A new node in a place where none hangs is its child.
  IsChild-bare :
      (n : NodeFields H) (p : Place) (t : NodeType) (path name : Bytes) (e : Option Bytes)
      → child_at n p ≡ none
      → IsChild n p (bare t path name e)
  unfolding handler_at bare
  IsChild-bare n p t path name e none_there qs =
      handler_at_bare (bare t path name e)
        (record {
          handlefunc = refl;
          children = refl;
          regexp_child = refl;
          param_child = refl;
          star_child = refl;
        })
        qs
      ∙ sym (ap (maybe none (λ c. handler_at (load c) qs)) none_there)

  -- What `ChildOrCreate` returns, unless it panics: a place, and the child in it.
  abbrev pub InPlace : NodeFields H → Result Place → Result (Place × NodeFields H) → Type 0
  InPlace n place (ok (p, c)) = (place ≡ ok p) × IsChild n p c
  InPlace n place (panic e) = Unit

  child_or_create_static-InPlace :
      (n : NodeFields H) (k : Bytes)
      → InPlace n (ok (at_static k)) (ok (child_or_create_static n k))
  unfolding child_or_create_static bare child_at
  child_or_create_static-InPlace n k = (
    refl,
    maybe_case (IsChild n (at_static k)) (get Bytes-discrete k n.children)
        (λ e. IsChild-bare n (at_static k) static k [] none e)
        (λ c e. IsChild-found n (at_static k) c e),
  )

  child_or_create_star-InPlace :
      (n : NodeFields H) → InPlace n (ok at_star) (ok (child_or_create_star n))
  unfolding child_or_create_star bare child_at
  child_or_create_star-InPlace n = (
    refl,
    maybe_case (IsChild n at_star) n.star_child
        (λ e. IsChild-bare n at_star star (b'*' ∷ []) [] none e)
        (λ c e. IsChild-found n at_star c e),
  )

  child_or_create_param-InPlace :
      (n : NodeFields H) (pattern name : Bytes)
      → InPlace n (ok at_param) (child_or_create_param n pattern name)
  unfolding child_or_create_param bare child_at
  child_or_create_param-InPlace n pattern name =
      maybe_case (InPlace n (ok at_param)) n.param_child
        (λ e. (refl, IsChild-bare n at_param param pattern name none e))
        (λ c e.
          ite_case (InPlace n (ok at_param)) (Bytes-discrete (load c).path pattern)
            (λ _. (refl, IsChild-found n at_param c e)) (λ _. tt))

  check_reg-InPlace :
      (n : NodeFields H) (c : Node H) (pattern expr : Bytes)
      → child_at n (at_regexp expr) ≡ some c
      → InPlace n (ok (at_regexp expr)) (check_reg (load c) pattern expr)
  unfolding check_reg
  check_reg-InPlace n c pattern expr e =
      ite_case (InPlace n (ok (at_regexp expr))) (Bytes-discrete (load c).path pattern)
        (λ _.
          maybe_case (InPlace n (ok (at_regexp expr))) (load c).reg_expr (λ _. tt)
            (λ x _.
              ite_case (InPlace n (ok (at_regexp expr))) (Bytes-discrete x expr)
                (λ _. (refl, IsChild-found n (at_regexp expr) c e)) (λ _. tt)))
        (λ _. tt)

  child_or_create_reg-InPlace :
      (n : NodeFields H) (pattern expr name : Bytes)
      → InPlace n (ok (at_regexp expr)) (child_or_create_reg n pattern expr name)
  unfolding child_or_create_reg bare child_at
  child_or_create_reg-InPlace n pattern expr name =
      maybe_case (InPlace n (ok (at_regexp expr))) (get Bytes-discrete expr n.regexp_child)
        (λ e. (refl, IsChild-bare n (at_regexp expr) regexp pattern name (some expr) e))
        (λ c e. check_reg-InPlace n c pattern expr e)

  for_param-InPlace :
      (n : NodeFields H) (pattern : Bytes) (found : Result (Bytes × Option Bytes))
      → InPlace n (do f ← found; ok (place_for f)) (do f ← found; for_param n pattern f)
  for_param-InPlace n pattern (panic e) = tt
  for_param-InPlace n pattern (ok (name, none)) = child_or_create_param-InPlace n pattern name
  for_param-InPlace n pattern (ok (name, some expr)) =
      child_or_create_reg-InPlace n pattern expr name

  -- `ChildOrCreate` returns the place of the segment and the child there, old or new.
  pub child_or_create-InPlace :
      (lib : RegexpLib) (n : NodeFields H) (seg : Bytes)
      → InPlace n (place_of lib seg) (child_or_create lib n seg)
  unfolding child_or_create place_of
  child_or_create-InPlace lib n [] = tt
  child_or_create-InPlace lib n (c ∷ s) =
      ite_related (InPlace n) (ℕ_discrete c b':')
        (λ _. for_param-InPlace n (c ∷ s) (parse_param lib (c ∷ s)))
        (λ _.
          ite_related (InPlace n) (Bytes-discrete (c ∷ s) (b'*' ∷ []))
            (λ _. child_or_create_star-InPlace n) (λ _. child_or_create_static-InPlace n (c ∷ s)))
