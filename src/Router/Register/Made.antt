-- ===== src/Router/Register/Made.antt =====
-- The children that `ChildOrCreate` (web/router.go) returns have the shape of their place, and it
-- follows no nil pointer.
use go_web.Prelude.{
  ℕ, arith, Option, none, some, [], ◌∷◌, ◌++◌, ◌≡◌, ◌≢◌, refl, sym, ap, subst, maybe_case, ite_case,
  ◌∙◌, get, ℕ_discrete,
}
use go_web.Strings.{Bytes, Bytes-discrete}
use go_web.Router.Node.{
  Node, NodeFields, NodeType, static, regexp, param, star, load, new_node, Place, at_static,
  at_regexp, at_param, at_star, child_at,
}
use go_web.Router.Register.{
  Result, Panic, nil_pointer, out_of_range, ok, panic, ◌>>=◌, RegexpLib, parse_param,
  child_or_create, child_or_create_static, child_or_create_star, child_or_create_param,
  child_or_create_reg, check_reg, for_param,
}
use go_web.Router.Register.Insert.{IsBare}
use go_web.Router.Register.Shape.{Named, IsWell, found_child, IsWell-IsBare}

-- A panic of the package itself, or of a malformed expression, and not of Go's runtime.
abbrev pub IsSafe : Panic → Type 0
IsSafe e = (e ≢ nil_pointer) × (e ≢ out_of_range)

unfoldable pub SafeResult : {A : Type 0} → Result A → Type 0
SafeResult (ok a) = Unit
SafeResult (panic e) = IsSafe e

parse_param-SafeResult :
    (lib : RegexpLib) (c : ℕ) (name : Bytes) → SafeResult (parse_param lib (c ∷ name))
unfolding parse_param SafeResult
parse_param-SafeResult lib c name = ground (arith)

module _ (lib : RegexpLib) {H : Type 0} where
  -- A child that `ChildOrCreate` returns for a segment.
  abbrev pub Made : Bytes → Bytes → Place → NodeFields H → Type 0
  Made r seg p c = Named lib p c × (c.path ≡ seg) × IsWell lib (r ++ (b'/' ∷ seg)) c

  abbrev pub Makes : Bytes → Bytes → Result (Place × NodeFields H) → Type 0
  Makes r seg (ok (p, c)) = Made r seg p c
  Makes r seg (panic e) = IsSafe e

  Made-found :
      (r seg : Bytes) (n : NodeFields H) (p : Place) (c : Node H)
      → IsWell lib r n
      → child_at n p ≡ some c
      → (Named lib p (load c) → (load c).path ≡ seg)
      → Made r seg p (load c)
  Made-found r seg n p c h e same =
      let ((named, _, routed), well) = found_child lib r n p c h e in
      let path = same named in
      (
        named,
        path,
        subst (λ x. IsWell lib x (load c)) (routed ∙ ap (λ x. r ++ (b'/' ∷ x)) path) well,
      )

  -- A new node with nothing in it.
  IsBare-new :
      (t : NodeType) (seg name : Bytes) (e : Option Bytes)
      → IsBare {H = H} (record (new_node t seg) { param_name = name; reg_expr = e })
  unfolding new_node
  IsBare-new t seg name e = record {
    handlefunc = refl;
    children = refl;
    regexp_child = refl;
    param_child = refl;
    star_child = refl;
  }

  child_or_create_static-Makes :
      (r seg : Bytes) (n : NodeFields H)
      → IsWell lib r n
      → Makes r seg (ok (child_or_create_static n seg))
  unfolding child_or_create_static child_at new_node
  child_or_create_static-Makes r seg n h =
      maybe_case (Made r seg (at_static seg)) (get Bytes-discrete seg n.children)
        (λ _. ((refl, refl), refl, IsWell-IsBare lib _ _ (IsBare-new static seg [] none)))
        (λ c e. Made-found r seg n (at_static seg) c h e (λ named. named.1))

  child_or_create_star-Makes :
      (r : Bytes) (n : NodeFields H)
      → IsWell lib r n
      → Makes r (b'*' ∷ []) (ok (child_or_create_star n))
  unfolding child_or_create_star child_at new_node
  child_or_create_star-Makes r n h =
      maybe_case (Made r (b'*' ∷ []) at_star) n.star_child
        (λ _. ((refl, refl), refl, IsWell-IsBare lib _ _ (IsBare-new star (b'*' ∷ []) [] none)))
        (λ c e. Made-found r (b'*' ∷ []) n at_star c h e (λ named. named.1))

  child_or_create_param-Makes :
      (r seg name : Bytes) (n : NodeFields H)
      → IsWell lib r n
      → parse_param lib seg ≡ ok (name, none)
      → Makes r seg (child_or_create_param n seg name)
  unfolding child_or_create_param child_at new_node
  child_or_create_param-Makes r seg name n h parsed =
      maybe_case (Makes r seg) n.param_child
        (λ _. ((refl, parsed), refl, IsWell-IsBare lib _ _ (IsBare-new param seg name none)))
        (λ c e.
          ite_case (Makes r seg) (Bytes-discrete (load c).path seg)
            (λ path. Made-found r seg n at_param c h e (λ _. path)) (λ _. ((λ x. cc), (λ x. cc))))

  check_reg-Makes :
      (r seg expr : Bytes) (n : NodeFields H) (c : Node H)
      → IsWell lib r n
      → child_at n (at_regexp expr) ≡ some c
      → Makes r seg (check_reg (load c) seg expr)
  unfolding check_reg
  check_reg-Makes r seg expr n c h e =
      let named = (found_child lib r n (at_regexp expr) c h e).0.0 in
      ite_case (Makes r seg) (Bytes-discrete (load c).path seg)
        (λ path.
          maybe_case (Makes r seg) (load c).reg_expr (λ none_there. cc)
            (λ x _.
              ite_case (Makes r seg) (Bytes-discrete x expr)
                (λ same. Made-found r seg n (at_regexp expr) c h e (λ _. path))
                (λ _. ((λ y. cc), (λ y. cc)))))
        (λ _. ((λ y. cc), (λ y. cc)))

  child_or_create_reg-Makes :
      (r seg expr name : Bytes) (n : NodeFields H)
      → IsWell lib r n
      → parse_param lib seg ≡ ok (name, some expr)
      → Makes r seg (child_or_create_reg n seg expr name)
  unfolding child_or_create_reg child_at new_node
  child_or_create_reg-Makes r seg expr name n h parsed =
      maybe_case (Makes r seg) (get Bytes-discrete expr n.regexp_child)
        (λ _. (
          (refl, refl, parsed),
          refl,
          IsWell-IsBare lib _ _ (IsBare-new regexp seg name (some expr)),
        ))
        (λ c e. check_reg-Makes r seg expr n c h e)

  for_param-Makes :
      (r seg : Bytes) (n : NodeFields H) (found : Result (Bytes × Option Bytes))
      → IsWell lib r n
      → parse_param lib seg ≡ found
      → SafeResult found
      → Makes r seg (do f ← found; for_param n seg f)
  unfolding SafeResult
  for_param-Makes r seg n (panic e) h parsed safe = safe
  for_param-Makes r seg n (ok (name, none)) h parsed safe =
      child_or_create_param-Makes r seg name n h parsed
  for_param-Makes r seg n (ok (name, some expr)) h parsed safe =
      child_or_create_reg-Makes r seg expr name n h parsed

  pub child_or_create-Makes :
      (r : Bytes) (n : NodeFields H) (c : ℕ) (s : Bytes)
      → IsWell lib r n
      → Makes r (c ∷ s) (child_or_create lib n (c ∷ s))
  unfolding child_or_create
  child_or_create-Makes r n c s h =
      ite_case (Makes r (c ∷ s)) (ℕ_discrete c b':')
        (λ _.
          for_param-Makes r (c ∷ s) n (parse_param lib (c ∷ s)) h refl
            (parse_param-SafeResult lib c s))
        (λ _.
          ite_case (Makes r (c ∷ s)) (Bytes-discrete (c ∷ s) (b'*' ∷ []))
            (λ e.
              subst (λ seg. Makes r seg (ok (child_or_create_star n))) (sym e)
                (child_or_create_star-Makes r n h))
            (λ _. child_or_create_static-Makes r (c ∷ s) n h))
