-- ===== src/Router/RoundTrip.antt =====
-- A static route that `Route` has registered is the one that `findRouter` returns for its own path
-- (web/router.go).
use mathlib.Core.List.{tail}
use mathlib.Core.Logic.{if_neg}
use go_web.Prelude.{
  ℕ, false, Option, some, List, [], ◌∷◌, ◌++◌, ◌≡◌, ◌≢◌, refl, sym, ap, subst, map, All,
  maybe-eq-some, ◌∙◌, get, get-put_self, arith, append_assoc,
}
use go_web.Strings.{Bytes, Bytes-discrete, split, trim, join, first_is, last_is}
use go_web.Strings.Split.{split-ne-nil, join-split}
use go_web.Strings.Trim.{trim_clean}
use go_web.Router.Node.{Node, NodeFields, load, store, load-store, Place, at_static, child_at}
use go_web.Router.Register.{
  Result, ok, panic, RegexpLib, insert, Router, root_of, set_root, check_pattern, after_guards,
  register, route,
}
use go_web.Router.Register.Handlers.{place_of, places_of}
use go_web.Router.Register.Reached.{node_at, routed, Reached, insert-Reached}
use go_web.Router.Search.{Params, back_search, find_router, try_static}

-- A segment that is neither a parameter, nor a regular expression, nor `*`.
abbrev pub IsStatic : Bytes → Type 0
IsStatic [] = ⊥
IsStatic (c ∷ s) = (c ≢ b':') × ((c ∷ s) ≢ (b'*' ∷ []))

place_of_static :
    (lib : RegexpLib) (seg : Bytes) → IsStatic seg → place_of lib seg ≡ ok (at_static seg)
unfolding place_of
place_of_static lib [] h = absurd h
place_of_static lib (c ∷ s) (colon, star) = rw (if_neg _ colon) (rw (if_neg _ star) refl)

places_of_static :
    (lib : RegexpLib) (segs : List Bytes)
    → All IsStatic segs
    → places_of lib segs ≡ ok (map at_static segs)
unfolding places_of
places_of_static lib [] h = refl
places_of_static lib (seg ∷ segs) (h, hs) =
    rw (place_of_static lib seg h, places_of_static lib segs hs)

module _ {H : Type 0} (lib : RegexpLib) (order : Node H → List (Bytes × Node H)) where
  -- A static path is searched with no detour.
  back_search_static :
      (segs : List Bytes) (n : Node H) (m : NodeFields H) (mi : Params)
      → node_at (load n) (map at_static segs) ≡ some m
      → (c : Node H) × (back_search lib order segs n mi ≡ (some c, mi)) × (load c ≡ m)
  unfolding back_search node_at child_at try_static
  back_search_static [] n m mi e = (n, refl, cc)
  back_search_static (seg ∷ segs) n m mi e =
      let (c, there, below) =
        maybe-eq-some (λ (c : Node H). node_at (load c) (map at_static segs))
          (get Bytes-discrete seg (load n).children) e in
      let (d, found, same) = back_search_static segs c m mi below in
      (d, rw there (rw found refl), same)

-- What the guards of `Route` let through: a pattern that begins with `/`, and does not end with
-- one unless it is `/`.
pub check_pattern_ok :
    (pattern : Bytes)
    → check_pattern pattern ≡ ok tt
    → pattern ≢ (b'/' ∷ [])
    → (s : Bytes) × (pattern ≡ (b'/' ∷ s)) × (last_is b'/' (b'/' ∷ s) ≡ false)
check_pattern_ok [] e ne = cc
check_pattern_ok (c ∷ s) e ne = (s, ground (arith, e), ground (arith, e))

-- A path of static segments does not begin with a slash.
first_of_static :
    (s : Bytes)
    → All IsStatic (split b'/' s)
    → (b : ℕ) × (t : Bytes) × (s ≡ b ∷ t) × (first_is b'/' (b ∷ t) ≡ false)
unfolding split
first_of_static [] h = absurd h.0
first_of_static (b ∷ t) h = (b, t, refl, ground arith)

-- The route that registration builds up is the joined path.
routed-join :
    (r seg : Bytes) (segs : List Bytes)
    → routed r (seg ∷ segs) ≡ r ++ (b'/' ∷ join b'/' (seg ∷ segs))
unfolding join
routed-join r seg [] = refl
routed-join r seg (t ∷ segs) =
    routed-join (r ++ (b'/' ∷ seg)) t segs
    ∙ append_assoc r (b'/' ∷ seg) (b'/' ∷ join b'/' (t ∷ segs))

pub routed-split : (s : Bytes) → routed [] (split b'/' s) ≡ b'/' ∷ s
routed-split s = go (split b'/' s) (split-ne-nil b'/' s) (join-split b'/' s)
  where
    go : (ss : List Bytes) → ss ≢ [] → join b'/' ss ≡ s → routed [] ss ≡ b'/' ∷ s
    go [] ne e = absurd (ne refl)
    go (t ∷ ts) ne e = routed-join [] t ts ∙ ap (◌∷◌ b'/') e

module _ {H : Type 0} where
  pub after_guards_ok :
      (ro ro' : Router H) (checked : Result (Unit {0})) (next : Router H × Result (Unit {0}))
      → after_guards ro checked next ≡ (ro', ok tt)
      → (checked ≡ ok tt) × (next ≡ (ro', ok tt))
  after_guards_ok ro ro' (ok _) next e = (refl, e)
  after_guards_ok ro ro' (panic p) next e = cc

  -- The node that a registration has reached, in the tree that the router now holds.
  pub tree_of_route :
      (ro ro' : Router H) (method : Bytes) (places : Result (List Place)) (h : Option H) (r : Bytes)
      (ps : List Place) (out : NodeFields H × Result (Unit {0}))
      → Reached places h r out
      → places ≡ ok ps
      → set_root ro method out ≡ (ro', ok tt)
      → (root m : NodeFields H) × (get Bytes-discrete method ro'.trees ≡ some (store root))
        × (node_at root ps ≡ some m)
        × (m.handlefunc ≡ h)
        × (m.route ≡ r)
  tree_of_route ro ro' method places h r ps (n', ok _) (qs, m, e, at, set, has_route) e' same = (
    n',
    m,
    subst (λ (x : Router H). get Bytes-discrete method x.trees ≡ some (store n')) (cc)
        (get-put_self Bytes-discrete method (store n') ro.trees),
    subst (λ x. node_at n' x ≡ some m) (cc) at,
    set,
    has_route,
  )
  tree_of_route ro ro' method places h r ps (n', panic p) reached e' same = cc

module _ {H : Type 0} (lib : RegexpLib) (order : Node H → List (Bytes × Node H)) where
  find_static :
      (ro : Router H) (method s : Bytes) (root m : NodeFields H)
      → get Bytes-discrete method ro.trees ≡ some (store root)
      → All IsStatic (split b'/' s)
      → last_is b'/' (b'/' ∷ s) ≡ false
      → (b'/' ∷ s) ≢ (b'/' ∷ [])
      → node_at root (map at_static (split b'/' s)) ≡ some m
      → (c : Node H) × (find_router lib order ro method (b'/' ∷ s) ≡ some (c, [])) × (load c ≡ m)
  unfolding find_router
  find_static ro method s root m tree statics last ne at =
      let (b, t, e, first) = first_of_static s statics in
      let trimmed : trim b'/' (b'/' ∷ s) ≡ s =
        subst (λ x. last_is b'/' (b'/' ∷ x) ≡ false → trim b'/' (b'/' ∷ x) ≡ x) (sym e)
          (trim_clean b'/' b t first) last in
      let (c, found, same) = back_search_static lib order (split b'/' s) (store root) m [] (
        subst (λ x. node_at x (map at_static (split b'/' s)) ≡ some m) (sym (load-store root))
          at) in
      (c, rw tree (rw (if_neg _ ne) (rw trimmed (rw found refl))), same)

  -- A pattern of static segments that `Route` has accepted is found under its own path: the handler
  -- and the route of the node are those registered, and there are no parameters.
  pub find_router-route :
      (ro ro' : Router H) (method pattern : Bytes) (h : H)
      → pattern ≢ (b'/' ∷ [])
      → All IsStatic (split b'/' (tail pattern))
      → route lib ro method pattern (some h) ≡ (ro', ok tt)
      → (c : Node H) × (find_router lib order ro' method pattern ≡ some (c, []))
        × ((load c).handlefunc ≡ some h)
        × ((load c).route ≡ pattern)
  unfolding route register
  find_router-route ro ro' method pattern h ne statics e =
      let (checked, done) = after_guards_ok ro ro' (check_pattern pattern) _ e in
      let (s, same, last) = check_pattern_ok pattern checked ne in
      let segs = split b'/' (tail pattern) in
      let (root, m, tree, at, set, has_route) =
        tree_of_route ro ro' method (places_of lib segs) (some h) (routed [] segs)
          (map at_static segs) (insert lib segs [] (some h) (root_of ro method))
          (insert-Reached lib segs [] (some h) (root_of ro method)
            (λ nil. absurd (split-ne-nil b'/' (tail pattern) nil)))
          (places_of_static lib segs statics)
          (subst (λ x. set_root ro method x ≡ (ro', ok tt))
            (if_neg (Bytes-discrete pattern (b'/' ∷ [])) ne _ _) done) in
      let (c, found, is_m) =
        find_static ro' method (tail pattern) root m tree statics
          (subst (λ p. last_is b'/' (b'/' ∷ tail p) ≡ false) (sym same) last)
          (λ e'. ne (same ∙ subst (λ p. (b'/' ∷ tail p) ≡ (b'/' ∷ [])) same e')) at in
      (
        c,
        subst (λ p. find_router lib order ro' method p ≡ some (c, []))
            (subst (λ p. (b'/' ∷ tail p) ≡ p) (sym same) refl) found,
        ap (λ (x : NodeFields H). x.handlefunc) is_m ∙ set,
        ap (λ (x : NodeFields H). x.route) is_m
            ∙ has_route
            ∙ routed-split (tail pattern)
            ∙ subst (λ p. (b'/' ∷ tail p) ≡ p) (sym same) refl,
      )
