-- ===== src/Router/Register/Routes.antt =====
-- `Route` (web/router.go) on the whole router, read as the map from methods and places to handlers.
use mathlib.Core.List.{tail}
use mathlib.Core.Logic.{ite}
use go_web.Prelude.{
  Option, none, some, List, [], ◌∷◌, ◌≡◌, ◌≢◌, refl, sym, ap, subst, maybe, maybe_case, ◌∙◌, get,
  put, get-put_self, get-put_ne, ite_case, ite_related, maybe_related_at,
}
use go_web.Strings.{Bytes, Bytes-discrete, split}
use go_web.Router.Node.{
  Node, NodeFields, load, store, load-store, Place, child_at, at_static, at_regexp, at_param,
  at_star,
}
use go_web.Router.Register.{
  Panic, Result, ok, panic, RegexpLib, Router, root_of, set_root, new_root, check_pattern, route,
  register, after_guards,
}
use go_web.Router.Register.Handlers.{places_of, Places-discrete, handler_at}
use go_web.Router.Register.Updates.{Effect, insert-Effect, Sets-here}

-- The places of a pattern that passes the guards of `Route`.
unfoldable pub pattern_places : RegexpLib → Bytes → Result (List Place)
pattern_places lib pattern =
    ite (Bytes-discrete pattern (b'/' ∷ [])) (ok []) (places_of lib (split b'/' (tail pattern)))

module _ {H : Type 0} where
  -- The handler that is registered for a method at a list of places.
  unfoldable pub handler_of : Router H → Bytes → List Place → Option H
  handler_of ro method ps =
      maybe none (λ root. handler_at (load root) ps) (get Bytes-discrete method ro.trees)

  -- What a call of `Route` does to the handlers.
  abbrev pub RouteEffect :
      Router H → Bytes → Result (List Place) → Option H → Router H × Result (Unit {0}) → Type 0
  RouteEffect ro method places h (ro', ok _) =
      (ps : List Place) × (places ≡ ok ps)
      × (handler_of ro method ps ≡ none)
      × (handler_of ro' method ps ≡ h)
      × ((qs : List Place) → qs ≢ ps → handler_of ro' method qs ≡ handler_of ro method qs)
      × ((other : Bytes) (qs : List Place)
          → other ≢ method
          → handler_of ro' other qs ≡ handler_of ro other qs)
  RouteEffect ro method places h (ro', panic e) =
      (other : Bytes) (qs : List Place) → handler_of ro' other qs ≡ handler_of ro other qs

  handler_at-new_root : (qs : List Place) → handler_at {H = H} new_root qs ≡ none
  unfolding handler_at new_root child_at get
  handler_at-new_root [] = refl
  handler_at-new_root (at_static k ∷ qs) = refl
  handler_at-new_root (at_regexp k ∷ qs) = refl
  handler_at-new_root (at_param ∷ qs) = refl
  handler_at-new_root (at_star ∷ qs) = refl

  handler_at-root_of :
      (ro : Router H) (method : Bytes) (qs : List Place)
      → handler_at (root_of ro method) qs ≡ handler_of ro method qs
  unfolding root_of handler_of
  handler_at-root_of ro method qs =
      maybe_related_at (λ n o. handler_at {H = H} n qs ≡ o) (get Bytes-discrete method ro.trees)
        (handler_at-new_root qs) (λ c e. refl)

  handler_of-set_self :
      (ro : Router H) (method : Bytes) (n : NodeFields H) (qs : List Place)
      → handler_of (record ro { trees = put Bytes-discrete method (store n) ro.trees }) method qs
        ≡ handler_at n qs
  unfolding handler_of
  handler_of-set_self ro method n qs =
      rw (get-put_self Bytes-discrete method (store n) ro.trees)
        (ap (λ m. handler_at m qs) (load-store n))

  handler_of-set_ne :
      (ro : Router H) (method other : Bytes) (n : Node H) (qs : List Place)
      → other ≢ method
      → handler_of (record ro { trees = put Bytes-discrete method n ro.trees }) other qs
        ≡ handler_of ro other qs
  unfolding handler_of
  handler_of-set_ne ro method other n qs ne =
      rw (get-put_ne Bytes-discrete method other n ro.trees ne) refl

  RouteEffect-set_root :
      (ro : Router H) (method : Bytes) (places : Result (List Place)) (h : Option H)
      (out : NodeFields H × Result (Unit {0}))
      → Effect (root_of ro method) places h out
      → RouteEffect ro method places h (set_root ro method out)
  RouteEffect-set_root ro method places h (n', ok _) (ps, e, (unset, set, others)) = (
    ps,
    e,
    sym (handler_at-root_of ro method ps) ∙ unset,
    handler_of-set_self ro method n' ps ∙ set,
    λ qs ne. handler_of-set_self ro method n' qs ∙ others qs ne ∙ handler_at-root_of ro method qs,
    λ other qs ne. handler_of-set_ne ro method other (store n') qs ne,
  )
  RouteEffect-set_root ro method places h (n', panic p) same = λ other qs.
      elim (Bytes-discrete other method) [
        | yes e ↦
            subst (λ m. handler_of (set_root ro method (n', panic p)).0 m qs ≡ handler_of ro m qs)
              (sym e)
              (handler_of-set_self ro method n' qs ∙ same qs ∙ handler_at-root_of ro method qs)
        | no ne ↦ handler_of-set_ne ro method other (store n') qs ne
      ]

  RouteEffect-after_guards :
      (ro : Router H) (method : Bytes) (places : Result (List Place)) (h : Option H)
      (checked : Result (Unit {0})) (next : Router H × Result (Unit {0}))
      → RouteEffect ro method places h next
      → RouteEffect ro method places h (after_guards ro checked next)
  RouteEffect-after_guards ro method places h (ok _) next effect = effect
  RouteEffect-after_guards ro method places h (panic p) next effect = λ other qs. refl

  register-Effect :
      (lib : RegexpLib) (pattern : Bytes) (h : Option H) (root : NodeFields H)
      → Effect root (pattern_places lib pattern) h (register lib pattern h root)
  unfolding register pattern_places
  register-Effect lib pattern h root =
      ite_related (λ places out. Effect root places h out) (Bytes-discrete pattern (b'/' ∷ []))
        (λ _.
          maybe_case (Effect root (ok []) h) root.handlefunc (λ e. ([], refl, Sets-here root h e))
            (λ _ _ qs. refl))
        (λ _. insert-Effect lib (split b'/' (tail pattern)) [] h root)

  pub route-RouteEffect :
      (lib : RegexpLib) (ro : Router H) (method pattern : Bytes) (h : Option H)
      → RouteEffect ro method (pattern_places lib pattern) h (route lib ro method pattern h)
  unfolding route
  route-RouteEffect lib ro method pattern h =
      RouteEffect-after_guards ro method _ h (check_pattern pattern) _
        (RouteEffect-set_root ro method _ h _ (register-Effect lib pattern h (root_of ro method)))

  -- The map of handlers with one entry set.
  abbrev pub updated : Router H → Bytes → List Place → Option H → Bytes → List Place → Option H
  updated ro method ps h other qs =
      ite (Bytes-discrete other method) (ite (Places-discrete qs ps) h (handler_of ro other qs))
        (handler_of ro other qs)

  -- What a call of `Route` does to the map of handlers.
  abbrev pub Refines :
      Router H → Bytes → Result (List Place) → Option H → Router H × Result (Unit {0}) → Type 0
  Refines ro method places h (ro', ok _) =
      (ps : List Place) × (places ≡ ok ps)
      × (handler_of ro method ps ≡ none)
      × ((other : Bytes) (qs : List Place)
          → handler_of ro' other qs ≡ updated ro method ps h other qs)
  Refines ro method places h (ro', panic e) =
      (other : Bytes) (qs : List Place) → handler_of ro' other qs ≡ handler_of ro other qs

  Refines-of_RouteEffect :
      (ro : Router H) (method : Bytes) (places : Result (List Place)) (h : Option H)
      (out : Router H × Result (Unit {0}))
      → RouteEffect ro method places h out
      → Refines ro method places h out
  Refines-of_RouteEffect ro method places h (ro', panic e) same = same
  Refines-of_RouteEffect ro method places h (ro', ok _) (ps, e, unset, set, others, methods) = (
    ps,
    e,
    unset,
    λ other qs.
        ite_case (λ x. handler_of ro' other qs ≡ x) (Bytes-discrete other method)
          (λ same.
            ite_case (λ x. handler_of ro' other qs ≡ x) (Places-discrete qs ps)
              (λ at.
                subst (λ x. handler_of ro' x qs ≡ h) (sym same)
                  (subst (λ x. handler_of ro' method x ≡ h) (sym at) set))
              (λ ne.
                subst (λ x. handler_of ro' x qs ≡ handler_of ro x qs) (sym same) (others qs ne)))
          (λ ne. methods other qs ne),
  )

  -- The routing tree is a map from methods and lists of places to handlers. `Route` either sets the
  -- entry at its method and the places of its pattern, which was empty, and leaves every other as it
  -- was, or it panics and leaves every entry as it was.
  pub route-Refines :
      (lib : RegexpLib) (ro : Router H) (method pattern : Bytes) (h : Option H)
      → Refines ro method (pattern_places lib pattern) h (route lib ro method pattern h)
  route-Refines lib ro method pattern h =
      Refines-of_RouteEffect ro method _ h _ (route-RouteEffect lib ro method pattern h)

module _ {H : Type 0} (lib : RegexpLib) where
  -- A pattern that is registered with a handler cannot be registered again for its method: the
  -- second call of `Route` panics, and every handler stays as it was after the first.
  pub route_twice :
      (ro ro' : Router H) (method pattern : Bytes) (h : H) (h' : Option H)
      → route lib ro method pattern (some h) ≡ (ro', ok tt)
      → (p : Panic) × ((route lib ro' method pattern h').1 ≡ panic p)
        × ((other : Bytes) (qs : List Place)
            → handler_of (route lib ro' method pattern h').0 other qs ≡ handler_of ro' other qs)
  route_twice ro ro' method pattern h h' e =
      let (ps, places, _, set, _, _) =
        subst (λ out. RouteEffect ro method (pattern_places lib pattern) (some h) out) e
          (route-RouteEffect lib ro method pattern (some h)) in
      second ps places set (route lib ro' method pattern h')
        (route-RouteEffect lib ro' method pattern h')
    where
      second :
          (ps : List Place)
          → pattern_places lib pattern ≡ ok ps
          → handler_of ro' method ps ≡ some h
          → (out : Router H × Result (Unit {0}))
          → RouteEffect ro' method (pattern_places lib pattern) h' out
          → (p : Panic) × (out.1 ≡ panic p)
            × ((other : Bytes) (qs : List Place)
                → handler_of out.0 other qs ≡ handler_of ro' other qs)
      second ps places set (ro'', panic p) same = (p, refl, same)
      second ps places set (ro'', ok _) (qs, places', unset, _, _, _) =
          absurd (none_some (sym unset ∙ subst (λ x. handler_of ro' method x ≡ some h) (cc) set))
        where
          none_some : ◌≢◌ {A = Option H} none (some h)
          none_some = cc
