-- ===== src/Router/Register/Paths.antt =====
-- The segments of a pattern along the nodes that `Route` (web/router.go) hangs for it.
use go_web.Prelude.{Option, some, List, [], ◌∷◌, ◌++◌, ◌≡◌, refl, sym, ap, subst, ◌∙◌, maybe_case}
use go_web.Strings.{Bytes}
use go_web.Router.Node.{
  Node, NodeFields, load, store, load-store, Place, Place-discrete, child_at, set_child,
}
use go_web.Router.Register.{Result, ok, panic, ◌>>=◌, RegexpLib, child_or_create, at_child, insert}
use go_web.Router.Register.Handlers.{
  place_of, places_of, child_at-set_child_self, child_at-set_child_ne,
}
use go_web.Router.Register.Insert.{InPlace, child_or_create-InPlace}
use go_web.Router.Register.Updates.{child_at-with_route, child_at-with_handler}
use go_web.Router.Register.Shape.{IsWell, IsWell-same}
use go_web.Router.Register.Made.{Makes, child_or_create-Makes}
use go_web.Router.Register.Valid.{insert-KeepsWell}
use go_web.Router.Register.Kept.{IsOld, child_or_create-IsOld}

module _ {H : Type 0} where
  -- The paths of the nodes along places.
  abbrev pub Along : NodeFields H → List Place → List Bytes → Type 0
  Along n [] [] = Unit
  Along n [] (s ∷ ss) = ⊥
  Along n (p ∷ ps) [] = ⊥
  Along n (p ∷ ps) (s ∷ ss) =
      (c : Node H) × (child_at n p ≡ some c) × ((load c).path ≡ s) × Along (load c) ps ss

  abbrev pub KeepsPaths : NodeFields H → NodeFields H → Type 0
  KeepsPaths n n' = (ps : List Place) (ss : List Bytes) → Along n ps ss → Along n' ps ss

  pub KeepsPaths-same :
      (n n' : NodeFields H) → ((p : Place) → child_at n' p ≡ child_at n p) → KeepsPaths n n'
  KeepsPaths-same n n' same [] [] a = tt
  KeepsPaths-same n n' same [] (s ∷ ss) a = a
  KeepsPaths-same n n' same (p ∷ ps) [] a = a
  KeepsPaths-same n n' same (p ∷ ps) (s ∷ ss) (c, at, path, below) = (c, same p ∙ at, path, below)

  Along-set_child :
      (n c : NodeFields H) (p : Place) (s : Bytes) (ps : List Place) (ss : List Bytes)
      → c.path ≡ s
      → Along c ps ss
      → Along (set_child n p (store c)) (p ∷ ps) (s ∷ ss)
  Along-set_child n c p s ps ss path below = (
    store c,
    child_at-set_child_self n p (store c),
    ap (λ (x : NodeFields H). x.path) (load-store c) ∙ path,
    subst (λ x. Along x ps ss) (sym (load-store c)) below,
  )

  KeepsPaths-set_child :
      (n d c : NodeFields H) (p : Place) (r : Bytes)
      → IsOld n (ok (p, d))
      → c.path ≡ d.path
      → KeepsPaths (record d { route = r }) c
      → KeepsPaths n (set_child n p (store c))
  KeepsPaths-set_child n d c p r old path kept [] [] a = tt
  KeepsPaths-set_child n d c p r old path kept [] (s ∷ ss) a = a
  KeepsPaths-set_child n d c p r old path kept (q ∷ qs) [] a = a
  KeepsPaths-set_child n d c p r old path kept (q ∷ qs) (s ∷ ss) (d₀, at, is_s, below) =
      elim (Place-discrete q p) [
        | yes same ↦
            let is_d = old d₀ (subst (λ x. child_at n x ≡ some d₀) same at) in
            let below' = kept qs ss (
              KeepsPaths-same d (record d { route = r }) (child_at-with_route d r) qs ss
                (subst (λ x. Along x qs ss) is_d below)) in
            subst (λ x. Along (set_child n p (store c)) (x ∷ qs) (s ∷ ss)) (sym same)
              (Along-set_child n c p s qs ss
                (path ∙ subst (λ (x : NodeFields H). x.path ≡ s) is_d is_s) below')
        | no ne ↦ (d₀, child_at-set_child_ne n p q (store c) ne ∙ at, is_s, below)
      ]

  -- What a registration leaves of the paths: those that were there, and those of its pattern.
  abbrev pub Laid :
      NodeFields H → Result (List Place) → List Bytes → NodeFields H × Result (Unit {0}) → Type 0
  Laid n places ss (n', ok _) =
      KeepsPaths n n' × (ps : List Place) × (places ≡ ok ps) × Along n' ps ss
  Laid n places ss (n', panic e) = KeepsPaths n n'

  pub KeepsPaths-refl : (n : NodeFields H) → KeepsPaths n n
  KeepsPaths-refl n ps ss a = a

  Laid-below :
      (n d : NodeFields H) (p : Place) (r s : Bytes) (ss : List Bytes)
      (places : Result (List Place)) (out : NodeFields H × Result (Unit {0}))
      → IsOld n (ok (p, d))
      → out.0.path ≡ d.path
      → d.path ≡ s
      → Laid (record d { route = r }) places ss out
      → Laid n (do ps ← places; ok (p ∷ ps)) (s ∷ ss) (set_child n p (store out.0), out.1)
  Laid-below n d p r s ss places (c, ok _) old path is_s (kept, ps, e, along) = (
    KeepsPaths-set_child n d c p r old path kept,
    p ∷ ps,
    rw e refl,
    Along-set_child n c p s ps ss (path ∙ is_s) along,
  )
  Laid-below n d p r s ss places (c, panic e) old path is_s kept =
      KeepsPaths-set_child n d c p r old path kept

  Laid-at_child :
      (lib : RegexpLib) (r s : Bytes) (ss : List Bytes) (n : NodeFields H) (place : Result Place)
      (places : Result (List Place)) (made : Result (Place × NodeFields H))
      (next : NodeFields H → NodeFields H × Result (Unit {0}))
      → Makes lib r s made
      → IsOld n made
      → InPlace n place made
      → ((d : NodeFields H)
          → IsWell lib (r ++ (b'/' ∷ s)) d
          → ((next d).0.path ≡ d.path)
            × Laid (record d { route = r ++ (b'/' ∷ s) }) places ss (next d))
      → Laid n (do p ← place; ps ← places; ok (p ∷ ps)) (s ∷ ss) (at_child n made next)
  Laid-at_child lib r s ss n place places (panic e) next makes old in_place go = KeepsPaths-refl n
  Laid-at_child lib r s ss n place places (ok (p, d)) next (_, is_s, well) old (e, _) go =
      let (path, laid) = go d well in
      subst
        (λ x. Laid n (do p ← x; ps ← places; ok (p ∷ ps)) (s ∷ ss) (at_child n (ok (p, d)) next))
        (sym e) (Laid-below n d p (r ++ (b'/' ∷ s)) s ss places (next d) old path is_s laid)

  pub insert-Laid :
      (lib : RegexpLib) (segs : List Bytes) (r : Bytes) (h : Option H) (n : NodeFields H)
      → IsWell lib r n
      → Laid n (places_of lib segs) segs (insert lib segs r h n)
  unfolding insert places_of
  insert-Laid lib [] r h n well =
      maybe_case (Laid n (ok []) []) n.handlefunc
        (λ _. (
          KeepsPaths-same n (record n { handlefunc = h }) (child_at-with_handler n h),
          [],
          refl,
          tt,
        ))
        (λ _ _. KeepsPaths-refl n)
  insert-Laid lib ([] ∷ segs) r h n well = KeepsPaths-refl n
  insert-Laid lib ((c ∷ s) ∷ segs) r h n well =
      let here = r ++ (b'/' ∷ c ∷ s) in
      Laid-at_child lib r (c ∷ s) segs n (place_of lib (c ∷ s)) (places_of lib segs)
        (child_or_create lib n (c ∷ s)) _ (child_or_create-Makes lib r n c s well)
        (child_or_create-IsOld lib n (c ∷ s)) (child_or_create-InPlace lib n (c ∷ s))
        (λ d below.
          let well' =
            IsWell-same lib here d (record d { route = here }) (child_at-with_route d here) below in
          (
            (insert-KeepsWell lib segs here h (record d { route = here }) well').1.path,
            insert-Laid lib segs here h (record d { route = here }) well',
          ))
