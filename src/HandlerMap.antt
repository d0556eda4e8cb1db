-- ===== src/HandlerMap.antt =====
-- The first router, a map of handlers: web/handler_based_on_map.go.
pub mod Tests
use go_web.Prelude.{
  Option, none, some, List, [], ◌∷◌, ◌++◌, ◌≡◌, ◌≢◌, refl, sym, ap, ◌∙◌, ℕ, get, put, get-put_self,
  get-put_ne, All, maybe, ◌⊎◌, inl, inr,
}
use mathlib.Core.Logic.{ite}
use go_web.Strings.{Bytes, Bytes-discrete}

pub record HandlerBasedonMap (H : Type 0) : Type 0 where
  pub handlefuncs : List (Bytes × H)

unfoldable pub key_gen : Bytes → Bytes → Bytes
key_gen method path = method ++ b'#' ∷ path

-- A method has no separator in it.
abbrev pub IsMethod : Bytes → Type 0
IsMethod m = All (λ c. c ≢ b'#') m

key_gen-injective :
    (m m' p p' : Bytes)
    → IsMethod m
    → IsMethod m'
    → key_gen m p ≡ key_gen m' p'
    → (m ≡ m') × (p ≡ p')
unfolding key_gen
key_gen-injective [] [] p p' h h' e = (refl, cc)
key_gen-injective [] (c ∷ m') p p' h h' e = absurd (h'.0 (cc))
key_gen-injective (c ∷ m) [] p p' h h' e = absurd (h.0 (cc))
key_gen-injective (c ∷ m) (d ∷ m') p p' h h' e =
    let (same, rest) = key_gen-injective m m' p p' h.1 h'.1 (cc) in (cc, rest)

module _ {H : Type 0} where
  unfoldable pub new_handler_map : HandlerBasedonMap H
  new_handler_map = record { handlefuncs = [] }

  unfoldable pub map_route : HandlerBasedonMap H → Bytes → Bytes → H → HandlerBasedonMap H
  unfolding key_gen
  map_route m method pattern h = record m {
    handlefuncs = put Bytes-discrete (key_gen method pattern) h m.handlefuncs;
  }

  -- The key, which is the path and the route of the node, and the handler.
  unfoldable pub map_find_router : HandlerBasedonMap H → Bytes → Bytes → Option (Bytes × H)
  unfolding key_gen
  map_find_router m method pattern =
      maybe none (λ h. some (key_gen method pattern, h))
        (get Bytes-discrete (key_gen method pattern) m.handlefuncs)

  -- For methods without `#`, a registration is found under its method and path, and what is found
  -- under any other method and path stays.
  pub map_find_router-map_route :
      (m : HandlerBasedonMap H) (method method' pattern pattern' : Bytes) (h : H)
      → IsMethod method
      → IsMethod method'
      → (map_find_router (map_route m method pattern h) method pattern
          ≡ some (key_gen method pattern, h))
        × (((method ≡ method') × (pattern ≡ pattern'))
            ⊎ (map_find_router (map_route m method pattern h) method' pattern'
                ≡ map_find_router m method' pattern'))
  unfolding map_find_router map_route
  map_find_router-map_route m method method' pattern pattern' h is is' = (
    rw (get-put_self Bytes-discrete (key_gen method pattern) h m.handlefuncs) refl,
    elim (Bytes-discrete (key_gen method' pattern') (key_gen method pattern)) [
      | yes p ↦ inl (key_gen-injective method method' pattern pattern' is is' (sym p))
      | no p ↦ inr (
          rw
            (get-put_ne Bytes-discrete (key_gen method pattern) (key_gen method' pattern') h
              m.handlefuncs p)
            refl)
    ],
  )
