-- ===== src/Router/Search/Leads.antt =====
-- When a path leads to a node of the tree of web/router.go, as a relation that chooses freely
-- among the fitting children.
use mathlib.Core.List.{Memᴰ}
use go_web.Prelude.{true, some, List, [], ◌∷◌, ◌++◌, ◌≡◌, get}
use go_web.Strings.{Bytes, Bytes-discrete}
use go_web.Router.Node.{Node, NodeFields, load, Place, at_static, at_regexp, at_param, at_star}
use go_web.Router.Register.{RegexpLib}
use go_web.Router.Search.{Params, ends_with_star}

module _ {H : Type 0} where
  -- A child hangs in a place of a node.
  abbrev pub Hangs : NodeFields H → Place → Node H → Type 0
  Hangs n (at_static k) c = get Bytes-discrete k n.children ≡ some c
  Hangs n (at_regexp e) c = get Bytes-discrete e n.regexp_child ≡ some c
  Hangs n at_param c = n.param_child ≡ some c
  Hangs n at_star c = n.star_child ≡ some c

  -- The values that a step to a child binds.
  abbrev pub binds_at : Place → Node H → Bytes → Params
  binds_at (at_static k) c seg = []
  binds_at (at_regexp e) c seg = ((load c).param_name, seg) ∷ []
  binds_at at_param c seg = ((load c).param_name, seg) ∷ []
  binds_at at_star c seg = []

-- What `range` visits of the regular expressions of a node: each entry of the map, in any order.
pub record IsRange {H : Type 0} (order : Node H → List (Bytes × Node H)) : Type 0 where
  pub visited :
      (n : Node H) (e : Bytes) (c : Node H)
      → get Bytes-discrete e (load n).regexp_child ≡ some c
      → Memᴰ (e, c) (order n)
  pub entry_of :
      (n : Node H) (e : Bytes) (c : Node H)
      → Memᴰ (e, c) (order n)
      → get Bytes-discrete e (load n).regexp_child ≡ some c

-- A segment of a path fits a place.
abbrev pub Fits : RegexpLib → Place → Bytes → Type 0
Fits lib (at_static k) seg = k ≡ seg
Fits lib (at_regexp e) seg = lib.match_string e seg ≡ true
Fits lib at_param seg = Unit
Fits lib at_star seg = Unit

-- A path leads from a node along places to a node, binding values. A `*` with a handler takes all
-- that is left.
pub data Leads {H : Type 0} (lib : RegexpLib)
    : Node H → List Place → List Bytes → Node H → Params → Type 0 where
  here : {n : Node H} → Leads lib n [] [] n []
  step :
      {n c m : Node H} {p : Place} {seg : Bytes} {ps : List Place} {segs : List Bytes} {b : Params}
      → Hangs (load n) p c
      → Fits lib p seg
      → Leads lib c ps segs m b
      → Leads lib n (p ∷ ps) (seg ∷ segs) m (binds_at p c seg ++ b)
  rest :
      {n c : Node H} {seg : Bytes} {segs : List Bytes}
      → (load n).star_child ≡ some c
      → ends_with_star (load c) ≡ true
      → Leads lib n (at_star ∷ []) (seg ∷ segs) c []
