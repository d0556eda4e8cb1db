-- ===== src/Router/Search.antt =====
-- Search (web/router.go): `matchInfo`, `BackSearchChild` and `findRouter`.
pub mod Childof
pub mod Candidates
pub mod Bindings
pub mod Leads
pub mod Sound
pub mod Matching
use mathlib.Core.Logic.{ite}
use go_web.Prelude.{
  Bool, true, false, Option, none, some, List, [], ◌∷◌, get, put, delete, maybe, if◌then◌else◌,
}
use go_web.Strings.{Bytes, Bytes-discrete, split, trim}
use go_web.Router.Node.{Node, NodeFields, star, NodeType-discrete, load}
use go_web.Router.Register.{RegexpLib, Router}

-- `matchInfo.pathParams`: the values of the parameters by name.
abbrev pub Params : Type 0
Params = List (Bytes × Bytes)

unfoldable pub add_value : Bytes → Bytes → Params → Params
add_value name seg m = put Bytes-discrete name seg m

unfoldable pub remove_value : Bytes → Params → Params
remove_value name m = delete Bytes-discrete name m

-- What a search returns, and the parameters as it leaves them.
abbrev pub Found : Type 0 → Type 0
Found H = Option (Node H) × Params

module _ {H : Type 0} where
  -- `if ok { return res, true }`, and the code after it.
  abbrev pub or_else : Found H → (Params → Found H) → Found H
  or_else (some r, mi) next = (some r, mi)
  or_else (none, mi) next = next mi

  abbrev pub undo : Bytes → Found H → Found H
  undo name (some r, mi) = (some r, mi)
  undo name (none, mi) = (none, remove_value name mi)

  -- A child that binds a parameter: bound before the search, and unbound if it fails.
  unfoldable pub bind_and_search : (Node H → Params → Found H) → Bytes → Node H → Params → Found H
  unfolding add_value remove_value
  bind_and_search search seg c mi =
      undo (load c).param_name (search c (add_value (load c).param_name seg mi))

  unfoldable pub try_static : (Node H → Params → Found H) → Bytes → NodeFields H → Params → Found H
  try_static search seg n mi =
      maybe (none, mi) (λ c. search c mi) (get Bytes-discrete seg n.children)

  unfoldable pub try_regexps :
      RegexpLib → (Node H → Params → Found H) → Bytes → List (Bytes × Node H) → Params → Found H
  unfolding bind_and_search
  try_regexps lib search seg [] mi = (none, mi)
  try_regexps lib search seg ((expr, c) ∷ rest) mi =
      or_else (if lib.match_string expr seg then bind_and_search search seg c mi else (none, mi))
        (try_regexps lib search seg rest)

  unfoldable pub try_param : (Node H → Params → Found H) → Bytes → NodeFields H → Params → Found H
  unfolding bind_and_search
  try_param search seg n mi = maybe (none, mi) (λ c. bind_and_search search seg c mi) n.param_child

  -- `f != nil`
  abbrev pub is_set : Option H → Bool
  is_set none = false
  is_set (some _) = true

  -- `(typ == nodetypeStar) && (handlefunc != nil)`
  abbrev pub ends_with_star : NodeFields H → Bool
  ends_with_star c = ite (NodeType-discrete c.typ star) (is_set c.handlefunc) false

  abbrev pub end_at : Node H → Params → Found H
  end_at c mi = if ends_with_star (load c) then (some c, mi) else (none, mi)

  unfoldable pub try_star : (Node H → Params → Found H) → NodeFields H → Params → Found H
  try_star search n mi = maybe (none, mi) (λ c. or_else (search c mi) (end_at c)) n.star_child

-- `order n` is the order in which `range` visits the regular expressions of `n`.
module _ {H : Type 0} (lib : RegexpLib) (order : Node H → List (Bytes × Node H)) where
  unfoldable pub back_search : List Bytes → Node H → Params → Found H
  unfolding try_static try_regexps try_param try_star
  back_search [] n mi = (some n, mi)
  back_search (seg ∷ segs) n mi =
      let search = back_search segs in
      or_else (try_static search seg (load n) mi) λ mi'.
        or_else (try_regexps lib search seg (order n) mi')
          λ mi''. or_else (try_param search seg (load n) mi'') (try_star search (load n))

  -- The node and the parameters, or nothing.
  abbrev pub matched : Found H → Option (Node H × Params)
  matched (some n, mi) = some (n, mi)
  matched (none, mi) = none

  unfoldable pub find_router : Router H → Bytes → Bytes → Option (Node H × Params)
  unfolding back_search
  find_router ro method pattern =
      maybe none
        (λ root.
          ite (Bytes-discrete pattern (b'/' ∷ [])) (some (root, []))
            (matched (back_search (split b'/' (trim b'/' pattern)) root [])))
        (get Bytes-discrete method ro.trees)
