-- ===== src/Router/Search/Candidates.antt =====
-- A reference definition of the search of web/router.go: all nodes that a path leads to, best
-- first, with no backtracking and no shared parameters. `BackSearchChild` returns the first.
use go_web.Prelude.{
  Option, none, some, List, [], ◌∷◌, ◌++◌, ◌≡◌, refl, map, get, maybe, maybe_related, if_related,
  if◌then◌else◌,
}
use go_web.Strings.{Bytes, Bytes-discrete}
use go_web.Router.Node.{Node, NodeFields, load}
use go_web.Router.Register.{RegexpLib}
use go_web.Router.Search.{
  Params, Found, or_else, undo, end_at, bind_and_search, try_static, try_regexps, try_param,
  try_star, ends_with_star, back_search,
}

-- A node that a path leads to, with the values bound on the way, outermost first.
pub record Hit (H : Type 0) : Type 0 where
  pub node : Node H
  pub binds : Params

module _ {H : Type 0} where
  abbrev pub bind : Bytes → Bytes → Hit H → Hit H
  bind name seg h = record h { binds = (name, seg) ∷ h.binds }

  -- The children of each kind that fit a segment, and what lies below them.
  abbrev pub under_static : (Node H → List (Hit H)) → Bytes → NodeFields H → List (Hit H)
  under_static below seg n = maybe [] below (get Bytes-discrete seg n.children)

  abbrev pub under_bound : (Node H → List (Hit H)) → Bytes → Node H → List (Hit H)
  under_bound below seg c = map (bind (load c).param_name seg) (below c)

  abbrev pub under_regexps :
      RegexpLib → (Node H → List (Hit H)) → Bytes → List (Bytes × Node H) → List (Hit H)
  under_regexps lib below seg [] = []
  under_regexps lib below seg ((expr, c) ∷ rest) =
      (if lib.match_string expr seg then under_bound below seg c else [])
      ++ under_regexps lib below seg rest

  abbrev pub under_param : (Node H → List (Hit H)) → Bytes → NodeFields H → List (Hit H)
  under_param below seg n = maybe [] (under_bound below seg) n.param_child

  abbrev pub at_end : Node H → List (Hit H)
  at_end c = if ends_with_star (load c) then record { node = c; binds = [] } ∷ [] else []

  abbrev pub under_star : (Node H → List (Hit H)) → NodeFields H → List (Hit H)
  under_star below n = maybe [] (λ c. below c ++ at_end c) n.star_child

  abbrev pub found : List (Hit H) → Option (Node H)
  found [] = none
  found (h ∷ hs) = some h.node

module _ {H : Type 0} (lib : RegexpLib) (order : Node H → List (Bytes × Node H)) where
  unfoldable pub candidates : List Bytes → Node H → List (Hit H)
  candidates [] n = record { node = n; binds = [] } ∷ []
  candidates (seg ∷ segs) n =
      let below = candidates segs in
      under_static below seg (load n)
      ++ (under_regexps lib below seg (order n)
          ++ (under_param below seg (load n) ++ under_star below (load n)))

module _ {H : Type 0} where
  abbrev IsFound : Found H → List (Hit H) → Type 0
  IsFound r hs = r.0 ≡ found hs

  found-or_else :
      (r : Found H) (next : Params → Found H) (xs ys : List (Hit H))
      → r.0 ≡ found xs
      → ((mi : Params) → (next mi).0 ≡ found ys)
      → (or_else r next).0 ≡ found (xs ++ ys)
  found-or_else (some m, mi) next [] ys p q = cc
  found-or_else (some m, mi) next (x ∷ xs) ys p q = p
  found-or_else (none, mi) next [] ys p q = q mi
  found-or_else (none, mi) next (x ∷ xs) ys p q = cc

  found-bind :
      (name seg : Bytes) (r : Found H) (xs : List (Hit H))
      → r.0 ≡ found xs
      → (undo name r).0 ≡ found (map (bind name seg) xs)
  found-bind name seg (some m, mi) [] p = cc
  found-bind name seg (some m, mi) (x ∷ xs) p = p
  found-bind name seg (none, mi) [] p = refl
  found-bind name seg (none, mi) (x ∷ xs) p = cc

  module _ (search : Node H → Params → Found H) (below : Node H → List (Hit H))
      (agrees : (c : Node H) (mi : Params) → (search c mi).0 ≡ found (below c)) where
    found-bound :
        (seg : Bytes) (c : Node H) (mi : Params)
        → (bind_and_search search seg c mi).0 ≡ found (under_bound below seg c)
    unfolding bind_and_search
    found-bound seg c mi = found-bind (load c).param_name seg (search c _) (below c) (agrees c _)

    found-static :
        (seg : Bytes) (n : NodeFields H) (mi : Params)
        → (try_static search seg n mi).0 ≡ found (under_static below seg n)
    unfolding try_static
    found-static seg n mi =
        maybe_related IsFound (get Bytes-discrete seg n.children) refl (λ c. agrees c mi)

    found-regexps :
        (lib : RegexpLib) (seg : Bytes) (l : List (Bytes × Node H)) (mi : Params)
        → (try_regexps lib search seg l mi).0 ≡ found (under_regexps lib below seg l)
    unfolding try_regexps
    found-regexps lib seg [] mi = refl
    found-regexps lib seg ((expr, c) ∷ rest) mi =
        found-or_else _ _ (if lib.match_string expr seg then under_bound below seg c else []) _
          (if_related IsFound (lib.match_string expr seg) (found-bound seg c mi) refl)
          (found-regexps lib seg rest)

    found-param :
        (seg : Bytes) (n : NodeFields H) (mi : Params)
        → (try_param search seg n mi).0 ≡ found (under_param below seg n)
    unfolding try_param
    found-param seg n mi = maybe_related IsFound n.param_child refl (λ c. found-bound seg c mi)

    found-star :
        (n : NodeFields H) (mi : Params) → (try_star search n mi).0 ≡ found (under_star below n)
    unfolding try_star
    found-star n mi = maybe_related IsFound n.star_child refl λ c.
        found-or_else (search c mi) (end_at c) (below c) (at_end c) (agrees c mi)
          λ mi'. if_related IsFound (ends_with_star (load c)) refl refl

module _ {H : Type 0} (lib : RegexpLib) (order : Node H → List (Bytes × Node H)) where
  -- For every parameters to begin with, `BackSearchChild` finds the first candidate.
  pub back_search-found :
      (segs : List Bytes) (n : Node H) (mi : Params)
      → (back_search lib order segs n mi).0 ≡ found (candidates lib order segs n)
  unfolding back_search candidates
  back_search-found [] n mi = refl
  back_search-found (seg ∷ segs) n mi =
      let search = back_search lib order segs in
      let below = candidates lib order segs in
      let agrees = back_search-found segs in
      found-or_else _ _ (under_static below seg (load n)) _
        (found-static search below agrees seg (load n) mi)
        λ mi'.
          found-or_else _ _ (under_regexps lib below seg (order n)) _
            (found-regexps search below agrees lib seg (order n) mi')
            λ mi''.
              found-or_else _ _ (under_param below seg (load n)) _
                (found-param search below agrees seg (load n) mi'')
                (found-star search below agrees (load n))
