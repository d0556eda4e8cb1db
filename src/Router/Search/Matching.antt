-- ===== src/Router/Search/Matching.antt =====
-- The search of web/router.go finds a node exactly if some places that fit the path lead to one.
use mathlib.Core.List.Memᴰ
use mathlib.Core.List.{Memᴰ}
use go_web.Prelude.{
  true, Option, some, List, [], ◌∷◌, ◌++◌, ◌≡◌, refl, sym, subst, if◌then◌else◌, maybe, ◌∙◌, length,
}
use go_web.Strings.{Bytes}
use go_web.Router.Node.{Node, load, Place, at_static, at_regexp, at_param, at_star}
use go_web.Router.Register.{RegexpLib}
use go_web.Router.Search.{Params, back_search}
use go_web.Router.Search.Candidates.{
  Hit, bind, under_static, under_bound, under_regexps, under_param, candidates, found,
  back_search-found,
}
use go_web.Router.Search.Bindings.{DistinctNames, Covers, answer, back_search-answer}
use go_web.Router.Search.Leads.{IsRange, Leads, here, step, rest}
use go_web.Router.Search.Sound.{candidates_sound}

module _ {H : Type 0} (lib : RegexpLib) (order : Node H → List (Bytes × Node H))
    (ranges : IsRange order) where
  Mem-maybe_of :
      {A : Type 0} (o : Option A) (f : A → List (Hit H)) (h : Hit H) (a : A)
      → o ≡ some a
      → Memᴰ h (f a)
      → Memᴰ h (maybe [] f o)
  Mem-maybe_of o f h a e m = rw e m

  Mem-regexps_of :
      (below : Node H → List (Hit H)) (seg : Bytes) (l : List (Bytes × Node H)) (h : Hit H)
      (e : Bytes) (c : Node H)
      → Memᴰ (e, c) l
      → lib.match_string e seg ≡ true
      → Memᴰ h (under_bound below seg c)
      → Memᴰ h (under_regexps lib below seg l)
  Mem-regexps_of below seg [] h e c ml t m = elim ml [ ]
  Mem-regexps_of below seg ((e', c') ∷ l) h e c (Memᴰ.head q) t m = Memᴰ.append_left _ (
      subst
        (λ (ec : Bytes × Node H).
          Memᴰ h (if lib.match_string ec.0 seg then under_bound below seg ec.1 else []))
        q (rw t m))
  Mem-regexps_of below seg ((e', c') ∷ l) h e c (Memᴰ.tail ml) t m =
      Memᴰ.append_right _ (Mem-regexps_of below seg l h e c ml t m)

  candidates_complete :
      {n m : Node H} {ps : List Place} {segs : List Bytes} {b : Params}
      → Leads lib n ps segs m b
      → Memᴰ (record { node = m; binds = b }) (candidates lib order segs n)
  unfolding candidates
  candidates_complete here = Memᴰ.head refl
  candidates_complete
        (step {n = n} {c = c} {p = at_static k} {seg = seg} {segs = segs} hangs fits l) =
      Memᴰ.append_left _
        (Mem-maybe_of _ (candidates lib order segs) _ c (rw fits at hangs) (candidates_complete l))
  candidates_complete
        (step {n = n} {c = c} {p = at_regexp e} {seg = seg} {segs = segs} hangs fits l) =
      Memᴰ.append_right (under_static _ seg (load n)) (
        Memᴰ.append_left _ (
          Mem-regexps_of (candidates lib order segs) seg (order n) _ e c
            (ranges.visited n e c hangs) fits
            (Memᴰ.map (bind (load c).param_name seg) (candidates_complete l))))
  candidates_complete (step {n = n} {c = c} {p = at_param} {seg = seg} {segs = segs} hangs fits l) =
      Memᴰ.append_right (under_static _ seg (load n)) (
        Memᴰ.append_right (under_regexps lib _ seg (order n)) (
          Memᴰ.append_left _ (
            Mem-maybe_of _ (under_bound (candidates lib order segs) seg) _ c hangs
              (Memᴰ.map (bind (load c).param_name seg) (candidates_complete l)))))
  candidates_complete (step {n = n} {c = c} {p = at_star} {seg = seg} {segs = segs} hangs fits l) =
      Memᴰ.append_right (under_static _ seg (load n)) (
        Memᴰ.append_right (under_regexps lib _ seg (order n)) (
          Memᴰ.append_right (under_param _ seg (load n))
            (Mem-maybe_of _ _ _ c hangs (Memᴰ.append_left _ (candidates_complete l)))))
  candidates_complete (rest {n = n} {c = c} {seg = seg} {segs = segs} hangs ends) =
      Memᴰ.append_right (under_static _ seg (load n)) (
        Memᴰ.append_right (under_regexps lib _ seg (order n)) (
          Memᴰ.append_right (under_param _ seg (load n)) (
            Mem-maybe_of _ _ _ c hangs
              (Memᴰ.append_right (candidates lib order segs c) (rw ends (Memᴰ.head refl))))))

  Mem-found :
      (hs : List (Hit H)) (m : Node H)
      → found hs ≡ some m
      → (b : Params) × Memᴰ (record { node = m; binds = b }) hs
  Mem-found [] m e = cc
  Mem-found (h ∷ hs) m e = (h.binds, Memᴰ.head (cc))

  found_of_Mem : (hs : List (Hit H)) (h : Hit H) → Memᴰ h hs → (m : Node H) × (found hs ≡ some m)
  found_of_Mem [] h mem = elim mem [ ]
  found_of_Mem (x ∷ hs) h mem = (x.node, refl)

  -- Whatever the order in which maps are visited, a node that `BackSearchChild` returns lies at the
  -- end of places that fit the path.
  pub back_search_sound :
      (segs : List Bytes) (n m : Node H) (mi : Params)
      → (back_search lib order segs n mi).0 ≡ some m
      → (ps : List Place) × (b : Params) × Leads lib n ps segs m b
  back_search_sound segs n m mi e =
      let (b, mem) = Mem-found _ m (sym (back_search-found lib order segs n mi) ∙ e) in
      let (ps, l) = candidates_sound lib order ranges segs n _ mem in (ps, b, l)

  -- Backtracking misses nothing: if some places that fit the path lead to a node, then
  -- `BackSearchChild` returns a node, whatever the order in which maps are visited.
  pub back_search_complete :
      (segs : List Bytes) (n m : Node H) (mi : Params) (ps : List Place) (b : Params)
      → Leads lib n ps segs m b
      → (found_node : Node H) × ((back_search lib order segs n mi).0 ≡ some found_node)
  back_search_complete segs n m mi ps b l =
      let (m', e) = found_of_Mem (candidates lib order segs n) _ (candidates_complete l) in
      (m', back_search-found lib order segs n mi ∙ e)

  Mem-answer :
      (mi mi' : Params) (hs : List (Hit H)) (m : Node H)
      → answer mi hs ≡ (some m, mi')
      → (b : Params) × Memᴰ (record { node = m; binds = b }) hs × (mi' ≡ mi ++ b)
  Mem-answer mi mi' [] m e = cc
  Mem-answer mi mi' (h ∷ hs) m e = (h.binds, Memᴰ.head (cc), cc)

  -- Where no parameter name stands twice on a path of the tree, the parameters that come back with
  -- a node are those that were there and the values of the places that lead to it; nothing of the
  -- routes that were tried before is left.
  pub back_search-binds :
      (segs : List Bytes) (n m : Node H) (mi mi' : Params) (used : List Bytes)
      → DistinctNames used (length segs) n
      → Covers used mi
      → back_search lib order segs n mi ≡ (some m, mi')
      → (ps : List Place) × (b : Params) × Leads lib n ps segs m b × (mi' ≡ mi ++ b)
  back_search-binds segs n m mi mi' used distinct cov e =
      let (b, mem, same) =
        Mem-answer mi mi' _ m
          (sym (back_search-answer lib order ranges segs n mi used distinct cov) ∙ e) in
      let (ps, l) = candidates_sound lib order ranges segs n _ mem in (ps, b, l, same)
