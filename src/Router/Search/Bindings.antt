-- ===== src/Router/Search/Bindings.antt =====
-- The parameters that the search of web/router.go returns, where no parameter name stands twice on
-- a path of the tree: exactly those of the route that is found, and none of the abandoned ones.
use mathlib.Core.List.{Memᴰ}
use go_web.Prelude.{
  ℕ, zero, suc, none, some, List, [], ◌∷◌, ◌++◌, ◌≡◌, refl, sym, ap, map, get, length,
  if◌then◌else◌, maybe_related_at, if_related, delete-put_new, put_new, append_assoc, append-nil,
  get-put_ne, ◌∙◌,
}
use go_web.Strings.{Bytes, Bytes-discrete}
use go_web.Router.Node.{Node, load}
use go_web.Router.Register.{RegexpLib}
use go_web.Router.Search.{
  Params, Found, or_else, undo, end_at, bind_and_search, try_static, try_regexps, try_param,
  try_star, ends_with_star, back_search, add_value, remove_value,
}
use go_web.Router.Search.Leads.{IsRange}
use go_web.Router.Search.Candidates.{
  Hit, bind, under_static, under_bound, under_regexps, under_param, at_end, candidates,
}

-- Only names in use are bound.
abbrev pub Covers : List Bytes → Params → Type 0
Covers used mi = (k : Bytes) → ¬ Memᴰ k used → get Bytes-discrete k mi ≡ none

Covers-add :
    (used : List Bytes) (name seg : Bytes) (mi : Params)
    → Covers used mi
    → Covers (name ∷ used) (add_value name seg mi)
unfolding add_value
Covers-add used name seg mi h k new =
    get-put_ne Bytes-discrete name k seg mi (λ e. new (Memᴰ.head e)) ∙ h k (λ m. new (Memᴰ.tail m))

module _ {H : Type 0} where
  -- No parameter name occurs twice on a path of the tree down to a depth, nor is one in use above.
  abbrev pub DistinctNames : List Bytes → ℕ → Node H → Type 0
  DistinctNames used zero n = Unit
  DistinctNames used (suc d) n =
      ((k : Bytes) (c : Node H)
        → get Bytes-discrete k (load n).children ≡ some c
        → DistinctNames used d c)
      × ((e : Bytes) (c : Node H)
          → get Bytes-discrete e (load n).regexp_child ≡ some c
          → (¬ Memᴰ (load c).param_name used) × DistinctNames ((load c).param_name ∷ used) d c)
      × ((c : Node H)
          → (load n).param_child ≡ some c
          → (¬ Memᴰ (load c).param_name used) × DistinctNames ((load c).param_name ∷ used) d c)
      × ((c : Node H) → (load n).star_child ≡ some c → DistinctNames used d c)

  -- The first candidate with its values added, or the parameters as they were.
  abbrev pub answer : Params → List (Hit H) → Found H
  answer mi [] = (none, mi)
  answer mi (h ∷ hs) = (some h.node, mi ++ h.binds)

  abbrev IsAnswer : Params → Found H → List (Hit H) → Type 0
  IsAnswer mi r hs = r ≡ answer mi hs

  answer-or_else :
      (mi : Params) (r : Found H) (next : Params → Found H) (xs ys : List (Hit H))
      → r ≡ answer mi xs
      → next mi ≡ answer mi ys
      → or_else r next ≡ answer mi (xs ++ ys)
  answer-or_else mi r next [] ys p q = rw p q
  answer-or_else mi r next (x ∷ xs) ys p q = rw p refl

  answer-undo :
      (mi : Params) (name seg : Bytes) (xs : List (Hit H))
      → get Bytes-discrete name mi ≡ none
      → undo name (answer (add_value name seg mi) xs) ≡ answer mi (map (bind name seg) xs)
  unfolding add_value remove_value
  answer-undo mi name seg [] h = ap (λ m. (none, m)) (delete-put_new Bytes-discrete name seg mi h)
  answer-undo mi name seg (x ∷ xs) h =
      ap (λ m. (some x.node, m))
        (ap (λ m. m ++ x.binds) (put_new Bytes-discrete name seg mi h)
          ∙ append_assoc mi ((name, seg) ∷ []) x.binds)

  module _ (search : Node H → Params → Found H) (below : Node H → List (Hit H)) where
    -- The search is right at a child, from some parameters.
    abbrev Agrees : Node H → Params → Type 0
    Agrees c mi = search c mi ≡ answer mi (below c)

    abbrev AgreesBound : Bytes → Node H → Params → Type 0
    AgreesBound seg c mi =
        (get Bytes-discrete (load c).param_name mi ≡ none)
        × Agrees c (add_value (load c).param_name seg mi)

    answer-bound :
        (seg : Bytes) (c : Node H) (mi : Params)
        → AgreesBound seg c mi
        → bind_and_search search seg c mi ≡ answer mi (under_bound below seg c)
    unfolding bind_and_search
    answer-bound seg c mi (new, agrees) =
        rw agrees (answer-undo mi (load c).param_name seg (below c) new)

    answer-regexps :
        (lib : RegexpLib) (seg : Bytes) (l : List (Bytes × Node H)) (mi : Params)
        → ((e : Bytes) (c : Node H) → Memᴰ (e, c) l → AgreesBound seg c mi)
        → try_regexps lib search seg l mi ≡ answer mi (under_regexps lib below seg l)
    unfolding try_regexps
    answer-regexps lib seg [] mi h = refl
    answer-regexps lib seg ((expr, c) ∷ rest) mi h =
        answer-or_else mi _ _ (if lib.match_string expr seg then under_bound below seg c else []) _
          (if_related (IsAnswer mi) (lib.match_string expr seg)
            (answer-bound seg c mi (h expr c (Memᴰ.head refl))) refl)
          (answer-regexps lib seg rest mi (λ e d m. h e d (Memᴰ.tail m)))

module _ {H : Type 0} (lib : RegexpLib) (order : Node H → List (Bytes × Node H))
    (ranges : IsRange order) where
  answer-end : (c : Node H) (mi : Params) → end_at c mi ≡ answer mi (at_end c)
  answer-end c mi =
      if_related (IsAnswer mi) (ends_with_star (load c))
        (ap (λ m. (some c, m)) (sym (append-nil mi))) refl

  -- Where no parameter name stands twice on a path, `BackSearchChild` returns the first candidate
  -- with exactly its values added, and without one leaves the parameters as they were.
  pub back_search-answer :
      (segs : List Bytes) (n : Node H) (mi : Params) (used : List Bytes)
      → DistinctNames used (length segs) n
      → Covers used mi
      → back_search lib order segs n mi ≡ answer mi (candidates lib order segs n)
  unfolding back_search candidates try_static try_param try_star
  back_search-answer [] n mi used d cov = ap (λ m. (some n, m)) (sym (append-nil mi))
  back_search-answer (seg ∷ segs) n mi used d cov =
      let search = back_search lib order segs in
      let below = candidates lib order segs in
      answer-or_else mi _ _ (under_static below seg (load n)) _
        (maybe_related_at (IsAnswer mi) (get Bytes-discrete seg (load n).children) refl
          (λ c e. back_search-answer segs c mi used (d.0 seg c e) cov))
        (answer-or_else mi _ _ (under_regexps lib below seg (order n)) _
          (answer-regexps search below lib seg (order n) mi (λ e c m.
            let (new, below_ok) = d.1 e c (ranges.entry_of n e c m) in
            (cov _ new, back_search-answer segs c _ _ below_ok (Covers-add used _ seg mi cov))))
          (answer-or_else mi _ _ (under_param below seg (load n)) _
            (maybe_related_at (IsAnswer mi) (load n).param_child refl (λ c e.
              answer-bound search below seg c mi (
                cov _ (d.2 c e).0,
                back_search-answer segs c _ _ (d.2 c e).1 (Covers-add used _ seg mi cov),
              )))
            (maybe_related_at (IsAnswer mi) (load n).star_child refl (λ c e.
              answer-or_else mi _ _ (below c) (at_end c)
                (back_search-answer segs c mi used (d.3 c e) cov) (answer-end c mi)))))
