-- ===== src/Router/Search/Childof.antt =====
-- The search for the children of one level, `Childof` (web/router.go), against the children that
-- hang in a node and fit a segment.
use mathlib.Core.List.Memᴰ
use mathlib.Core.List.{Memᴰ}
use go_web.Prelude.{
  Bool, true, false, Option, none, some, List, [], ◌∷◌, ◌++◌, ◌≡◌, refl, sym, ap, subst, get,
  if◌then◌else◌, Bool-cases, inl, inr,
}
use go_web.Strings.{Bytes, Bytes-discrete}
use go_web.Router.Node.{Node, load, Place, at_static, at_regexp, at_param, at_star}
use go_web.Router.Register.{RegexpLib}
use go_web.Router.Search.Leads.{IsRange, Hangs, Fits}

module _ {H : Type 0} where
  abbrev pub listed : Option (Node H) → List (Node H)
  listed none = []
  listed (some c) = c ∷ []

  abbrev pub is_some_list : List (Node H) → Bool
  is_some_list [] = false
  is_some_list (c ∷ cs) = true

  -- The loop over the regular expressions.
  unfoldable pub matching : RegexpLib → Bytes → List (Bytes × Node H) → List (Node H)
  matching lib seg [] = []
  matching lib seg ((expr, c) ∷ rest) =
      let others = matching lib seg rest in if lib.match_string expr seg then c ∷ others else others

  -- `order n` is the order in which `range` visits the regular expressions of `n`.
  unfoldable pub childof :
      RegexpLib → (Node H → List (Bytes × Node H)) → Node H → Bytes → List (Node H) × Bool
  unfolding matching
  childof lib order n seg =
      let f = load n in
      let node_list =
        listed (get Bytes-discrete seg f.children)
        ++ (matching lib seg (order n) ++ (listed f.param_child ++ listed f.star_child)) in
      (node_list, is_some_list node_list)

  Mem-listed : (o : Option (Node H)) (c : Node H) → Memᴰ c (listed o) → o ≡ some c
  Mem-listed none c m = elim m [ ]
  Mem-listed (some d) c (Memᴰ.head e) = ap some (sym e)
  Mem-listed (some d) c (Memᴰ.tail m) = elim m [ ]

  -- A member of the nodes that match, which stands first or later.
  Mem-first :
      (lib : RegexpLib) (seg e : Bytes) (d : Node H) (l : List (Bytes × Node H))
      (ms : List (Node H)) (c : Node H)
      → lib.match_string e seg ≡ true
      → (Memᴰ c ms → (x : Bytes) × Memᴰ (x, c) l × (lib.match_string x seg ≡ true))
      → Memᴰ c (d ∷ ms)
      → (x : Bytes) × Memᴰ (x, c) ((e, d) ∷ l) × (lib.match_string x seg ≡ true)
  Mem-first lib seg e d l ms c t rest (Memᴰ.head p) = (e, Memᴰ.head (ap (λ y. (e, y)) p), t)
  Mem-first lib seg e d l ms c t rest (Memᴰ.tail m) =
      let (x, mx, p) = rest m in (x, Memᴰ.tail mx, p)

  Mem-matching :
      (lib : RegexpLib) (seg : Bytes) (l : List (Bytes × Node H)) (c : Node H)
      → Memᴰ c (matching lib seg l)
      → (e : Bytes) × Memᴰ (e, c) l × (lib.match_string e seg ≡ true)
  unfolding matching
  Mem-matching lib seg [] c m = elim m [ ]
  Mem-matching lib seg ((e, d) ∷ l) c m =
      let others = matching lib seg l in
      let at = λ (b : Bool) (t : lib.match_string e seg ≡ b).
        subst (λ y. Memᴰ c (if y then d ∷ others else others)) t m in
      elim (Bool-cases (lib.match_string e seg)) [
        | inl t ↦ Mem-first lib seg e d l others c t (Mem-matching lib seg l c) (at true t)
        | inr t ↦ let (x, mx, p) = Mem-matching lib seg l c (at false t) in (x, Memᴰ.tail mx, p)
      ]

  -- Each node that `Childof` returns hangs in a place that the segment fits.
  pub childof-Fits :
      (lib : RegexpLib) (order : Node H → List (Bytes × Node H)) (n : Node H) (seg : Bytes)
      (c : Node H)
      → IsRange order
      → Memᴰ c (childof lib order n seg).0
      → (p : Place) × Hangs (load n) p c × Fits lib p seg
  unfolding childof
  childof-Fits lib order n seg c ranges m = elim (Memᴰ.append_cases _ m) [
    | inl a ↦ (at_static seg, Mem-listed (get Bytes-discrete seg (load n).children) c a, refl)
    | inr b ↦ elim (Memᴰ.append_cases _ b) [
      | inl r ↦
          let (e, me, t) = Mem-matching lib seg (order n) c r in
          (at_regexp e, ranges.entry_of n e c me, t)
      | inr d ↦ elim (Memᴰ.append_cases _ d) [
        | inl q ↦ (at_param, Mem-listed (load n).param_child c q, tt)
        | inr s ↦ (at_star, Mem-listed (load n).star_child c s, tt)
      ]
    ]
  ]
