-- ===== src/Router/Search/Sound.antt =====
-- Every candidate of the search of web/router.go lies at the end of places that fit the path.
use mathlib.Core.List.Memᴰ
use mathlib.Core.List.{Memᴰ}
use go_web.Prelude.{
  Bool, true, false, Option, none, some, List, [], ◌∷◌, ◌++◌, ◌≡◌, refl, sym, subst, get,
  if◌then◌else◌, maybe, inl, inr,
}
use go_web.Strings.{Bytes, Bytes-discrete}
use go_web.Router.Node.{Node, load, Place, at_static, at_regexp, at_param, at_star}
use go_web.Router.Register.{RegexpLib}
use go_web.Router.Search.{Params, ends_with_star}
use go_web.Router.Search.Candidates.{
  Hit, bind, under_static, under_bound, under_regexps, under_param, under_star, at_end, candidates,
}
use go_web.Router.Search.Leads.{IsRange, Hangs, binds_at, Fits, Leads, here, step, rest}

module _ {H : Type 0} where
  Mem-maybe :
      {A : Type 0} (o : Option A) (f : A → List (Hit H)) (h : Hit H)
      → Memᴰ h (maybe [] f o)
      → (a : A) × (o ≡ some a) × Memᴰ h (f a)
  Mem-maybe none f h m = elim m [ ]
  Mem-maybe (some a) f h m = (a, refl, m)

  Mem-if :
      (t : Bool) (l : List (Hit H)) (h : Hit H)
      → Memᴰ h (if t then l else [])
      → (t ≡ true) × Memᴰ h l
  Mem-if true l h m = (refl, m)
  Mem-if false l h m = elim m [ ]

  Mem-bound :
      (below : Node H → List (Hit H)) (seg : Bytes) (c : Node H) (h : Hit H)
      → Memᴰ h (under_bound below seg c)
      → (x : Hit H) × Memᴰ x (below c) × (h ≡ bind (load c).param_name seg x)
  Mem-bound below seg c h m =
      let (x, mx, e) = Memᴰ.of_map (bind (load c).param_name seg) (below c) m in (x, mx, sym e)

  Mem-regexps :
      (lib : RegexpLib) (below : Node H → List (Hit H)) (seg : Bytes) (l : List (Bytes × Node H))
      (h : Hit H)
      → Memᴰ h (under_regexps lib below seg l)
      → (e : Bytes) × (c : Node H) × Memᴰ (e, c) l
        × (lib.match_string e seg ≡ true)
        × Memᴰ h (under_bound below seg c)
  Mem-regexps lib below seg [] h m = elim m [ ]
  Mem-regexps lib below seg ((e, c) ∷ l) h m = elim (Memᴰ.append_cases _ m) [
    | inl here_m ↦
        let (t, mh) = Mem-if (lib.match_string e seg) _ h here_m in (e, c, Memᴰ.head refl, t, mh)
    | inr later ↦
        let (e', c', ml, t, mh) = Mem-regexps lib below seg l h later in
        (e', c', Memᴰ.tail ml, t, mh)
  ]

module _ {H : Type 0} (lib : RegexpLib) where
  -- Some places lead to the node of the candidate, with its values.
  abbrev pub Reaches : Node H → List Bytes → Hit H → Type 0
  Reaches n segs h = (ps : List Place) × Leads lib n ps segs h.node h.binds

  module _ (segs : List Bytes) (below : Node H → List (Hit H))
      (sound : (c : Node H) (h : Hit H) → Memᴰ h (below c) → Reaches c segs h) where
    sound-bound :
        (seg : Bytes) (n c : Node H) (h : Hit H) (p : Place)
        → Hangs (load n) p c
        → Fits lib p seg
        → ((b : Params) → binds_at p c seg ++ b ≡ ((load c).param_name, seg) ∷ b)
        → Memᴰ h (under_bound below seg c)
        → Reaches n (seg ∷ segs) h
    sound-bound seg n c h p hangs fits binds m =
        let (x, mx, e) = Mem-bound below seg c h m in
        let (ps, l) = sound c x mx in
        subst (Reaches n (seg ∷ segs)) (sym e) (
          p ∷ ps,
          subst (Leads lib n (p ∷ ps) (seg ∷ segs) x.node) (binds x.binds) (step hangs fits l),
        )

    sound-static :
        (seg : Bytes) (n : Node H) (h : Hit H)
        → Memᴰ h (under_static below seg (load n))
        → Reaches n (seg ∷ segs) h
    sound-static seg n h m =
        let (c, e, mc) = Mem-maybe (get Bytes-discrete seg (load n).children) below h m in
        let (ps, l) = sound c h mc in (at_static seg ∷ ps, step e refl l)

    sound-star :
        (seg : Bytes) (n : Node H) (h : Hit H)
        → Memᴰ h (under_star below (load n))
        → Reaches n (seg ∷ segs) h
    sound-star seg n h m =
        let (c, e, mc) = Mem-maybe (load n).star_child (λ c. below c ++ at_end c) h m in
        elim (Memᴰ.append_cases (below c) mc) [
          | inl deeper ↦ let (ps, l) = sound c h deeper in (at_star ∷ ps, step e tt l)
          | inr last ↦
              let (t, ml) = Mem-if (ends_with_star (load c)) _ h last in
              subst (Reaches n (seg ∷ segs)) (sym (Memᴰ.eq_of_singleton ml))
                (at_star ∷ [], rest e t)
        ]

module _ {H : Type 0} (lib : RegexpLib) (order : Node H → List (Bytes × Node H))
    (ranges : IsRange order) where
  pub candidates_sound :
      (segs : List Bytes) (n : Node H) (h : Hit H)
      → Memᴰ h (candidates lib order segs n)
      → Reaches lib n segs h
  unfolding candidates
  candidates_sound [] n h m = subst (Reaches lib n []) (sym (Memᴰ.eq_of_singleton m)) ([], here)
  candidates_sound (seg ∷ segs) n h m =
      let below = candidates lib order segs in
      let sound = candidates_sound segs in
      elim (Memᴰ.append_cases (under_static below seg (load n)) m) [
        | inl s ↦ sound-static lib segs below sound seg n h s
        | inr m' ↦ elim (Memᴰ.append_cases (under_regexps lib below seg (order n)) m') [
          | inl r ↦
              let (e, c, ml, t, mh) = Mem-regexps lib below seg (order n) h r in
              sound-bound lib segs below sound seg n c h (at_regexp e) (ranges.entry_of n e c ml) t
                (λ b. refl) mh
          | inr m'' ↦ elim (Memᴰ.append_cases (under_param below seg (load n)) m'') [
            | inl p ↦
                let (c, e, mh) = Mem-maybe (load n).param_child (under_bound below seg) h p in
                sound-bound lib segs below sound seg n c h at_param e tt (λ b. refl) mh
            | inr s ↦ sound-star lib segs below sound seg n h s
          ]
        ]
      ]
