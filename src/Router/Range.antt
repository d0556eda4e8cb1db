-- ===== src/Router/Range.antt =====
-- An order in which `range` may visit the regular expressions of a node (web/router.go): that of the
-- entries of the map.
use mathlib.Core.List.{Memᴰ}
use go_web.Prelude.{some, List, [], ◌∷◌, ◌≡◌, ◌≢◌, sym, ap, ◌∙◌, get, delete, ite_case}
use go_web.Strings.{Bytes, Bytes-discrete}
use go_web.Router.Node.{Node, load}
use go_web.Router.Search.Leads.{IsRange}

module _ {V : Type 0} where
  Mem-delete :
      (k e : Bytes) (v : V) (l : List (Bytes × V))
      → Memᴰ (e, v) (delete Bytes-discrete k l)
      → (e ≢ k) × Memᴰ (e, v) l
  unfolding delete
  Mem-delete k e v [] m = elim m [ ]
  Mem-delete k e v ((j, w) ∷ l) m =
      ite_case (λ (x : List (Bytes × V)). Memᴰ (e, v) x → (e ≢ k) × Memᴰ (e, v) ((j, w) ∷ l))
        (Bytes-discrete k j)
        (λ same m'. let (ne, there) = Mem-delete k e v l m' in (ne, Memᴰ.tail there))
        (λ ne m'. kept (Mem-delete k e v l) ne m') m
    where
      kept :
          (Memᴰ (e, v) (delete Bytes-discrete k l) → (e ≢ k) × Memᴰ (e, v) l)
          → k ≢ j
          → Memᴰ (e, v) ((j, w) ∷ delete Bytes-discrete k l)
          → (e ≢ k) × Memᴰ (e, v) ((j, w) ∷ l)
      kept later ne (Memᴰ.head q) = ((λ e'. ne (sym e' ∙ ap (λ x. x.0) q)), Memᴰ.head q)
      kept later ne (Memᴰ.tail m') = let (ne', there) = later m' in (ne', Memᴰ.tail there)

  Mem-delete_ne :
      (k e : Bytes) (v : V) (l : List (Bytes × V))
      → e ≢ k
      → Memᴰ (e, v) l
      → Memᴰ (e, v) (delete Bytes-discrete k l)
  unfolding delete
  Mem-delete_ne k e v [] ne m = elim m [ ]
  Mem-delete_ne k e v ((j, w) ∷ l) ne m =
      ite_case (λ (x : List (Bytes × V)). Memᴰ (e, v) x) (Bytes-discrete k j)
        (λ same. dropped (Mem-delete_ne k e v l ne) same m) (λ _. kept (Mem-delete_ne k e v l ne) m)
    where
      dropped :
          (Memᴰ (e, v) l → Memᴰ (e, v) (delete Bytes-discrete k l))
          → k ≡ j
          → Memᴰ (e, v) ((j, w) ∷ l)
          → Memᴰ (e, v) (delete Bytes-discrete k l)
      dropped later same (Memᴰ.head q) = absurd (ne (ap (λ x. x.0) q ∙ sym same))
      dropped later same (Memᴰ.tail m') = later m'

      kept :
          (Memᴰ (e, v) l → Memᴰ (e, v) (delete Bytes-discrete k l))
          → Memᴰ (e, v) ((j, w) ∷ l)
          → Memᴰ (e, v) ((j, w) ∷ delete Bytes-discrete k l)
      kept later (Memᴰ.head q) = Memᴰ.head q
      kept later (Memᴰ.tail m') = Memᴰ.tail (later m')

  -- Each entry once.
  unfoldable pub visits : List (Bytes × V) → List (Bytes × V)
  visits [] = []
  visits ((k, v) ∷ l) = (k, v) ∷ delete Bytes-discrete k (visits l)

  visits-Mem :
      (l : List (Bytes × V)) (e : Bytes) (v : V)
      → get Bytes-discrete e l ≡ some v
      → Memᴰ (e, v) (visits l)
  unfolding get visits
  visits-Mem [] e v h = cc
  visits-Mem ((k, w) ∷ l) e v h =
      ite_case (λ x. x ≡ some v → Memᴰ (e, v) (visits ((k, w) ∷ l))) (Bytes-discrete e k)
        (λ same q. Memᴰ.head (cc))
        (λ ne q. Memᴰ.tail (Mem-delete_ne k e v (visits l) ne (visits-Mem l e v q))) h

  get_of_visits :
      (l : List (Bytes × V)) (e : Bytes) (v : V)
      → Memᴰ (e, v) (visits l)
      → get Bytes-discrete e l ≡ some v
  unfolding get visits
  get_of_visits [] e v m = elim m [ ]
  get_of_visits ((k, w) ∷ l) e v (Memᴰ.head q) =
      ite_case (λ x. x ≡ some v) (Bytes-discrete e k) (λ _. cc) (λ ne. absurd (ne (cc)))
  get_of_visits ((k, w) ∷ l) e v (Memᴰ.tail m) =
      let (ne, there) = Mem-delete k e v (visits l) m in
      ite_case (λ x. x ≡ some v) (Bytes-discrete e k) (λ same. absurd (ne same))
        (λ _. get_of_visits l e v there)

module _ {H : Type 0} where
  abbrev pub visit_all : Node H → List (Bytes × Node H)
  visit_all n = visits (load n).regexp_child

  pub visit_all-IsRange : IsRange visit_all
  visit_all-IsRange = record {
    visited = λ n e c h. visits-Mem (load n).regexp_child e c h;
    entry_of = λ n e c m. get_of_visits (load n).regexp_child e c m;
  }
