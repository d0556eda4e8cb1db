-- ===== src/Server/Sort.antt =====
-- A sort that meets what the server relies on of sort.Slice, and the order of groups at a concrete
-- server (web/server.go).
use mathlib.Core.List.Permᴰ
use mathlib.Core.List.{Permᴰ}
use mathlib.Core.Logic.{ite}
use go_web.Prelude.{ℕ, ◌≤◌, List, [], ◌∷◌, ◌++◌, ◌≡◌, refl, All, length, arith, dec_lt}
use go_web.Strings.{bytes}
use go_web.Http.{new_context, and_then, flash_resp}
use go_web.Server.{Group, middle_group, serve, serve_http}
use go_web.Server.Chain.{chain, mdls_of}
use go_web.Server.Nested.{All-Perm, Descending, Nested, serve_http-Nested}
use go_web.Server.Tests.{Trace, literals, in_order, grouped, request, no_response}

module _ {S : Type 0} where
  insert_group : Group S → List (Group S) → List (Group S)
  insert_group g [] = g ∷ []
  insert_group g (h ∷ gs) =
      let rest = insert_group g gs in
      ite (dec_lt (length g.prefix) (length h.prefix)) (h ∷ rest) (g ∷ h ∷ gs)

  unfoldable pub sort_groups : List (Group S) → List (Group S)
  unfolding insert_group
  sort_groups [] = []
  sort_groups (g ∷ gs) = insert_group g (sort_groups gs)

  insert_group-Perm : (g : Group S) (gs : List (Group S)) → Permᴰ (insert_group g gs) (g ∷ gs)
  unfolding insert_group
  insert_group-Perm g [] = Permᴰ.refl _
  insert_group-Perm g (h ∷ gs) =
      elim (dec_lt (length g.prefix) (length h.prefix))
        as (λ d. Permᴰ (ite d (h ∷ insert_group g gs) (g ∷ h ∷ gs)) (g ∷ h ∷ gs)) [
          | yes lt ↦ Permᴰ.trans (Permᴰ.cons refl (insert_group-Perm g gs)) (Permᴰ.swap refl refl)
          | no ge ↦ Permᴰ.refl _
        ]

  pub sort_groups-Perm : (gs : List (Group S)) → Permᴰ (sort_groups gs) gs
  unfolding sort_groups
  sort_groups-Perm [] = Permᴰ.nil
  sort_groups-Perm (g ∷ gs) =
      Permᴰ.trans (insert_group-Perm g (sort_groups gs)) (Permᴰ.cons refl (sort_groups-Perm gs))

  below-All :
      (n m : ℕ) (gs : List (Group S))
      → n ≤ m
      → All (λ x. length x.prefix ≤ n) gs
      → All (λ x. length x.prefix ≤ m) gs
  below-All n m [] le h = tt
  below-All n m (x ∷ gs) le h = (omega (arith, h.0, le), below-All n m gs le h.1)

  insert_group-Descending :
      (g : Group S) (gs : List (Group S)) → Descending gs → Descending (insert_group g gs)
  unfolding insert_group
  insert_group-Descending g [] d = (tt, tt)
  insert_group-Descending g (h ∷ gs) d =
      elim (dec_lt (length g.prefix) (length h.prefix))
        as (λ x. Descending (ite x (h ∷ insert_group g gs) (g ∷ h ∷ gs))) [
          | yes lt ↦ (
            All-Perm (λ x. length x.prefix ≤ length h.prefix) (Permᴰ.symm (insert_group-Perm g gs))
                (omega (arith, lt), d.0),
            insert_group-Descending g gs d.1,
          )
          | no ge ↦ (
            (
              omega (arith, ge),
              below-All (length h.prefix) (length g.prefix) gs (omega (arith, ge)) d.0,
            ),
            d,
          )
        ]

  pub sort_groups-Descending : (gs : List (Group S)) → Descending (sort_groups gs)
  unfolding sort_groups
  sort_groups-Descending [] = tt
  sort_groups-Descending (g ∷ gs) =
      insert_group-Descending g (sort_groups gs) (sort_groups-Descending gs)

serve_http-Nested_example :
    (gs : List (Group Trace)) × Permᴰ gs (middle_group (bytes "/a/b/c") grouped.groups)
    × Nested gs
    × (serve_http literals in_order sort_groups grouped no_response (request (bytes "/a/b/c")) []
        ≡ and_then
            (chain
              (grouped.mdls ++ mdls_of gs)
              (serve literals in_order grouped)
              (new_context no_response (request (bytes "/a/b/c")) []))
            flash_resp)
serve_http-Nested_example =
    serve_http-Nested literals in_order sort_groups sort_groups-Perm sort_groups-Descending grouped
      no_response (request (bytes "/a/b/c")) []
