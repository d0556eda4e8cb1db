-- ===== src/Cache/Tests.antt =====
-- Runs of the caches, and the theorems at concrete inputs.
use go_web.Prelude.{
  ℕ, ◌≤◌, ◌≡◌, refl, none, some, List, [], ◌∷◌, ◌++◌, ◌⊎◌, get, put, delete, arith, if◌then◌else◌,
  maybe, true, ℕ_discrete, backwards,
}
use go_web.Strings.{Bytes, Bytes-discrete, bytes}
use go_web.Cache.Lru.{
  LruCache, new_lru, get_value, get_entry, add_new, set, del, evict, remove_oldest, drop_element,
  overwrite,
}
use go_web.Cache.Lru.Contents.{contents, total}
use go_web.Cache.Lru.Valid.{IsValid, new_lru-IsValid, add_new-IsValid}
use go_web.Cache.Lru.Ops.{used, get_value-Refines}
use go_web.Cache.Lru.Evict.{Evicted, Needed, evict_total}
use go_web.Cache.Lru.Sets.{set-Refines, del-Refines}
use go_web.Cache.Lru.Fresh.{Op, get_op, set_op, del_op, run_ops, latest, get_value-latest}
use go_web.Cache.Lru.Bounds.{set-within}

lru : Unit {0}
unfolding get put delete Bytes-discrete ℕ_discrete new_lru add_new
lru = tt

abbrev plain : ℕ → ℕ
plain n = n

abbrev one : LruCache ℕ
one = add_new plain (new_lru 20 true) (bytes "a") 3

-- Two entries of 4 and 6 bytes, in a cache of 20.
abbrev two : LruCache ℕ
two = add_new plain one (bytes "bc") 4

two-IsValid : IsValid plain two
unfolding lru
two-IsValid =
    add_new-IsValid plain one (bytes "bc") 4
      (add_new-IsValid plain (new_lru 20 true) (bytes "a") 3 (new_lru-IsValid plain 20 true) refl)
      refl

get_value-Refines_example :
    IsValid plain (get_value two (bytes "a")).0
    × ((get_value two (bytes "a")).1 ≡ get Bytes-discrete (bytes "a") (contents two.ll))
    × (contents (get_value two (bytes "a")).0.ll ≡ used (bytes "a") (contents two.ll))
get_value-Refines_example = get_value-Refines plain two (bytes "a") two-IsValid

set-Refines_example :
    (c' : LruCache ℕ) × (set plain 9 two (bytes "d") 14 ≡ some c')
    × IsValid plain c'
    × (((old : ℕ) × (get Bytes-discrete (bytes "d") (contents two.ll) ≡ some old)
          × (contents c'.ll
              ≡ (bytes "d", 14) ∷ delete Bytes-discrete (bytes "d") (contents two.ll)))
        ⊎ ((get Bytes-discrete (bytes "d") (contents two.ll) ≡ none)
            × (gone : List (Bytes × ℕ)) × Evicted (add_new plain two (bytes "d") 14) c' gone
            × Needed plain c'.max_bytes (contents c'.ll) gone
            × ((bytes "d", 14) ∷ contents two.ll ≡ contents c'.ll ++ backwards gone)))
unfolding lru
set-Refines_example = set-Refines plain 9 two (bytes "d") 14 two-IsValid (omega arith)

del-Refines_example :
    IsValid plain (del plain two (bytes "a"))
    × (contents (del plain two (bytes "a")).ll
        ≡ delete Bytes-discrete (bytes "a") (contents two.ll))
    × ((del plain two (bytes "a")).evicted ≡ (
        if two.on_evicted
        then maybe two.evicted
            (λ v. two.evicted ++ (bytes "a", v) ∷ [])
            (get Bytes-discrete (bytes "a") (contents two.ll))
        else two.evicted))
unfolding lru
del-Refines_example = del-Refines plain two (bytes "a") two-IsValid

-- A third entry of 15 bytes makes the cache too large by five.
abbrev three : LruCache ℕ
three = add_new plain two (bytes "d") 14

evict_total_example :
    (c' : LruCache ℕ) × (gone : List (Bytes × ℕ)) × (evict plain 4 three ≡ some c')
    × IsValid plain c'
    × Evicted three c' gone
unfolding lru
evict_total_example =
    evict_total plain 4 three (add_new-IsValid plain two (bytes "d") 14 two-IsValid refl)
      (omega arith)

set-within_example :
    (c' : LruCache ℕ) × (set plain 9 two (bytes "d") 14 ≡ some c')
    × (total plain c'.ll ≤ 20)
    × (c'.nbytes ≡ total plain c'.ll)
unfolding lru
set-within_example =
    set-within plain 9 two (bytes "d") 14 two-IsValid (omega arith) refl (omega arith) (omega arith)
      (omega arith)

-- What the callback sees when the third entry is set: the two older entries, oldest first.
set_evicts :
    maybe [] (λ (c : LruCache ℕ). c.evicted) (set plain 9 two (bytes "d") 14)
    ≡ (bytes "a", 3) ∷ [] ++ (bytes "bc", 4) ∷ []
unfolding lru set evict remove_oldest drop_element get_entry overwrite
set_evicts = refl

-- A larger value under a key that is held is not bounded: 40 bytes and more stay in a cache of 20.
overwritten_beyond_bound :
    maybe 0 (λ (c : LruCache ℕ). c.nbytes) (set plain 9 two (bytes "a") 40) ≡ 47
unfolding lru set evict remove_oldest drop_element get_entry overwrite
overwritten_beyond_bound = refl

-- A key that is set, evicted by others, set again and deleted.
abbrev calls : List (Op ℕ)
calls =
    set_op (bytes "a") 3
    ∷ set_op (bytes "b") 15
    ∷ get_op (bytes "a")
    ∷ set_op (bytes "c") 4
    ∷ set_op (bytes "a") 5
    ∷ del_op (bytes "b")
    ∷ []

get_value-latest_example :
    (c : LruCache ℕ) × (run_ops plain (new_lru 20 true) calls ≡ some c)
    × IsValid plain c
    × ((k : Bytes) (v : ℕ) → (get_value c k).1 ≡ some v → latest calls (λ j. none) k ≡ some v)
get_value-latest_example = get_value-latest plain 20 true calls
