-- ===== src/Cache/Group/Tests.antt =====
-- The theorem on cache groups at a concrete input.
use go_web.Prelude.{ℕ, ◌≡◌, refl, Option, none, some, get, false, arith, suc}
use go_web.Strings.{Bytes, bytes}
use go_web.Cache.Lru.{new_lru}
use go_web.Cache.Lru.Valid.{new_lru-IsValid}
use go_web.Cache.Group.{CacheGroup, Answer, new_group, new_cache, group_get, len}
use go_web.Cache.Group.Loads.{Got, group_get-Got}

-- A source that counts its calls and gives each key back.
abbrev source : Bytes → ℕ → ℕ × Bytes × Option ℕ
source key n = (suc n, key, none)

abbrev fresh : CacheGroup ℕ
fresh = new_group 64 0

group_get-Got_example :
    (g : CacheGroup ℕ) × (a : Answer ℕ) × (group_get source 5 fresh (bytes "tom") ≡ some (g, a))
    × Got source fresh (bytes "tom") g a
unfolding new_group new_cache get new_lru
group_get-Got_example =
    group_get-Got source 5 fresh (bytes "tom") (new_lru-IsValid len 64 false) (λ e. cc) refl
      (omega arith)
