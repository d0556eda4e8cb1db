-- ===== src/Cache/Lfu/Tests.antt =====
-- Runs of the LFU cache, and the theorems at concrete inputs.
use go_web.Prelude.{
  ℕ, ◌≤◌, ◌<◌, ◌≡◌, refl, none, some, List, [], ◌∷◌, true, get, put, delete, arith, ℕ_discrete,
}
use go_web.Strings.{Bytes, Bytes-discrete, bytes}
use mathlib.Core.Logic.{ite}
use go_web.Cache.Lfu.Valid.{keys, entries, IsValid}
use go_web.Cache.Lfu.Valid.Steps.{value_at, IsSmall, get_value-IsValid}
use go_web.Cache.Lfu.Valid.Removal.{All-get}
use go_web.Cache.Lfu.Valid.Dropped.{del-IsValid, remove_oldest_least_used}
use go_web.Cache.Lfu.Valid.Sets.{add_new-IsValid, new_lfu-IsValid, set-IsValid}
use go_web.Cache.Lfu.{
  LfuCache, LfuEntry, max_int64, done, get_value, del, nil_dereference, ◌>>=◌, new_lfu, set,
  get_entry, promote, make_room, remove_oldest, add_new, unlink,
}
use go_web.Cache.Lfu.Evict.{set_too_large}

abbrev plain : ℕ → ℕ
plain n = n

abbrev lists : List (ℕ × List ℕ)
lists = (5, 1 ∷ []) ∷ (3, 2 ∷ 4 ∷ []) ∷ (7, 3 ∷ []) ∷ []

set_too_large_example : set plain 6 (new_lfu 10 true) (bytes "ab") 1 ≡ nil_dereference
set_too_large_example =
    set_too_large plain 5 10 true (bytes "ab") 1 (omega arith) (omega arith) (omega arith)

-- Two entries of 10 bytes fill a cache of 20; a third of 20 needs both to go, and fails.
filled_twice :
    (do
      c ← set plain 6 (new_lfu 20 true) (bytes "a") 1
      c' ← set plain 6 c (bytes "b") 1
      c'' ← get_entry c' (bytes "a")
      set plain 6 c''.0 (bytes "c") 11)
    ≡ nil_dereference
unfolding set get_entry promote make_room remove_oldest add_new unlink new_lfu get put delete
    Bytes-discrete ℕ_discrete
filled_twice = refl

-- A cache of 100 bytes with two entries, of frequency 1.
abbrev one_item : LfuCache ℕ
one_item = add_new plain (new_lfu 100 true) (bytes "a") 1

abbrev two_items : LfuCache ℕ
two_items = add_new plain one_item (bytes "b") 2

one_item-IsValid : IsValid one_item
unfolding new_lfu get Bytes-discrete
one_item-IsValid =
    add_new-IsValid plain (new_lfu 100 true) (bytes "a") 1 (new_lfu-IsValid 100 true) refl

two_items-IsValid : IsValid two_items
unfolding add_new new_lfu get put Bytes-discrete
two_items-IsValid = add_new-IsValid plain one_item (bytes "b") 2 one_item-IsValid refl

two_items-IsSmall : IsSmall two_items
unfolding add_new new_lfu get put ℕ_discrete
two_items-IsSmall f l at =
    All-get (λ n. n < max_int64) two_items.freq_to_list f l (omega arith, tt) at

get_value-IsValid_example :
    (c' : LfuCache ℕ) × (get_value two_items (bytes "a")
      ≡ done (c', value_at two_items (bytes "a")))
    × IsValid c'
    × ((j : Bytes) → value_at c' j ≡ value_at two_items j)
get_value-IsValid_example =
    get_value-IsValid two_items (bytes "a") two_items-IsValid two_items-IsSmall

set-IsValid_example :
    (c' : LfuCache ℕ) × (set plain 6 two_items (bytes "c") 3 ≡ done c')
    × IsValid c'
    × ((j : Bytes)
        → value_at c' j ≡ ite (Bytes-discrete j (bytes "c")) (some 3) (value_at two_items j))
unfolding add_new new_lfu
set-IsValid_example =
    set-IsValid plain 5 two_items (bytes "c") 3 two_items-IsValid two_items-IsSmall (λ _. refl)

del-IsValid_example :
    (c' : LfuCache ℕ) × (del plain two_items (bytes "a") ≡ done c')
    × IsValid c'
    × ((j : Bytes) → value_at c' j ≡ ite (Bytes-discrete j (bytes "a")) none (value_at two_items j))
unfolding add_new new_lfu put ℕ_discrete
del-IsValid_example = del-IsValid plain two_items (bytes "a") two_items-IsValid (omega arith, tt)

remove_oldest_least_used_example :
    (e : LfuEntry ℕ) × (c' : LfuCache ℕ) × (remove_oldest plain two_items ≡ done c')
    × (value_at two_items e.key ≡ some e.value)
    × ((j : Bytes) (q : ℕ) (x : LfuEntry ℕ)
        → keys two_items j ≡ some q
        → entries two_items q ≡ some x
        → e.freq ≤ x.freq)
    × ((j : Bytes) → value_at c' j ≡ ite (Bytes-discrete j e.key) none (value_at two_items j))
unfolding add_new new_lfu get put Bytes-discrete
remove_oldest_least_used_example =
    remove_oldest_least_used plain two_items (bytes "a") 0 two_items-IsValid refl
