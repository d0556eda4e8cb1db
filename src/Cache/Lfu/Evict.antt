-- ===== src/Cache/Lfu/Evict.antt =====
-- Eviction in the LFU cache (cache/LFU.go).
use go_web.Prelude.{
  ℕ, suc, ◌+◌, ◌<◌, ◌≡◌, refl, Bool, true, ◌&&◌, none, get, arith, ℕ_discrete, length,
}
use go_web.Int64.{half, int64, add64, lt64}
use go_web.Strings.{Bytes}
use go_web.Cache.Lfu.{LfuCache, nil_dereference, new_lfu, remove_oldest, make_room, set, get_entry}

too_large :
    (max size : ℕ)
    → 0 < max
    → max < size
    → size < half
    → (lt64 0 max && lt64 max (add64 0 (int64 size))) ≡ true
too_large max size p q r = ground arith

module _ {V : Type 0} (length_of : V → ℕ) where
  -- `RemoveOldest` calls a method of a nil list if no list stands under `minFreq`.
  pub remove_oldest_nil :
      (c : LfuCache V)
      → get ℕ_discrete c.min_freq c.freq_to_list ≡ none
      → remove_oldest length_of c ≡ nil_dereference
  unfolding remove_oldest
  remove_oldest_nil c h = rw h refl

  -- `Set` of an entry that is larger than a positive `maxBytes` dereferences nil on a new cache.
  pub set_too_large :
      (fuel max : ℕ) (on : Bool) (k : Bytes) (v : V)
      → 0 < max
      → max < length k + length_of v + 8
      → length k + length_of v + 8 < half
      → set length_of (suc fuel) (new_lfu max on) k v ≡ nil_dereference
  unfolding set get_entry new_lfu make_room get remove_oldest
  set_too_large fuel max on k v p q r = rw (too_large max (length k + length_of v + 8) p q r) refl
