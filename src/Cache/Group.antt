-- ===== src/Cache/Group.antt =====
-- Cache groups with their single flight: cache/Group.go, cache/Cache.go, cache/singleflight.go and
-- cache/ByteView.go, as one goroutine runs them. The strategy is the LRU cache that is made where
-- none was given.
pub mod Loads
pub mod Tests
use go_web.Prelude.{
  ℕ, zero, suc, Bool, true, false, Option, none, some, List, [], ◌∷◌, get, put, delete, maybe,
  length,
}
use mathlib.Core.Logic.{ite}
use go_web.Strings.{Bytes, Bytes-discrete}
use go_web.Cache.Lru.{LruCache, new_lru, get_value, set}

-- `ByteView`; `Len` is its length.
pub record ByteView : Type 0 where
  pub b : Bytes

unfoldable pub len : ByteView → ℕ
len v = length v.b

unfoldable pub byte_slice : ByteView → Bytes
byte_slice v = v.b

-- `cache`: `none` is the strategy that is not there yet.
pub record Cache : Type 0 where
  pub cache_strategy : Option (LruCache ByteView)
  pub cache_bytes : ℕ

unfoldable pub new_cache : ℕ → Cache
new_cache bytes = record { cache_strategy = none; cache_bytes = bytes }

abbrev pub strategy : Cache → LruCache ByteView
strategy c = maybe (new_lru c.cache_bytes false) (λ s. s) c.cache_strategy

unfoldable pub cache_set : ℕ → Cache → Bytes → ByteView → Option Cache
unfolding set new_lru len
cache_set fuel c key v =
    maybe none (λ s. some (record c { cache_strategy = some s })) (set len fuel (strategy c) key v)

unfoldable pub cache_get : Cache → Bytes → Cache × Option ByteView
unfolding get_value new_lru
cache_get c key =
    let (s, v) = get_value (strategy c) key in (record c { cache_strategy = some s }, v)

-- The errors: of the group itself, and of the data source.
pub data LoadError (E : Type 0) : Type 0 where
  key_required : LoadError E
  not_loaded : E → LoadError E

-- What `Get` returns; `waits` is a call that waits for one in flight.
pub data Answer (E : Type 0) : Type 0 where
  value : ByteView → Answer E
  error : LoadError E → Answer E
  waits : Answer E

-- `CacheGroup` with its data source's state `S`. `calls` are the keys in flight.
pub record CacheGroup (S : Type 0) : Type 0 where
  pub cache : Cache
  pub calls : List (Bytes × Unit {0})
  pub source : S

-- `NewGroup`, less the registration under its name.
unfoldable pub new_group : {S : Type 0} → ℕ → S → CacheGroup S
unfolding new_cache
new_group bytes s = record { cache = new_cache bytes; calls = []; source = s }

-- `getter` is `GetData`: the bytes and the error, and the state of the source after it.
module _ {S E : Type 0} (getter : Bytes → S → S × Bytes × Option E) where
  -- `getLocally` with `populateCache`, on the fuel of the cache.
  unfoldable pub get_locally : ℕ → CacheGroup S → Bytes → Option (CacheGroup S × Answer E)
  unfolding cache_set
  get_locally fuel g key =
      let (s, bytes, err) = getter key g.source in
      let g' = record g { source = s } in
      let v : ByteView = record { b = bytes } in
      maybe
        (maybe none (λ c. some (record g' { cache = c }, value v)) (cache_set fuel g'.cache key v))
        (λ e. some (g', error (not_loaded e))) err

  -- `SingleFlightGroup.Do`.
  unfoldable pub do_once :
      CacheGroup S
      → Bytes
      → (CacheGroup S → Option (CacheGroup S × Answer E))
      → Option (CacheGroup S × Answer E)
  do_once g key fn =
      maybe
        (maybe none (λ r. some (record r.0 { calls = delete Bytes-discrete key r.0.calls }, r.1))
          (fn (record g { calls = put Bytes-discrete key tt g.calls })))
        (λ _. some (g, waits)) (get Bytes-discrete key g.calls)

  -- `load`.
  unfoldable pub load : ℕ → CacheGroup S → Bytes → Option (CacheGroup S × Answer E)
  unfolding do_once get_locally
  load fuel g key = do_once g key (λ g'. get_locally fuel g' key)

  -- `CacheGroup.Get`.
  unfoldable pub group_get : ℕ → CacheGroup S → Bytes → Option (CacheGroup S × Answer E)
  unfolding cache_get load
  group_get fuel g key = ite (Bytes-discrete key []) (some (g, error key_required)) (
      let (c, v) = cache_get g.cache key in
      let g' = record g { cache = c } in maybe (load fuel g' key) (λ x. some (g', value x)) v)
