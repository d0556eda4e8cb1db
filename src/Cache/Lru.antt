-- ===== src/Cache/Lru.antt =====
-- The LRU cache of cache/LRU.go. An element of `ll` is named by its identity; `keyToEntry` maps a
-- key to the element. What `OnEvicted` is called with is kept as a log.
pub mod Contents
pub mod Valid
pub mod Ops
pub mod Evict
pub mod Sets
pub mod Bounds
pub mod Fresh
use go_web.Prelude.{
  ℕ, zero, suc, ◌+◌, Bool, true, false, ◌&&◌, Option, none, some, List, [], ◌∷◌, ◌++◌, get, put,
  delete, maybe, length, if◌then◌else◌,
}
use go_web.Strings.{Bytes, Bytes-discrete}
use go_web.Int64.{int64, add64, sub64, lt64}
use go_web.Cache.Linked.{remove, push_front, move_to_front, back, value_of, write}

-- `LRUEntry`.
pub record Entry (V : Type 0) : Type 0 where
  pub key : Bytes
  pub value : V

-- `LRUCache`. `next` is the identity of the next element; `on_evicted` says that the callback is
-- set, and `evicted` holds its calls, the latest last.
pub record LruCache (V : Type 0) : Type 0 where
  pub max_bytes : ℕ
  pub nbytes : ℕ
  pub ll : List (ℕ × Entry V)
  pub key_to_entry : List (Bytes × ℕ)
  pub on_evicted : Bool
  pub evicted : List (Bytes × V)
  pub next : ℕ

module _ {V : Type 0} where
  unfoldable pub new_lru : ℕ → Bool → LruCache V
  new_lru max on = record {
    max_bytes = max;
    nbytes = 0;
    ll = [];
    key_to_entry = [];
    on_evicted = on;
    evicted = [];
    next = 0;
  }

  -- `GetEntry`: the element and its entry, moved to the front.
  unfoldable pub get_entry : LruCache V → Bytes → LruCache V × Option (ℕ × Entry V)
  get_entry c key =
      maybe (c, none)
        (λ i.
          (record c { ll = move_to_front i c.ll }, maybe none (λ e. some (i, e)) (value_of i c.ll)))
        (get Bytes-discrete key c.key_to_entry)

  -- `Get`.
  unfoldable pub get_value : LruCache V → Bytes → LruCache V × Option V
  unfolding get_entry
  get_value c key =
      let (c', found) = get_entry c key in (c', maybe none (λ ie. some ie.1.value) found)

  -- `if c.OnEvicted != nil { c.OnEvicted(key, value) }`
  abbrev pub call_evicted : LruCache V → Bytes → V → LruCache V
  call_evicted c key v =
      if c.on_evicted then record c { evicted = c.evicted ++ ((key, v) ∷ []) } else c

  -- `c.maxBytes > 0 && c.maxBytes < c.nbytes`
  abbrev pub over : LruCache V → Bool
  over c = lt64 0 c.max_bytes && lt64 c.max_bytes c.nbytes

  -- `Len`.
  unfoldable pub len : LruCache V → ℕ
  len c = length c.ll

-- `length_of` is the method `Len` of the values.
module _ {V : Type 0} (length_of : V → ℕ) where
  -- What an entry adds to `nbytes`.
  abbrev pub size : Entry V → ℕ
  size e = length e.key + length_of e.value

  unfoldable pub drop_element : LruCache V → ℕ → Entry V → LruCache V
  drop_element c i e =
      call_evicted
        (record c {
          ll = remove i c.ll;
          key_to_entry = delete Bytes-discrete e.key c.key_to_entry;
          nbytes = sub64 c.nbytes (size e);
        })
        e.key e.value

  unfoldable pub remove_oldest : LruCache V → LruCache V
  unfolding drop_element
  remove_oldest c = maybe c (λ ie. drop_element c ie.0 ie.1) (back c.ll)

  unfoldable pub del : LruCache V → Bytes → LruCache V
  unfolding drop_element
  del c key =
      maybe c (λ i. maybe c (λ e. drop_element c i (record e { key = key })) (value_of i c.ll))
        (get Bytes-discrete key c.key_to_entry)

  -- The loop of `Set`; `none` means that the fuel ran out before the loop did.
  unfoldable pub evict : ℕ → LruCache V → Option (LruCache V)
  unfolding remove_oldest
  evict zero c = none
  evict (suc fuel) c = let rest = evict fuel (remove_oldest c) in if over c then rest else some c

  unfoldable pub add_new : LruCache V → Bytes → V → LruCache V
  add_new c key v = record c {
    ll = push_front c.next (record { key = key; value = v }) c.ll;
    key_to_entry = put Bytes-discrete key c.next c.key_to_entry;
    nbytes = add64 c.nbytes (length key + length_of v);
    next = suc c.next;
  }

  unfoldable pub overwrite : LruCache V → ℕ → Entry V → V → LruCache V
  overwrite c i e v = record c {
    nbytes = add64 c.nbytes (sub64 (int64 (length_of v)) (length_of e.value));
    ll = write i (record e { value = v }) c.ll;
  }

  unfoldable pub set : ℕ → LruCache V → Bytes → V → Option (LruCache V)
  unfolding get_entry add_new overwrite evict
  set fuel c key v =
      let (c', found) = get_entry c key in
      maybe (evict fuel (add_new c' key v)) (λ ie. some (overwrite c' ie.0 ie.1 v)) found
