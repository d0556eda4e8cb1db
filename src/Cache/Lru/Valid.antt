-- ===== src/Cache/Lru/Valid.antt =====
-- The invariant of the LRU cache (cache/LRU.go): list and map agree, no key stands twice, and
-- `nbytes` is the size of what is held. Every step keeps it.
use go_web.Prelude.{
  ℕ, ◌%◌, Bool, none, some, ◌∷◌, ◌≡◌, refl, sym, ap, subst, get, delete, arith, ℕ_discrete, ◌∙◌,
  get-delete_ne, get-delete_self, get-put_self, get-put_ne, maybe_case, if_case,
}
use go_web.Strings.{Bytes, Bytes-discrete}
use go_web.Int64.{word, sub64}
use go_web.Cache.Linked.{remove, back, value_of}
use go_web.Cache.Lru.{
  Entry, LruCache, size, new_lru, call_evicted, drop_element, remove_oldest, del, add_new,
  overwrite,
}
use go_web.Cache.Lru.Contents.{
  holder, Distinct, total, holder-value_of, holder-of_value, total-remove, Distinct-remove,
  holder-remove, holder-write, Distinct-write, total-write, Below, Below-remove, Below-write,
  Below-value_of, Below-suc, value_of-fresh, back-value_of,
}

module _ {V : Type 0} (length_of : V → ℕ) where
  pub record IsValid (c : LruCache V) : Type 0 where
    pub distinct : Distinct c.ll
    pub holders : (k : Bytes) → get Bytes-discrete k c.key_to_entry ≡ holder k c.ll
    pub bytes : c.nbytes ≡ total length_of c.ll % word
    pub ids : Below c.next c.ll

  -- A new cache is valid.
  pub new_lru-IsValid : (max : ℕ) (on : Bool) → IsValid (new_lru max on)
  unfolding new_lru get
  new_lru-IsValid max on = record {
    distinct = tt;
    holders = λ k. refl;
    bytes = omega arith;
    ids = tt;
  }

  -- The callback changes nothing that the invariant reads.
  pub call_evicted-IsValid :
      (c : LruCache V) (k : Bytes) (v : V) → IsValid c → IsValid (call_evicted c k v)
  call_evicted-IsValid c k v h =
      if_case IsValid c.on_evicted
        (record { distinct = h.distinct; holders = h.holders; bytes = h.bytes; ids = h.ids }) h

  holders-delete :
      (c : LruCache V) (i : ℕ) (e : Entry V)
      → IsValid c
      → value_of i c.ll ≡ some e
      → (k : Bytes)
      → get Bytes-discrete k (delete Bytes-discrete e.key c.key_to_entry) ≡ holder k (remove i c.ll)
  holders-delete c i e h at k = ground (
    arith,
    get-delete_self Bytes-discrete e.key c.key_to_entry,
    get-delete_ne Bytes-discrete e.key k c.key_to_entry,
    holder-remove k i e c.ll h.distinct at,
    h.holders k,
  )

  -- Dropping an element that the list holds keeps the invariant.
  pub drop_element-IsValid :
      (c : LruCache V) (i : ℕ) (e : Entry V)
      → IsValid c
      → value_of i c.ll ≡ some e
      → IsValid (drop_element length_of c i e)
  unfolding drop_element
  drop_element-IsValid c i e h at =
      call_evicted-IsValid
        (record c {
          nbytes = sub64 c.nbytes (size length_of e);
          ll = remove i c.ll;
          key_to_entry = delete Bytes-discrete e.key c.key_to_entry;
        })
        e.key e.value
        (record {
          distinct = Distinct-remove i c.ll h.distinct;
          holders = holders-delete c i e h at;
          bytes = omega (arith, h.bytes, total-remove length_of i e c.ll h.distinct at);
          ids = Below-remove c.next i c.ll h.ids;
        })

  pub remove_oldest-IsValid : (c : LruCache V) → IsValid c → IsValid (remove_oldest length_of c)
  unfolding remove_oldest
  remove_oldest-IsValid c h =
      maybe_case IsValid (back c.ll) (λ _. h)
        (λ ie at. drop_element-IsValid c ie.0 ie.1 h (back-value_of c.ll ie.0 ie.1 h.distinct at))

  pub del-IsValid : (c : LruCache V) (k : Bytes) → IsValid c → IsValid (del length_of c k)
  unfolding del
  del-IsValid c k h =
      maybe_case IsValid (get Bytes-discrete k c.key_to_entry) (λ _. h)
        λ i held.
          maybe_case IsValid (value_of i c.ll) (λ _. h)
            λ e at.
              let (f, at', same) = holder-value_of k i c.ll h.distinct (sym (h.holders k) ∙ held) in
              subst (λ (x : Entry V). IsValid (drop_element length_of c i x)) (ground (arith))
                (drop_element-IsValid c i e h at)

  -- Moving an element to the front keeps the invariant.
  pub touch-IsValid :
      (c : LruCache V) (i : ℕ) (e : Entry V)
      → IsValid c
      → value_of i c.ll ≡ some e
      → IsValid (record c { ll = (i, e) ∷ remove i c.ll })
  touch-IsValid c i e h at = record {
    distinct = (
      get-delete_self ℕ_discrete i c.ll,
      ground (arith, holder-remove e.key i e c.ll h.distinct at),
      Distinct-remove i c.ll h.distinct,
    );
    holders = λ k.
        h.holders k
        ∙ ground
            (arith, holder-remove k i e c.ll h.distinct at, holder-of_value i e c.ll h.distinct at);
    bytes =
        h.bytes ∙ ap (λ x. x % word) (omega (arith, total-remove length_of i e c.ll h.distinct at));
    ids = (Below-value_of c.next i e c.ll h.ids at, Below-remove c.next i c.ll h.ids);
  }

  -- A new key at the front keeps the invariant.
  pub add_new-IsValid :
      (c : LruCache V) (k : Bytes) (v : V)
      → IsValid c
      → holder k c.ll ≡ none
      → IsValid (add_new length_of c k v)
  unfolding add_new
  add_new-IsValid c k v h new = record {
    distinct = (value_of-fresh c.next c.ll h.ids, new, h.distinct);
    holders = λ j. ground (
      arith,
      get-put_self Bytes-discrete k c.next c.key_to_entry,
      get-put_ne Bytes-discrete k j c.next c.key_to_entry,
      h.holders j,
    );
    bytes = omega (arith, h.bytes);
    ids = (omega arith, Below-suc c.next c.ll h.ids);
  }

  -- Writing a new value keeps the invariant.
  pub overwrite-IsValid :
      (c : LruCache V) (i : ℕ) (e : Entry V) (v : V)
      → IsValid c
      → value_of i c.ll ≡ some e
      → IsValid (overwrite length_of c i e v)
  unfolding overwrite
  overwrite-IsValid c i e v h at = record {
    distinct = Distinct-write i e v c.ll h.distinct at;
    holders = λ k. h.holders k ∙ sym (holder-write k i e v c.ll at);
    bytes = omega (arith, h.bytes, total-write length_of i e v c.ll at);
    ids =
        Below-write c.next i (record e { value = v }) c.ll (Below-value_of c.next i e c.ll h.ids at)
          h.ids;
  }
