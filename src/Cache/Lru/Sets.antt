-- ===== src/Cache/Lru/Sets.antt =====
-- Set and Del of the LRU cache (cache/LRU.go), read on the entries.
use go_web.Prelude.{
  ℕ, backwards, suc, ◌<◌, Bool, true, false, none, some, List, [], ◌∷◌, ◌++◌, ◌≡◌, refl, sym, ap,
  get, put, delete, length, arith, ◌∙◌, maybe, ◌⊎◌, inl, inr, Option-cases, if◌then◌else◌,
  delete_absent,
}
use go_web.Int64.{sub64}
use go_web.Strings.{Bytes, Bytes-discrete}
use go_web.Cache.Linked.{remove, value_of, write}
use go_web.Cache.Lru.{Entry, LruCache, size, drop_element, del, add_new, overwrite, set}
use go_web.Cache.Lru.Contents.{contents, holder, holder-value_of, contents-absent, contents-remove}
use go_web.Cache.Lru.Valid.{IsValid, touch-IsValid, overwrite-IsValid, add_new-IsValid, del-IsValid}
use go_web.Cache.Lru.Ops.{contents-held, get_entry-cases}
use go_web.Cache.Lru.Evict.{call_evicted-kept, Evicted, Needed, evict-Needed}

module _ {V : Type 0} (length_of : V → ℕ) where
  write_front :
      (i : ℕ) (e f : Entry V) (l : List (ℕ × Entry V)) → write i f ((i, e) ∷ l) ≡ (i, f) ∷ l
  unfolding put
  write_front i e f l = ground arith

  value_of_front : (i : ℕ) (e : Entry V) (l : List (ℕ × Entry V)) → value_of i ((i, e) ∷ l) ≡ some e
  unfolding get
  value_of_front i e l = ground arith

  contents-overwrite :
      (c : LruCache V) (i : ℕ) (e : Entry V) (l : List (ℕ × Entry V)) (v : V)
      → contents (overwrite length_of (record c { ll = (i, e) ∷ l }) i e v).ll
        ≡ (e.key, v) ∷ contents l
  unfolding overwrite
  contents-overwrite c i e l v = ap contents (write_front i e (record e { value = v }) l)

  log_kept : (b : Bool) (x : List (Bytes × V)) → x ≡ (if b then x else x)
  log_kept true x = refl
  log_kept false x = refl

  -- The two outcomes of `Del`.
  del-cases :
      (c : LruCache V) (k : Bytes)
      → IsValid length_of c
      → ((del length_of c k ≡ c) × (holder k c.ll ≡ none))
        ⊎ ((i : ℕ) × (e : Entry V) × (e.key ≡ k)
            × (value_of i c.ll ≡ some e)
            × (holder k c.ll ≡ some i)
            × (del length_of c k ≡ drop_element length_of c i e))
  unfolding del
  del-cases c k h = elim (Option-cases (get Bytes-discrete k c.key_to_entry)) [
    | inl p ↦ inl (rw p refl, sym (h.holders k) ∙ p)
    | inr (i, p) ↦
        let held = sym (h.holders k) ∙ p in
        let (e, at, same) = holder-value_of k i c.ll h.distinct held in
        inr (
          i,
          e,
          same,
          at,
          held,
          rw (p, at) (ap (λ x. drop_element length_of c i (record e { key = x })) (sym same)),
        )
  ]

  contents-drop_element :
      (c : LruCache V) (i : ℕ) (e : Entry V)
      → IsValid length_of c
      → value_of i c.ll ≡ some e
      → (contents (drop_element length_of c i e).ll ≡ delete Bytes-discrete e.key (contents c.ll))
        × ((drop_element length_of c i e).evicted
            ≡ (if c.on_evicted then c.evicted ++ (e.key, e.value) ∷ [] else c.evicted))
  unfolding drop_element
  contents-drop_element c i e h at =
      let kept =
        call_evicted-kept
          (record c {
            nbytes = sub64 c.nbytes (size length_of e);
            ll = remove i c.ll;
            key_to_entry = delete Bytes-discrete e.key c.key_to_entry;
          })
          e.key e.value in
      (ap contents kept.0 ∙ contents-remove i e c.ll h.distinct at, kept.3)

  -- `Set` on a valid cache, with fuel for every element, ends in a valid cache. A key that is held
  -- gets the value and comes to the front, with no eviction; a new key goes to the front, and
  -- entries used longest ago go, in that order, until the bytes are within the bound: each entry
  -- that goes did so while what was held took more bytes than the bound.
  pub set-Refines :
      (fuel : ℕ) (c : LruCache V) (k : Bytes) (v : V)
      → IsValid length_of c
      → suc (length c.ll) < fuel
      → (c' : LruCache V) × (set length_of fuel c k v ≡ some c')
        × IsValid length_of c'
        × (((old : V) × (get Bytes-discrete k (contents c.ll) ≡ some old)
              × (contents c'.ll ≡ (k, v) ∷ delete Bytes-discrete k (contents c.ll)))
            ⊎ ((get Bytes-discrete k (contents c.ll) ≡ none)
                × (gone : List (Bytes × V)) × Evicted (add_new length_of c k v) c' gone
                × Needed length_of c'.max_bytes (contents c'.ll) gone
                × ((k, v) ∷ contents c.ll ≡ contents c'.ll ++ backwards gone)))
  unfolding set add_new
  set-Refines fuel c k v h enough = elim (get_entry-cases length_of c k h) [
    | inl (p, new) ↦
        let (c', gone, e, valid, ev, needed) =
          evict-Needed length_of fuel (add_new length_of c k v)
            (add_new-IsValid length_of c k v h new) enough in
        (c', rw p e, valid, inr (contents-absent k c.ll new, gone, ev, needed, ev.entries))
    | inr (i, e, same, at, held, p) ↦
        let c₁ = record c { ll = (i, e) ∷ remove i c.ll } in
        (
          overwrite length_of c₁ i e v,
          rw p refl,
          overwrite-IsValid length_of c₁ i e v (touch-IsValid length_of c i e h at)
              (value_of_front i e (remove i c.ll)),
          inl (
            e.value,
            contents-held k i e c.ll h.distinct held at,
            contents-overwrite c i e (remove i c.ll) v
                ∙ ap (λ m. (e.key, v) ∷ m) (contents-remove i e c.ll h.distinct at)
                ∙ ap (λ x. (x, v) ∷ delete Bytes-discrete x (contents c.ll)) same,
          ),
        )
  ]

  -- `Del` removes the entry of the key and nothing else.
  pub del-Refines :
      (c : LruCache V) (k : Bytes)
      → IsValid length_of c
      → IsValid length_of (del length_of c k)
        × (contents (del length_of c k).ll ≡ delete Bytes-discrete k (contents c.ll))
        × ((del length_of c k).evicted ≡ (
            if c.on_evicted
            then maybe c.evicted
                (λ v. c.evicted ++ (k, v) ∷ [])
                (get Bytes-discrete k (contents c.ll))
            else c.evicted))
  del-Refines c k h = elim (del-cases c k h) [
    | inl (p, gone) ↦
        let absent = contents-absent k c.ll gone in
        (
          del-IsValid length_of c k h,
          ap (λ d. contents d.ll) p ∙ sym (delete_absent Bytes-discrete k (contents c.ll) absent),
          rw (absent, p) (log_kept c.on_evicted c.evicted),
        )
    | inr (i, e, same, at, held, p) ↦
        let (entries, log) = contents-drop_element c i e h at in
        (
          del-IsValid length_of c k h,
          ap (λ d. contents d.ll) p
              ∙ entries
              ∙ ap (λ x. delete Bytes-discrete x (contents c.ll)) same,
          rw (contents-held k i e c.ll h.distinct held at) (
              ap (λ (d : LruCache V). d.evicted) p
              ∙ log
              ∙ ap (λ x. if c.on_evicted then c.evicted ++ (x, e.value) ∷ [] else c.evicted) same),
        )
  ]
