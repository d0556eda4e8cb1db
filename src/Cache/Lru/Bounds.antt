-- ===== src/Cache/Lru/Bounds.antt =====
-- What Set of the LRU cache (cache/LRU.go) leaves behind: the bound on the bytes, and the value
-- that was set.
use go_web.Prelude.{
  delete, ℕ, backwards, suc, ◌+◌, ◌<◌, ◌≤◌, ◌%◌, false, ◌&&◌, none, some, List, [], ◌∷◌, ◌++◌, ◌≡◌,
  refl, sym, ap, get, length, arith, ◌∙◌, ◌⊎◌, inl, inr,
}
use go_web.Int64.{word, half, lt64}
use go_web.Strings.{Bytes, Bytes-discrete}
use go_web.Cache.Lru.{LruCache, get_value, remove_oldest, add_new, set}
use go_web.Cache.Lru.Contents.{contents, total}
use go_web.Cache.Lru.Valid.{IsValid}
use go_web.Cache.Lru.Ops.{used, get_value-Refines}
use go_web.Cache.Lru.Evict.{remove_oldest-cases, weight, weight-contents, weight-append}
use go_web.Cache.Lru.Sets.{set-Refines}

-- What `c.maxBytes > 0 && c.maxBytes < c.nbytes` says where nothing wraps around.
over-bound : (m n : ℕ) → 0 < m → m < half → n < half → (lt64 0 m && lt64 m n) ≡ false → n ≤ m
over-bound m n p q r e = ground arith

within :
    (m m' n t : ℕ)
    → 0 < m
    → m < half
    → t < half
    → m' ≡ m
    → n ≡ t
    → (lt64 0 m' && lt64 m' n) ≡ false
    → t ≤ m
within m m' n t p q r e f h =
    over-bound m t p q r
      (ap (λ x. lt64 0 x && lt64 x t) (sym e) ∙ ap (λ x. lt64 0 m' && lt64 m' x) (sym f) ∙ h)

modulo : (n : ℕ) → n < half → n % word ≡ n
modulo n h = omega arith

module _ {V : Type 0} (length_of : V → ℕ) where
  some_or_none : {old : V} → some old ≡ none → ⊥
  some_or_none e = cc

  get_front :
      (k : Bytes) (v : V) (m l : List (Bytes × V))
      → m ≡ (k, v) ∷ l
      → get Bytes-discrete k m ≡ some v
  unfolding get
  get_front k v [] l e = cc
  get_front k v ((j, w) ∷ m) l e = ground arith

  -- A first part of a list starts as the list does, or is empty.
  starts :
      (k : Bytes) (v : V) (l m r : List (Bytes × V))
      → (k, v) ∷ l ≡ m ++ r
      → (get Bytes-discrete k m ≡ some v) ⊎ (m ≡ [])
  unfolding get
  starts k v l [] r e = inr refl
  starts k v l ((j, w) ∷ m) r e = inl (get_front k v ((j, w) ∷ m) m (ground arith))

  -- After `Set` of a key that was not held, with a positive bound and no more than 2 ^ 63 bytes in
  -- play, the keys and values that are held take at most `maxBytes` bytes, and so says `nbytes`.
  pub set-within :
      (fuel : ℕ) (c : LruCache V) (k : Bytes) (v : V)
      → IsValid length_of c
      → suc (length c.ll) < fuel
      → get Bytes-discrete k (contents c.ll) ≡ none
      → 0 < c.max_bytes
      → c.max_bytes < half
      → length k + length_of v + total length_of c.ll < half
      → (c' : LruCache V) × (set length_of fuel c k v ≡ some c')
        × (total length_of c'.ll ≤ c.max_bytes)
        × (c'.nbytes ≡ total length_of c'.ll)
  unfolding add_new
  set-within fuel c k v h enough new p q r =
      let (c', e, valid, cases) = set-Refines length_of fuel c k v h enough in
      elim cases [
        | inl (old, held, _) ↦ absurd (some_or_none (sym held ∙ new))
        | inr (_, gone, ev, _, entries) ↦
            let weighed =
              ap (weight length_of) entries
              ∙ weight-append length_of (contents c'.ll) (backwards gone) in
            let small : total length_of c'.ll < half = omega (
              arith,
              weighed,
              weight-contents length_of c.ll,
              weight-contents length_of c'.ll,
              r,
            ) in
            let exact = valid.bytes ∙ modulo (total length_of c'.ll) small in
            (
              c',
              e,
              within c.max_bytes c'.max_bytes c'.nbytes (total length_of c'.ll) p q small ev.max
                  exact ev.within,
              exact,
            )
      ]

  -- A value that was set is found again, unless it was so large that the cache ended empty.
  pub get_value-set :
      (fuel : ℕ) (c : LruCache V) (k : Bytes) (v : V)
      → IsValid length_of c
      → suc (length c.ll) < fuel
      → (c' : LruCache V) × (set length_of fuel c k v ≡ some c')
        × IsValid length_of c'
        × (((get_value c' k).1 ≡ some v) ⊎ (contents c'.ll ≡ []))
  get_value-set fuel c k v h enough =
      let (c', e, valid, cases) = set-Refines length_of fuel c k v h enough in
      let found = (get_value-Refines length_of c' k valid).1 in
      (
        c',
        e,
        valid,
        elim cases [
          | inl (old, held, entries) ↦ inl (found ∙ get_front k v (contents c'.ll) _ entries)
          | inr (_, gone, _, _, entries) ↦
              elim (starts k v (contents c.ll) (contents c'.ll) (backwards gone) entries) [
                | inl p ↦ inl (found ∙ p)
                | inr p ↦ inr p
              ]
        ],
      )

  used_held :
      (k : Bytes) (v : V) (m : List (Bytes × V))
      → get Bytes-discrete k m ≡ some v
      → used k m ≡ (k, v) ∷ delete Bytes-discrete k m
  used_held k v m h = rw h refl

  not_empty : {k : Bytes} {v : V} {m : List (Bytes × V)} → (k, v) ∷ m ≡ [] → ⊥
  not_empty e = cc

  only_entry :
      (k : Bytes) (v : V) (l m r : List (Bytes × V)) (x : Bytes × V)
      → l ≡ (k, v) ∷ m
      → l ≡ r ++ x ∷ []
      → (get Bytes-discrete k r ≡ some v) ⊎ (l ≡ (k, v) ∷ [])
  unfolding get
  only_entry k v l m [] x e f = inr (cc)
  only_entry k v l m ((j, w) ∷ r) x e f = inl (get_front k v ((j, w) ∷ r) r (ground arith))

  -- After Get of a key that is held, RemoveOldest leaves that key with its value, unless it is the
  -- only one.
  pub remove_oldest-get_value :
      (c : LruCache V) (k : Bytes) (v : V)
      → IsValid length_of c
      → get Bytes-discrete k (contents c.ll) ≡ some v
      → (get Bytes-discrete k (contents (remove_oldest length_of (get_value c k).0).ll) ≡ some v)
        ⊎ (contents (get_value c k).0.ll ≡ (k, v) ∷ [])
  remove_oldest-get_value c k v h held =
      let (valid, _, entries) = get_value-Refines length_of c k h in
      let front = entries ∙ used_held k v (contents c.ll) held in
      elim (remove_oldest-cases length_of (get_value c k).0 valid) [
        | inl (empty, _) ↦ absurd (not_empty (sym front ∙ ap contents empty))
        | inr (j, w, d) ↦ only_entry k v _ _ _ (j, w) front d.entries
      ]
