-- ===== src/Cache/Lru/Evict.antt =====
-- Eviction in the LRU cache (cache/LRU.go): RemoveOldest, Del and the loop at the end of Set.
use go_web.Prelude.{
  ℕ, zero, suc, ◌<◌, ◌+◌, Bool, true, false, none, some, List, [], ◌∷◌, ◌++◌, ◌≡◌, refl, sym, ap,
  delete, length, arith, ◌∙◌, maybe_case, ◌⊎◌, inl, inr, Bool-cases, if◌then◌else◌, append_assoc,
  backwards, append-nil, length-append, ◌%◌, ◌&&◌,
}
use go_web.Strings.{Bytes, Bytes-discrete}
use go_web.Int64.{word, sub64, lt64}
use go_web.Cache.Linked.{remove, back}
use go_web.Cache.Lru.{Entry, LruCache, call_evicted, drop_element, remove_oldest, over, evict, size}
use go_web.Cache.Lru.Contents.{contents, Distinct, total, back-value_of}
use go_web.Cache.Lru.Valid.{IsValid, remove_oldest-IsValid}

empty_within : (m n : ℕ) → n ≡ 0 → (lt64 0 m && lt64 m n) ≡ false
empty_within m n e = ground arith

module _ {V : Type 0} where
  remove-back :
      (l : List (ℕ × Entry V)) (i : ℕ) (e : Entry V)
      → Distinct l
      → back l ≡ some (i, e)
      → l ≡ remove i l ++ (i, e) ∷ []
  unfolding delete
  remove-back [] i e d h = cc
  remove-back ((j, f) ∷ []) i e d h = ground arith
  remove-back ((j, f) ∷ x ∷ l) i e d h =
      ground (arith, remove-back (x ∷ l) i e d.2, back-value_of (x ∷ l) i e d.2)

  contents-append : (l m : List (ℕ × Entry V)) → contents (l ++ m) ≡ contents l ++ contents m
  contents-append [] m = refl
  contents-append ((i, e) ∷ l) m = ap (λ x. (e.key, e.value) ∷ x) (contents-append l m)

  -- The callback leaves the rest of the cache.
  pub call_evicted-kept :
      (c : LruCache V) (k : Bytes) (v : V)
      → ((call_evicted c k v).ll ≡ c.ll)
        × ((call_evicted c k v).max_bytes ≡ c.max_bytes)
        × ((call_evicted c k v).on_evicted ≡ c.on_evicted)
        × ((call_evicted c k v).evicted
            ≡ (if c.on_evicted then c.evicted ++ (k, v) ∷ [] else c.evicted))
  call_evicted-kept c k v = elim (Bool-cases c.on_evicted) [
    | inl p ↦ rw p (refl, refl, refl, refl)
    | inr p ↦ rw p (refl, refl, refl, refl)
  ]

  -- The second cache has lost the last entry of the first, that of `k`, and has reported it.
  pub record Dropped (c c' : LruCache V) (k : Bytes) (v : V) : Type 0 where
    pub entries : contents c.ll ≡ contents c'.ll ++ (k, v) ∷ []
    pub count : length c.ll ≡ suc (length c'.ll)
    pub max : c'.max_bytes ≡ c.max_bytes
    pub callback : c'.on_evicted ≡ c.on_evicted
    pub log : c'.evicted ≡ (if c.on_evicted then c.evicted ++ (k, v) ∷ [] else c.evicted)

  back-none : (l : List (ℕ × Entry V)) → back l ≡ none → l ≡ []
  back-none [] h = refl
  back-none ((i, e) ∷ []) h = cc
  back-none ((i, e) ∷ x ∷ l) h = absurd (last_of x l h)
    where
      last_of : (x : ℕ × Entry V) (l : List (ℕ × Entry V)) → ¬ (back (x ∷ l) ≡ none)
      last_of x [] h = cc
      last_of x (y ∷ l) h = last_of y l h

  -- The first cache has become the second by losing the entries `gone`, oldest first.
  pub record Evicted (c c' : LruCache V) (gone : List (Bytes × V)) : Type 0 where
    pub entries : contents c.ll ≡ contents c'.ll ++ backwards gone
    pub log : c'.evicted ≡ (if c.on_evicted then c.evicted ++ gone else c.evicted)
    pub max : c'.max_bytes ≡ c.max_bytes
    pub callback : c'.on_evicted ≡ c.on_evicted
    pub within : (lt64 0 c'.max_bytes && lt64 c'.max_bytes c'.nbytes) ≡ false

  log_step :
      (b : Bool) (x y z : List (Bytes × V)) (p : Bytes × V) (gone : List (Bytes × V))
      → y ≡ (if b then x ++ p ∷ [] else x)
      → z ≡ (if b then y ++ gone else y)
      → z ≡ (if b then x ++ p ∷ gone else x)
  log_step true x y z p gone h h' = h' ∙ ap (λ l. l ++ gone) h ∙ append_assoc x (p ∷ []) gone
  log_step false x y z p gone h h' = h' ∙ h

  log_none : (b : Bool) {x : List (Bytes × V)} → x ≡ (if b then x ++ [] else x)
  log_none true {x} = sym (append-nil x)
  log_none false = refl

  Evicted-Dropped :
      (c c₁ c' : LruCache V) (k : Bytes) (v : V) (gone : List (Bytes × V))
      → Dropped c c₁ k v
      → Evicted c₁ c' gone
      → Evicted c c' ((k, v) ∷ gone)
  Evicted-Dropped c c₁ c' k v gone d h = record {
    entries =
        d.entries
        ∙ ap (λ l. l ++ (k, v) ∷ []) h.entries
        ∙ append_assoc (contents c'.ll) (backwards gone) ((k, v) ∷ []);
    log =
        log_step c.on_evicted c.evicted c₁.evicted c'.evicted (k, v) gone d.log
          (h.log ∙ ap (λ b. if b then c₁.evicted ++ gone else c₁.evicted) d.callback);
    max = h.max ∙ d.max;
    callback = h.callback ∙ d.callback;
    within = h.within;
  }

  over_both : (c : LruCache V) → over c ≡ true → over c ≡ false → ⊥
  over_both c p q = cc

  module _ (length_of : V → ℕ) where
    -- The bytes of entries.
    abbrev pub weight : List (Bytes × V) → ℕ
    weight [] = 0
    weight ((k, v) ∷ m) = length k + length_of v + weight m

    pub weight-contents : (l : List (ℕ × Entry V)) → weight (contents l) ≡ total length_of l
    weight-contents [] = refl
    weight-contents ((i, e) ∷ l) = omega (arith, weight-contents l)

    pub weight-append : (a b : List (Bytes × V)) → weight (a ++ b) ≡ weight a + weight b
    weight-append [] b = omega arith
    weight-append ((k, v) ∷ a) b = omega (arith, weight-append a b)

    -- Each of the entries `gone`, oldest first, had to go: with it and those behind it, what is kept
    -- takes more than `max` bytes.
    abbrev pub Needed : ℕ → List (Bytes × V) → List (Bytes × V) → Type 0
    Needed max kept [] = Unit
    Needed max kept (x ∷ gone) =
        ((lt64 0 max && lt64 max (weight (kept ++ backwards (x ∷ gone)) % word)) ≡ true)
        × Needed max kept gone

    over-Needed :
        (c c' : LruCache V) (x : Bytes × V) (gone : List (Bytes × V))
        → IsValid length_of c
        → over c ≡ true
        → contents c.ll ≡ contents c'.ll ++ backwards (x ∷ gone)
        → c'.max_bytes ≡ c.max_bytes
        → Needed c'.max_bytes (contents c'.ll) gone
        → Needed c'.max_bytes (contents c'.ll) (x ∷ gone)
    over-Needed c c' x gone h p entries max needed =
        let bytes : weight (contents c'.ll ++ backwards (x ∷ gone)) % word ≡ c.nbytes =
          ap (λ l. weight l % word) (sym entries)
          ∙ ap (λ n. n % word) (weight-contents c.ll)
          ∙ sym h.bytes in
        (
          ap (λ b. lt64 0 c'.max_bytes && lt64 c'.max_bytes b) bytes
              ∙ ap (λ m. lt64 0 m && lt64 m c.nbytes) max
              ∙ p,
          needed,
        )

    empty-over : (c : LruCache V) → IsValid length_of c → c.ll ≡ [] → over c ≡ false
    empty-over c h e =
        empty_within c.max_bytes c.nbytes (h.bytes ∙ ap (λ l. total length_of l % word) e)

    drop_element-Dropped :
        (c : LruCache V) (i : ℕ) (e : Entry V)
        → Distinct c.ll
        → back c.ll ≡ some (i, e)
        → Dropped c (drop_element length_of c i e) e.key e.value
    unfolding drop_element
    drop_element-Dropped c i e d h =
        let kept =
          call_evicted-kept
            (record c {
              nbytes = sub64 c.nbytes (size length_of e);
              ll = remove i c.ll;
              key_to_entry = delete Bytes-discrete e.key c.key_to_entry;
            })
            e.key e.value in
        let whole = remove-back c.ll i e d h in
        record {
          entries =
              ap contents whole
              ∙ contents-append (remove i c.ll) ((i, e) ∷ [])
              ∙ ap (λ l. contents l ++ (e.key, e.value) ∷ []) (sym kept.0);
          count =
              ap length whole
              ∙ length-append (remove i c.ll) ((i, e) ∷ [])
              ∙ omega (arith, ap length kept.0);
          max = kept.1;
          callback = kept.2;
          log = kept.3;
        }

    -- `RemoveOldest` takes the last entry and reports it; an empty cache stays as it is.
    pub remove_oldest-cases :
        (c : LruCache V)
        → IsValid length_of c
        → ((c.ll ≡ []) × (remove_oldest length_of c ≡ c))
          ⊎ ((k : Bytes) × (v : V) × Dropped c (remove_oldest length_of c) k v)
    unfolding remove_oldest
    remove_oldest-cases c h =
        maybe_case (λ c'. ((c.ll ≡ []) × (c' ≡ c)) ⊎ ((k : Bytes) × (v : V) × Dropped c c' k v))
          (back c.ll) (λ p. inl (back-none c.ll p, refl))
          (λ ie p. inr (ie.1.key, ie.1.value, drop_element-Dropped c ie.0 ie.1 h.distinct p))

    -- The loop of `Set`: it ends with what `evict_total` says, and no entry goes in vain.
    pub evict-Needed :
        (fuel : ℕ) (c : LruCache V)
        → IsValid length_of c
        → length c.ll < fuel
        → (c' : LruCache V) × (gone : List (Bytes × V)) × (evict length_of fuel c ≡ some c')
          × IsValid length_of c'
          × Evicted c c' gone
          × Needed c'.max_bytes (contents c'.ll) gone
    unfolding evict
    evict-Needed zero c h enough = absurd (omega (arith, enough))
    evict-Needed (suc fuel) c h enough = elim (Bool-cases (over c)) [
      | inl p ↦ elim (remove_oldest-cases c h) [
        | inl (empty, _) ↦ absurd (over_both c p (empty-over c h empty))
        | inr (k, v, d) ↦
            let (c', gone, e, valid, ev, needed) =
              evict-Needed fuel (remove_oldest length_of c) (remove_oldest-IsValid length_of c h)
                (omega (arith, enough, d.count)) in
            let whole = Evicted-Dropped c _ c' k v gone d ev in
            (
              c',
              (k, v) ∷ gone,
              rw p e,
              valid,
              whole,
              over-Needed c c' (k, v) gone h p whole.entries whole.max needed,
            )
      ]
      | inr p ↦ (
        c,
        [],
        rw p refl,
        h,
        record {
          entries = sym (append-nil _);
          log = log_none c.on_evicted;
          max = refl;
          callback = refl;
          within = p;
        },
        tt,
      )
    ]

    -- The loop of `Set`, on a valid cache: with more fuel than elements it ends within the bound; what
    -- is gone are the entries used longest ago, and the callback has seen them in that order.
    pub evict_total :
        (fuel : ℕ) (c : LruCache V)
        → IsValid length_of c
        → length c.ll < fuel
        → (c' : LruCache V) × (gone : List (Bytes × V)) × (evict length_of fuel c ≡ some c')
          × IsValid length_of c'
          × Evicted c c' gone
    evict_total fuel c h enough =
        let (c', gone, e, valid, ev, _) = evict-Needed fuel c h enough in (c', gone, e, valid, ev)
