-- ===== src/Cache/Group/Loads.antt =====
-- Get of a cache group (cache/Group.go): hits, misses, and errors of the data source.
use go_web.Prelude.{
  ℕ, suc, ◌<◌, ◌≡◌, ◌≢◌, refl, sym, ap, ◌∙◌, Option, none, some, List, [], get, length, ◌⊎◌, inl,
  inr, Option-cases, delete-put_new, subst,
}
use mathlib.Core.Logic.{if_neg}
use go_web.Strings.{Bytes, Bytes-discrete}
use go_web.Cache.Lru.{LruCache, get_value}
use go_web.Cache.Lru.Contents.{contents}
use go_web.Cache.Lru.Valid.{IsValid}
use go_web.Cache.Lru.Ops.{used, get_value-Refines, get_value-miss}
use go_web.Cache.Lru.Bounds.{get_value-set}
use go_web.Cache.Group.{
  ByteView, len, strategy, cache_get, cache_set, CacheGroup, Answer, value, error, not_loaded, load,
  get_locally, do_once, group_get,
}

-- What the cache of a group holds, the key used last first.
abbrev pub held : {S : Type 0} → CacheGroup S → List (Bytes × ByteView)
held g = contents (strategy g.cache).ll

module _ {S E : Type 0} (getter : Bytes → S → S × Bytes × Option E) where
  -- A hit returns what is held and does not ask the source.
  Hit : CacheGroup S → Bytes → CacheGroup S → Answer E → Type 0
  Hit g key g' a =
      (v : ByteView) × (get Bytes-discrete key (held g) ≡ some v)
      × (a ≡ value v)
      × (g'.source ≡ g.source)
      × (held g' ≡ used key (held g))

  -- A failing source is asked once, its error is returned, and nothing is cached.
  Failed : CacheGroup S → Bytes → CacheGroup S → Answer E → Type 0
  Failed g key g' a =
      (e : E) × (get Bytes-discrete key (held g) ≡ none)
      × ((getter key g.source).2 ≡ some e)
      × (a ≡ error (not_loaded e))
      × (g'.source ≡ (getter key g.source).0)
      × (held g' ≡ held g)

  -- The bytes of the source are returned, and held from then on unless nothing is held.
  Filled : CacheGroup S → Bytes → CacheGroup S → Answer E → Type 0
  Filled g key g' a =
      (v : ByteView) × (get Bytes-discrete key (held g) ≡ none)
      × ((getter key g.source).2 ≡ none)
      × (v.b ≡ (getter key g.source).1)
      × (a ≡ value v)
      × (g'.source ≡ (getter key g.source).0)
      × ((get Bytes-discrete key (held g') ≡ some v) ⊎ (held g' ≡ []))

  pub Got : CacheGroup S → Bytes → CacheGroup S → Answer E → Type 0
  Got g key g' a =
      IsValid len (strategy g'.cache)
      × (g'.calls ≡ g.calls)
      × (Hit g key g' a ⊎ Failed g key g' a ⊎ Filled g key g' a)

  now_held :
      (c : LruCache ByteView) (v : ByteView) (key : Bytes)
      → IsValid len c
      → ((get_value c key).1 ≡ some v) ⊎ (contents c.ll ≡ [])
      → (get Bytes-discrete key (contents c.ll) ≡ some v) ⊎ (contents c.ll ≡ [])
  now_held c v key valid (inl p) = inl (sym (get_value-Refines len c key valid).1 ∙ p)
  now_held c v key valid (inr p) = inr p

  -- The cases of `Get` for a key that is not empty and not in flight, on a group whose cache is
  -- valid, with fuel for its entries: a hit, an error of the source, or a value that is loaded and
  -- held from then on, unless it is so large that the cache ends empty. The cache stays valid and
  -- no call stays registered.
  pub group_get-Got :
      (fuel : ℕ) (g : CacheGroup S) (key : Bytes)
      → IsValid len (strategy g.cache)
      → key ≢ []
      → get Bytes-discrete key g.calls ≡ none
      → suc (length (strategy g.cache).ll) < fuel
      → (g' : CacheGroup S) × (a : Answer E) × (group_get getter fuel g key ≡ some (g', a))
        × Got g key g' a
  unfolding group_get load do_once get_locally cache_get cache_set Got Hit Failed Filled
  group_get-Got fuel g key h ne idle enough =
      let c = strategy g.cache in
      let (valid, result, entries) = get_value-Refines len c key h in
      let calls = delete-put_new Bytes-discrete key tt g.calls idle in
      elim (Option-cases (get_value c key).1) [
        | inr (v, p) ↦
            rw (if_neg (Bytes-discrete key []) ne)
              (rw p (_, value v, refl, (valid, refl, inl (v, sym result ∙ p, refl, refl, entries))))
        | inl p ↦
            let gone = sym result ∙ p in
            let kept = get_value-miss len c key h p in
            rw (if_neg (Bytes-discrete key []) ne) (
              rw p (
                rw idle elim (Option-cases (getter key g.source).2) [
                  | inr (e, q) ↦ rw q (
                    _,
                    error (not_loaded e),
                    refl,
                    (
                      valid,
                      calls,
                      inr (
                          inl (
                            e,
                            gone,
                            refl,
                            refl,
                            refl,
                            ap (λ (x : LruCache ByteView). contents x.ll) kept,
                          )),
                    ),
                  )
                  | inl q ↦
                      let v : ByteView = record { b = (getter key g.source).1 } in
                      let (c', done, valid', after) =
                        get_value-set len fuel (get_value c key).0 key v valid (
                          subst (λ (x : LruCache ByteView). suc (length x.ll) < fuel) (sym kept)
                            enough) in
                      rw q (
                        rw done (
                          _,
                          value v,
                          refl,
                          (
                            valid',
                            calls,
                            inr (
                                inr (
                                  v,
                                  gone,
                                  refl,
                                  refl,
                                  refl,
                                  refl,
                                  now_held c' v key valid' after,
                                )),
                          ),
                        ))
                ]))
      ]
