-- ===== src/Cache/Lru/Fresh.antt =====
-- What the LRU cache (cache/LRU.go) holds after any calls: never a value that has been overwritten
-- or deleted.
use mathlib.Core.Logic.{ite}
use go_web.Prelude.{
  ℕ, ◌+◌, Bool, Option, none, some, List, [], ◌∷◌, ◌++◌, ◌≡◌, refl, sym, ap, get, maybe, length,
  arith, ◌∙◌, inl, inr, backwards, get-delete, Option-cases,
}
use go_web.Strings.{Bytes, Bytes-discrete}
use go_web.Cache.Lru.{LruCache, new_lru, get_value, set, del}
use go_web.Cache.Lru.Contents.{contents}
use go_web.Cache.Lru.Valid.{IsValid, new_lru-IsValid}
use go_web.Cache.Lru.Ops.{used, get_value-Refines}
use go_web.Cache.Lru.Sets.{set-Refines, del-Refines}

-- A call of a method.
pub data Op (V : Type 0) : Type 0 where
  get_op : Bytes → Op V
  set_op : Bytes → V → Op V
  del_op : Bytes → Op V

module _ {V : Type 0} where
  -- The map that the calls describe, with no bound and no eviction.
  abbrev pub step_map : Op V → (Bytes → Option V) → Bytes → Option V
  step_map (get_op k) m j = m j
  step_map (set_op k v) m j = ite (Bytes-discrete j k) (some v) (m j)
  step_map (del_op k) m j = ite (Bytes-discrete j k) none (m j)

  unfoldable pub latest : List (Op V) → (Bytes → Option V) → Bytes → Option V
  latest [] m = m
  latest (op ∷ ops) m = latest ops (step_map op m)

  get-used :
      (k j : Bytes) (m : List (Bytes × V))
      → get Bytes-discrete j (used k m) ≡ get Bytes-discrete j m
  unfolding get
  get-used k j m = elim (Option-cases (get Bytes-discrete k m)) [
    | inl e ↦ rw e refl
    | inr (v, e) ↦ rw e (ground (arith, get-delete Bytes-discrete k j m))
  ]

  get-append :
      (j : Bytes) (v : V) (m n : List (Bytes × V))
      → get Bytes-discrete j m ≡ some v
      → get Bytes-discrete j (m ++ n) ≡ some v
  unfolding get
  get-append j v [] n e = cc
  get-append j v ((k, w) ∷ m) n e = ground (arith, get-append j v m n)

  -- What an association list holds is what a map says.
  abbrev IsFresh : List (Bytes × V) → (Bytes → Option V) → Type 0
  IsFresh l m = (j : Bytes) (v : V) → get Bytes-discrete j l ≡ some v → m j ≡ some v

  module _ (length_of : V → ℕ) where
    -- A call on the cache, with fuel for its entries.
    unfoldable pub run_op : LruCache V → Op V → Option (LruCache V)
    run_op c (get_op k) = some (get_value c k).0
    run_op c (set_op k v) = set length_of (length c.ll + 2) c k v
    run_op c (del_op k) = some (del length_of c k)

    unfoldable pub run_ops : LruCache V → List (Op V) → Option (LruCache V)
    unfolding run_op
    run_ops c [] = some c
    run_ops c (op ∷ ops) = maybe none (λ c'. run_ops c' ops) (run_op c op)

    run_op-IsFresh :
        (c : LruCache V) (op : Op V) (m : Bytes → Option V)
        → IsValid length_of c
        → IsFresh (contents c.ll) m
        → (c' : LruCache V) × (run_op c op ≡ some c')
          × IsValid length_of c'
          × IsFresh (contents c'.ll) (step_map op m)
    unfolding run_op get
    run_op-IsFresh c (get_op k) m h fresh =
        let (valid, _, same) = get_value-Refines length_of c k h in
        (
          (get_value c k).0,
          refl,
          valid,
          λ j v e.
              fresh j v
                (sym (get-used k j (contents c.ll)) ∙ ap (get Bytes-discrete j) (sym same) ∙ e),
        )
    run_op-IsFresh c (del_op k) m h fresh =
        let (valid, same, _) = del-Refines length_of c k h in
        (
          del length_of c k,
          refl,
          valid,
          λ j v e.
              let there = ap (get Bytes-discrete j) (sym same) ∙ e in
              ground (arith, there, get-delete Bytes-discrete k j (contents c.ll), fresh j v),
        )
    run_op-IsFresh c (set_op k v) m h fresh =
        let (c', e, valid, result) =
          set-Refines length_of (length c.ll + 2) c k v h (omega arith) in
        (
          c',
          e,
          valid,
          elim result [
            | inl (old, _, same) ↦ λ j w e'.
                let there = ap (get Bytes-discrete j) (sym same) ∙ e' in
                ground (arith, there, get-delete Bytes-discrete k j (contents c.ll), fresh j w)
            | inr (_, gone, _, _, same) ↦ λ j w e'.
                let there =
                  ap (get Bytes-discrete j) same
                  ∙ get-append j w (contents c'.ll) (backwards gone) e' in
                ground (arith, there, fresh j w)
          ],
        )

    run_ops-IsFresh :
        (ops : List (Op V)) (c : LruCache V) (m : Bytes → Option V)
        → IsValid length_of c
        → IsFresh (contents c.ll) m
        → (c' : LruCache V) × (run_ops c ops ≡ some c')
          × IsValid length_of c'
          × IsFresh (contents c'.ll) (latest ops m)
    unfolding run_ops latest
    run_ops-IsFresh [] c m h fresh = (c, refl, h, fresh)
    run_ops-IsFresh (op ∷ ops) c m h fresh =
        let (c₁, e, valid, fresh₁) = run_op-IsFresh c op m h fresh in
        let (c₂, e', valid', fresh₂) = run_ops-IsFresh ops c₁ (step_map op m) valid fresh₁ in
        (c₂, rw e e', valid', fresh₂)

    -- Any calls of Get, Set and Del on a new cache end in a valid cache, and a value that Get then
    -- returns is the one that was set last under the key and has not been deleted since.
    pub get_value-latest :
        (max : ℕ) (on : Bool) (ops : List (Op V))
        → (c : LruCache V) × (run_ops (new_lru max on) ops ≡ some c)
          × IsValid length_of c
          × ((k : Bytes) (v : V) → (get_value c k).1 ≡ some v → latest ops (λ j. none) k ≡ some v)
    unfolding new_lru get
    get_value-latest max on ops =
        let (c, e, valid, fresh) =
          run_ops-IsFresh ops (new_lru max on) (λ j. none) (new_lru-IsValid length_of max on)
            (λ j v e. cc) in
        (c, e, valid, λ k v held. fresh k v (sym (get_value-Refines length_of c k valid).1 ∙ held))
