-- ===== src/Cache/Lfu.antt =====
-- The LFU cache of cache/LFU.go. A list element is named by the entry it holds, since an entry
-- stands in one list at a time; the entries live in a store, as they are shared by pointer. The
-- keys of `freqToList` are the frequencies themselves, not their decimal text.
pub mod Scan
pub mod Links
pub mod Valid
pub mod Evict
pub mod Tests
use go_web.Prelude.{
  ℕ, zero, suc, ◌+◌, Bool, true, false, ◌&&◌, Option, none, some, List, [], ◌∷◌, ◌++◌, get, put,
  delete, maybe, length, get_last?, if◌then◌else◌, ◌==◌, ℕ_discrete,
}
use mathlib.Core.Logic.{ite}
use go_web.Strings.{Bytes, Bytes-discrete}
use go_web.Int64.{int64, add64, sub64, lt64}

-- `LFUEntry`.
pub record LfuEntry (V : Type 0) : Type 0 where
  pub key : Bytes
  pub value : V
  pub freq : ℕ

-- `LFUCache`. `entries` is what the pointers point to, `next` the next new pointer, `evicted` the
-- calls of `OnEvicted`, the latest last.
pub record LfuCache (V : Type 0) : Type 0 where
  pub max_bytes : ℕ
  pub n_bytes : ℕ
  pub min_freq : ℕ
  pub key_to_entry : List (Bytes × ℕ)
  pub freq_to_list : List (ℕ × List ℕ)
  pub entries : List (ℕ × LfuEntry V)
  pub on_evicted : Bool
  pub evicted : List (Bytes × V)
  pub next : ℕ

-- How a call ends. A method of a list that is nil dereferences nil.
pub data Outcome {ℓ} (A : Type ℓ) : Type ℓ where
  done : A → Outcome A
  nil_dereference : Outcome A
  out_of_fuel : Outcome A

infixl 5 ◌>>=◌
abbrev pub ◌>>=◌ {ℓ κ} : {A : Type ℓ} {B : Type κ} → Outcome A → (A → Outcome B) → Outcome B
done a >>= f = f a
nil_dereference >>= f = nil_dereference
out_of_fuel >>= f = out_of_fuel

-- `int64(^uint(0) >> 1)`
abbrev pub max_int64 : ℕ
max_int64 = 9223372036854775807

-- `l.Remove(e)`.
unfoldable pub unlink : ℕ → List ℕ → List ℕ
unlink p [] = []
unlink p (q ∷ l) = ite (ℕ_discrete p q) l (q ∷ unlink p l)

abbrev pub is_empty {ℓ} : {A : Type ℓ} → List A → Bool
is_empty [] = true
is_empty (x ∷ l) = false

-- The loop over `freqToList` in `Del`, from a minimum so far.
unfoldable pub scan : List (ℕ × List ℕ) → ℕ → ℕ
scan [] best = best
scan ((f, l) ∷ m) best = scan m (if lt64 f best then f else best)

-- The minimum that `Del` sets, 0 if no list is left.
unfoldable pub least_freq : List (ℕ × List ℕ) → ℕ
unfolding scan
least_freq m = let best = scan m max_int64 in if best == max_int64 then 0 else best

module _ {V : Type 0} where
  -- `c.freqToList[f]`, with the entry that a pointer points to.
  abbrev pub list_of : LfuCache V → ℕ → Outcome (List ℕ)
  list_of c f = maybe nil_dereference done (get ℕ_discrete f c.freq_to_list)

  abbrev pub load_entry : LfuCache V → ℕ → Outcome (LfuEntry V)
  load_entry c p = maybe nil_dereference done (get ℕ_discrete p c.entries)

  -- The list of a frequency without an element, and whether it is gone.
  abbrev pub without : LfuCache V → ℕ → ℕ → List ℕ → LfuCache V × Bool
  without c f p l =
      let l' = unlink p l in
      if is_empty l'
      then (record c { freq_to_list = delete ℕ_discrete f c.freq_to_list }, true)
      else (record c { freq_to_list = put ℕ_discrete f l' c.freq_to_list }, false)

  -- `newList.PushFront(entry)`, with the list made where there is none.
  abbrev pub push_to : LfuCache V → ℕ → ℕ → LfuCache V
  push_to c f p = record c {
    freq_to_list =
        put ℕ_discrete f (p ∷ maybe [] (λ l. l) (get ℕ_discrete f c.freq_to_list)) c.freq_to_list;
  }

  -- `GetEntry` at an entry that was found.
  unfoldable pub promote : LfuCache V → ℕ → LfuEntry V → List ℕ → LfuCache V
  unfolding unlink
  promote c p e l =
      let (c₁, gone) = without c e.freq p l in
      let c₂ =
        if gone && (c₁.min_freq == e.freq)
        then record c₁ { min_freq = add64 c₁.min_freq 1 }
        else c₁ in
      let freq = add64 e.freq 1 in
      push_to (record c₂ { entries = put ℕ_discrete p (record e { freq = freq }) c₂.entries }) freq
        p

  unfoldable pub get_entry : LfuCache V → Bytes → Outcome (LfuCache V × Option ℕ)
  unfolding promote
  get_entry c key =
      maybe (done (c, none))
        (λ p. do e ← load_entry c p; l ← list_of c e.freq; done (promote c p e l, some p))
        (get Bytes-discrete key c.key_to_entry)

  unfoldable pub get_value : LfuCache V → Bytes → Outcome (LfuCache V × Option V)
  unfolding get_entry
  get_value c key = do
    found ← get_entry c key
    maybe (done (found.0, none)) (λ p. do e ← load_entry found.0 p; done (found.0, some e.value))
        found.1

  unfoldable pub new_lfu : ℕ → Bool → LfuCache V
  new_lfu max on = record {
    max_bytes = max;
    n_bytes = 0;
    min_freq = 1;
    key_to_entry = [];
    freq_to_list = [];
    entries = [];
    on_evicted = on;
    evicted = [];
    next = 0;
  }

  -- `Len`.
  unfoldable pub len : LfuCache V → ℕ
  len c = length c.key_to_entry

module _ {V : Type 0} (length_of : V → ℕ) where
  abbrev pub entry_size : LfuEntry V → ℕ
  entry_size e = length e.key + length_of e.value + 8

  -- What `Del` and `RemoveOldest` do last.
  abbrev pub forget : LfuCache V → LfuEntry V → LfuCache V
  forget c e =
      let c' = record c {
        key_to_entry = delete Bytes-discrete e.key c.key_to_entry;
        n_bytes = sub64 c.n_bytes (entry_size e);
      } in
      if c.on_evicted then record c' { evicted = c.evicted ++ ((e.key, e.value) ∷ []) } else c'

  unfoldable pub remove_oldest : LfuCache V → Outcome (LfuCache V)
  unfolding unlink
  remove_oldest c = do
    l ← list_of c c.min_freq
    maybe (done c) (λ p. do e ← load_entry c p; done (forget (without c c.min_freq p l).0 e))
        (get_last? l)

  unfoldable pub del : LfuCache V → Bytes → Outcome (LfuCache V)
  unfolding unlink least_freq
  del c key =
      maybe (done c)
        (λ p. do
          e ← load_entry c p
          l ← list_of c e.freq
          let (c₁, gone) = without c e.freq p l
          let c₂ =
              if gone && (e.freq == c₁.min_freq)
              then record c₁ { min_freq = least_freq c₁.freq_to_list }
              else c₁
          done (forget c₂ e))
        (get Bytes-discrete key c.key_to_entry)

  -- The loop of `Set`, for a new entry of `size` bytes.
  unfoldable pub make_room : ℕ → LfuCache V → ℕ → Outcome (LfuCache V)
  unfolding remove_oldest
  make_room zero c size = out_of_fuel
  make_room (suc fuel) c size =
      let next = remove_oldest c >>= (λ c'. make_room fuel c' size) in
      if lt64 0 c.max_bytes && lt64 c.max_bytes (add64 c.n_bytes size) then next else done c

  unfoldable pub add_new : LfuCache V → Bytes → V → LfuCache V
  add_new c key v =
      let e : LfuEntry V = record { key = key; value = v; freq = 1 } in
      let c₁ =
        push_to (record c { min_freq = 1; entries = put ℕ_discrete c.next e c.entries }) 1 c.next in
      record c₁ {
        key_to_entry = put Bytes-discrete key c.next c.key_to_entry;
        n_bytes = add64 c.n_bytes (int64 (entry_size e));
        next = suc c.next;
      }

  unfoldable pub overwrite : LfuCache V → ℕ → V → Outcome (LfuCache V)
  overwrite c p v = do
    e ← load_entry c p
    done (record c {
      n_bytes = add64 c.n_bytes (sub64 (int64 (length_of v)) (length_of e.value));
      entries = put ℕ_discrete p (record e { value = v }) c.entries;
    })

  unfoldable pub set : ℕ → LfuCache V → Bytes → V → Outcome (LfuCache V)
  unfolding get_entry make_room add_new overwrite
  set fuel c key v = do
    found ← get_entry c key
    maybe
        (do
          c' ← make_room fuel found.0 (int64 (length key + length_of v + 8))
          done (add_new c' key v))
        (λ p. overwrite found.0 p v) found.1
