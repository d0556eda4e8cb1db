-- ===== src/Cache/Lfu/Scan.antt =====
-- The scan for the least frequency in Del of the LFU cache (cache/LFU.go).
use go_web.Prelude.{
  ℕ, ◌<◌, ◌≤◌, some, List, [], ◌∷◌, ◌≡◌, ◌≢◌, refl, get, ◌⊎◌, inl, inr, arith, All, ℕ_discrete,
  if◌then◌else◌, Bool-cases, ◌==◌, subst, sym,
}
use go_web.Int64.{half, lt64, lt64_small}
use go_web.Cache.Lfu.{max_int64, scan, least_freq}

-- A number is at most the keys of a map, and is a key, or is the bound it started from.
LeastOf : ℕ → ℕ → List (ℕ × List ℕ) → Type 0
LeastOf n best m =
    (n ≤ best)
    × All (λ x. n ≤ x.0) m
    × ((n ≡ best) ⊎ ((l : List ℕ) × (get ℕ_discrete n m ≡ some l)))

below_step :
    (n f best : ℕ)
    → f < half
    → best < half
    → n ≤ (if lt64 f best then f else best)
    → (n ≤ f) × (n ≤ best)
below_step n f best p q h = ground (arith, lt64_small f best p q)

step_below : (f best : ℕ) → f < half → best < half → (if lt64 f best then f else best) < half
step_below f best p q = ground arith

step_cases :
    (n f best : ℕ) (l : List ℕ) (m : List (ℕ × List ℕ))
    → n ≡ (if lt64 f best then f else best)
    → (n ≡ best) ⊎ ((x : List ℕ) × (get ℕ_discrete n ((f, l) ∷ m) ≡ some x))
unfolding get
step_cases n f best l m e = elim (Bool-cases (lt64 f best)) [
  | inl p ↦ inr (l, ground arith)
  | inr p ↦ inl (ground arith)
]

key_later :
    (n f : ℕ) (l x : List ℕ) (m : List (ℕ × List ℕ))
    → get ℕ_discrete n m ≡ some x
    → (y : List ℕ) × (get ℕ_discrete n ((f, l) ∷ m) ≡ some y)
unfolding get
key_later n f l x m h = elim (ℕ_discrete n f) [
  | yes p ↦ (l, ground arith)
  | no p ↦ (x, ground arith)
]

scan-LeastOf :
    (m : List (ℕ × List ℕ)) (best : ℕ)
    → All (λ x. x.0 < half) m
    → best < half
    → LeastOf (scan m best) best m
unfolding scan LeastOf
scan-LeastOf [] best h b = (omega arith, tt, inl refl)
scan-LeastOf ((f, l) ∷ m) best h b =
    let (below, least, which) =
      scan-LeastOf m (if lt64 f best then f else best) h.1 (step_below f best h.0 b) in
    let (p, q) = below_step _ f best h.0 b below in
    (
      q,
      (p, least),
      elim which [ inl e ↦ step_cases _ f best l m e | inr (x, at) ↦ inr (key_later _ f l x m at) ],
    )

All-half : (m : List (ℕ × List ℕ)) → All (λ x. x.0 < max_int64) m → All (λ x. x.0 < half) m
All-half [] h = tt
All-half ((f, l) ∷ m) h = (omega (arith, h.0), All-half m h.1)

no_reset : (n : ℕ) → n < max_int64 → (if n == max_int64 then 0 else n) ≡ n
no_reset n h = ground arith

is_key :
    (n : ℕ) (m : List (ℕ × List ℕ))
    → n < max_int64
    → (n ≡ max_int64) ⊎ ((l : List ℕ) × (get ℕ_discrete n m ≡ some l))
    → (l : List ℕ) × (get ℕ_discrete n m ≡ some l)
is_key n m h (inl e) = absurd (omega (arith, h, e))
is_key n m h (inr found) = found

-- Unless the map of lists is empty, what Del sets `minFreq` to is the least of its frequencies, if
-- they are below the largest int64, and whatever the order in which the map is visited.
pub least_freq_lem :
    (m : List (ℕ × List ℕ))
    → All (λ x. x.0 < max_int64) m
    → m ≢ []
    → All (λ x. least_freq m ≤ x.0) m × ((l : List ℕ) × (get ℕ_discrete (least_freq m) m ≡ some l))
unfolding least_freq LeastOf
least_freq_lem [] h ne = absurd (ne refl)
least_freq_lem ((f, l) ∷ m) h ne =
    let (_, least, which) =
      scan-LeastOf ((f, l) ∷ m) max_int64 (All-half ((f, l) ∷ m) h) (omega arith) in
    let small : scan ((f, l) ∷ m) max_int64 < max_int64 = omega (arith, least.0, h.0) in
    let same = no_reset (scan ((f, l) ∷ m) max_int64) small in
    (
      subst (λ n. All (λ x. n ≤ x.0) ((f, l) ∷ m)) (sym same) least,
      subst (λ n. (x : List ℕ) × (get ℕ_discrete n ((f, l) ∷ m) ≡ some x)) (sym same)
          (is_key (scan ((f, l) ∷ m) max_int64) ((f, l) ∷ m) small which),
    )
