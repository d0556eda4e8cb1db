-- ===== src/Strings/Split.antt =====
-- Splitting and joining are inverse.
use go_web.Prelude.{ℕ, List, [], ◌∷◌, ◌++◌, ◌≡◌, ◌≢◌, refl, none, some, arith, All, ap}
use go_web.Strings.Defs.{Bytes, grow_first, split, join, cut}

-- No byte of the string is the separator.
abbrev pub Lacks : ℕ → Bytes → Type 0
Lacks sep s = All (λ b. b ≢ sep) s

pub split-ne-nil : (sep : ℕ) (s : Bytes) → split sep s ≢ []
unfolding split
split-ne-nil sep [] = cc
split-ne-nil sep (c ∷ s) = ground (arith, split-ne-nil sep s)

split-All : (sep : ℕ) (s : Bytes) → All (Lacks sep) (split sep s)
unfolding split
split-All sep [] = (tt, tt)
split-All sep (c ∷ s) = ground (arith, split-All sep s)

pub split_lacking : (sep : ℕ) (s : Bytes) → Lacks sep s → split sep s ≡ s ∷ []
unfolding split
split_lacking sep [] h = refl
split_lacking sep (c ∷ s) h = ground (arith, split_lacking sep s h.1)

pub split_first :
    (sep : ℕ) (s t : Bytes) → Lacks sep s → split sep (s ++ (sep ∷ t)) ≡ s ∷ split sep t
unfolding split
split_first sep [] t h = ground arith
split_first sep (c ∷ s) t h = ground (arith, split_first sep s t h.1)

-- Joining separator-free parts and splitting again gives them back.
pub split-join :
    (sep : ℕ) (s : Bytes) (ss : List Bytes)
    → All (Lacks sep) (s ∷ ss)
    → split sep (join sep (s ∷ ss)) ≡ s ∷ ss
unfolding join
split-join sep s [] h = split_lacking sep s h.0
split-join sep s (t ∷ ss) h =
    rw (split_first sep s (join sep (t ∷ ss)) h.0) (ap (◌∷◌ s) (split-join sep t ss h.1))

join-grow_first : (sep c : ℕ) (ss : List Bytes) → join sep (grow_first c ss) ≡ c ∷ join sep ss
unfolding join
join-grow_first sep c [] = refl
join-grow_first sep c (s ∷ []) = refl
join-grow_first sep c (s ∷ t ∷ ss) = refl

join-nil_cons : (sep : ℕ) (ss : List Bytes) → ss ≢ [] → join sep ([] ∷ ss) ≡ sep ∷ join sep ss
unfolding join
join-nil_cons sep [] h = absurd (h refl)
join-nil_cons sep (s ∷ ss) h = refl

-- Splitting and joining again gives the string back.
pub join-split : (sep : ℕ) (s : Bytes) → join sep (split sep s) ≡ s
unfolding split
join-split sep [] = unfold join in refl
join-split sep (c ∷ s) = ground (
  arith,
  join-split sep s,
  join-grow_first sep c (split sep s),
  join-nil_cons sep (split sep s) (split-ne-nil sep s),
)

-- The cut falls at the first separator.
pub cut_first : (sep : ℕ) (s t : Bytes) → Lacks sep s → cut sep (s ++ (sep ∷ t)) ≡ some (s, t)
unfolding cut
cut_first sep [] t h = ground arith
cut_first sep (c ∷ s) t h = ground (arith, cut_first sep s t h.1)

pub cut_lacking : (sep : ℕ) (s : Bytes) → Lacks sep s → cut sep s ≡ none
unfolding cut
cut_lacking sep [] h = refl
cut_lacking sep (c ∷ s) h = ground (arith, cut_lacking sep s h.1)
