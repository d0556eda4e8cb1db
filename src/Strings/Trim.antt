-- ===== src/Strings/Trim.antt =====
-- Trimming leaves a string alone that has nothing to trim.
use mathlib.Core.Logic.{if_pos}
use go_web.Prelude.{ℕ_discrete, ℕ, [], ◌∷◌, ◌++◌, ◌≡◌, refl, arith, false, true}
use go_web.Strings.Defs.{Bytes, first_is, last_is, trim_left, trim_right, trim}

pub trim_right_clean : (c : ℕ) (s : Bytes) → last_is c s ≡ false → trim_right c s ≡ s
unfolding trim_right
trim_right_clean c [] h = refl
trim_right_clean c (b ∷ []) h = ground arith
trim_right_clean c (b ∷ d ∷ s) h = ground (arith, trim_right_clean c (d ∷ s) h)

pub trim_left_clean : (c : ℕ) (s : Bytes) → first_is c s ≡ false → trim_left c s ≡ s
unfolding trim_left
trim_left_clean c [] h = refl
trim_left_clean c (b ∷ s) h = ground arith

-- A suffix of the trimmed byte goes, whatever stands before it.
pub trim_right-snoc : (c : ℕ) (s : Bytes) → trim_right c (s ++ (c ∷ [])) ≡ trim_right c s
unfolding trim_right
trim_right-snoc c [] = ground arith
trim_right-snoc c (b ∷ s) = ground (arith, trim_right-snoc c s)

pub last_is-snoc : (c : ℕ) (s : Bytes) → last_is c (s ++ (c ∷ [])) ≡ true
last_is-snoc c [] = ground arith
last_is-snoc c (b ∷ []) = ground arith
last_is-snoc c (b ∷ d ∷ s) = last_is-snoc c (d ∷ s)

-- Trimming the separator off a path that begins with one, and neither goes on nor ends with one.
pub trim_clean :
    (c b : ℕ) (s : Bytes)
    → first_is c (b ∷ s) ≡ false
    → last_is c (b ∷ s) ≡ false
    → trim c (c ∷ b ∷ s) ≡ b ∷ s
unfolding trim trim_left
trim_clean c b s first last =
    rw (trim_right_clean c (c ∷ b ∷ s) last)
      (rw (if_pos (ℕ_discrete c c) refl) (trim_left_clean c (b ∷ s) first))
