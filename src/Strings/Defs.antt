-- ===== src/Strings/Defs.antt =====
-- Strings as lists of bytes, and the functions of Go's package strings with a one-byte argument.
use Prim.Native.Char.{code}
use Prim.Native.String.{String}
use mathlib.Core.Logic.{ite}
use go_web.Prelude.{
  ℕ, Bool, true, false, Option, none, some, List, [], ◌∷◌, ◌++◌, ◌&&◌, ℕ_discrete, holds,
}

abbrev pub Bytes : Type 0
Bytes = List ℕ

unfoldable pub Bytes-discrete : Discrete Bytes
unfolding ℕ_discrete
Bytes-discrete = hlevel ℕ_discrete

-- The bytes of an ASCII literal.
abbrev pub bytes : String → Bytes
bytes String.[] = []
bytes (String.◌∷◌ c s) = code c ∷ bytes s

-- `s[0] == c` and `strings.HasSuffix(s, c)`, for a string that may be empty.
abbrev pub first_is : ℕ → Bytes → Bool
first_is c [] = false
first_is c (b ∷ s) = holds (ℕ_discrete b c)

abbrev pub last_is : ℕ → Bytes → Bool
last_is c [] = false
last_is c (b ∷ []) = holds (ℕ_discrete b c)
last_is c (b ∷ d ∷ s) = last_is c (d ∷ s)

abbrev pub grow_first : ℕ → List Bytes → List Bytes
grow_first c [] = (c ∷ []) ∷ []
grow_first c (s ∷ ss) = (c ∷ s) ∷ ss

-- `strings.Split(s, sep)`: never empty.
unfoldable pub split : ℕ → Bytes → List Bytes
split sep [] = [] ∷ []
split sep (c ∷ s) = let rest = split sep s in ite (ℕ_discrete c sep) ([] ∷ rest) (grow_first c rest)

-- `strings.Join(ss, sep)`.
unfoldable pub join : ℕ → List Bytes → Bytes
join sep [] = []
join sep (s ∷ []) = s
join sep (s ∷ t ∷ ss) = s ++ (sep ∷ join sep (t ∷ ss))

abbrev pub grow_before : ℕ → Option (Bytes × Bytes) → Option (Bytes × Bytes)
grow_before c none = none
grow_before c (some (s, t)) = some (c ∷ s, t)

-- `strings.SplitN(s, sep, 2)`: the two parts, or `none` where it returns `s` alone.
unfoldable pub cut : ℕ → Bytes → Option (Bytes × Bytes)
cut sep [] = none
cut sep (c ∷ s) = let rest = cut sep s in ite (ℕ_discrete c sep) (some ([], s)) (grow_before c rest)

unfoldable pub trim_left : ℕ → Bytes → Bytes
trim_left c [] = []
trim_left c (b ∷ s) = ite (ℕ_discrete b c) (trim_left c s) (b ∷ s)

abbrev pub cons_unless : ℕ → ℕ → Bytes → Bytes
cons_unless c b [] = ite (ℕ_discrete b c) [] (b ∷ [])
cons_unless c b (d ∷ s) = b ∷ d ∷ s

-- `strings.TrimRight(s, c)`.
unfoldable pub trim_right : ℕ → Bytes → Bytes
trim_right c [] = []
trim_right c (b ∷ s) = cons_unless c b (trim_right c s)

-- `strings.Trim(s, c)`.
unfoldable pub trim : ℕ → Bytes → Bytes
unfolding trim_left trim_right
trim c s = trim_left c (trim_right c s)

-- `strings.HasPrefix(s, p)`.
unfoldable pub has_prefix : Bytes → Bytes → Bool
has_prefix s [] = true
has_prefix [] (c ∷ p) = false
has_prefix (b ∷ s) (c ∷ p) = holds (ℕ_discrete b c) && has_prefix s p
