-- ===== src/Int64.antt =====
-- Go's int64, as the bit pattern: a number below 2 ^ 64, in two's complement.
use go_web.Prelude.{ℕ, Bool, ◌+◌, ◌-◌, ◌%◌, ltb, ◌<◌, ◌≡◌, arith}

abbrev pub word : ℕ
word = 18446744073709551616

abbrev pub half : ℕ
half = 9223372036854775808

-- `int64(n)` of a length.
abbrev pub int64 : ℕ → ℕ
int64 n = n % word

abbrev pub add64 : ℕ → ℕ → ℕ
add64 a b = (a + b) % word

abbrev pub sub64 : ℕ → ℕ → ℕ
sub64 a b = (a + word - b % word) % word

-- The signed order.
abbrev pub lt64 : ℕ → ℕ → Bool
lt64 a b = ltb ((a + half) % word) ((b + half) % word)

-- On numbers below 2 ^ 63 it is the order of the natural numbers.
pub lt64_small : (a b : ℕ) → a < half → b < half → lt64 a b ≡ ltb a b
lt64_small a b p q = ground arith

pub add64-sum : (s x : ℕ) → add64 (s % word) x ≡ (s + x) % word
add64-sum s x = omega arith

pub sub64-sum : (s x : ℕ) → sub64 ((s + x) % word) x ≡ s % word
sub64-sum s x = omega arith
