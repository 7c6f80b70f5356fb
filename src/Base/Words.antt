-- ===== src/Base/Words.antt =====
-- 64-bit words. A word is a number below 2 ^ 64; an `int64` or an `int` is its two's complement
-- pattern, so that sums and differences of either sign are the same operation on the pattern.
use Prim.Native.Nat.{ℕ, ◌+◌, ◌-◌, ◌%◌, ◌^◌}

abbrev pub word_mod : ℕ
word_mod = 2 ^ 64

-- The number of values of an `int64` that are not negative.
abbrev pub int_max : ℕ
int_max = 2 ^ 63

abbrev pub add64 : ℕ → ℕ → ℕ
add64 a b = (a + b) % word_mod

abbrev pub sub64 : ℕ → ℕ → ℕ
sub64 a b = (a + word_mod - b) % word_mod
