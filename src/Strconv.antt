-- ===== src/Strconv.antt =====
-- The parts of Go's `strconv` and `fmt` packages that the tracer uses: unsigned numbers as digits to
-- a base of 2 to 16, and back into 64 bits. An error of `ParseUint` is `none`.
pub mod RoundTrip
pub mod Digits
use lightstep_tracer_go.Base.Int.{ℤ, pos, negsuc}
use lightstep_tracer_go.Base.{
  ℕ, zero, suc, ◌+◌, ◌-◌, ◌*◌, ◌/◌, ◌%◌, Bool, true, false, ◌&&◌, Option, none, some, List, [], ◌∷◌,
  ltb, leb, if◌then◌else◌, Text, word_mod, lower, int_max, codes, ◌++◌,
}

pub digit_char : ℕ → ℕ
digit_char d = if ltb d 10 then b'0' + d else b'a' + d - 10

unfoldable pub digit_value : ℕ → Option ℕ
unfolding lower
digit_value c =
    if leb b'0' c && leb c b'9'
    then some (c - b'0')
    else if leb b'a' (lower c) && leb (lower c) b'z'
    then some (lower c - b'a' + 10)
    else none

module _ (base : ℕ) where
  pub format_loop : ℕ → ℕ → Text → Text
  format_loop zero n acc = acc
  format_loop (suc fuel) n acc = elim (ltb n base) [
    | true ↦ digit_char n ∷ acc
    | false ↦ format_loop fuel (n / base) (digit_char (n % base) ∷ acc)
  ]

  -- Each digit makes the number smaller.
  pub format_uint : ℕ → Text
  format_uint n = format_loop (suc n) n []

  -- One more digit: it must be one of the base, and the number must stay in 64 bits.
  unfoldable pub push_digit : ℕ → ℕ → Option ℕ
  push_digit n c = elim (digit_value c) [
    | none ↦ none
    | some d ↦ if ltb d base && ltb (n * base + d) word_mod then some (n * base + d) else none
  ]

  unfoldable pub parse_loop : ℕ → Text → Option ℕ
  parse_loop n [] = some n
  parse_loop n (c ∷ s) = elim (push_digit n c) [ none ↦ none | some n' ↦ parse_loop n' s ]

  unfoldable pub parse_uint : Text → Option ℕ
  parse_uint [] = none
  parse_uint (c ∷ s) = parse_loop 0 (c ∷ s)

-- What `%d` prints.
abbrev pub decimal : ℤ → Text
decimal (pos n) = format_uint 10 n
decimal (negsuc n) = codes "-" ++ format_uint 10 (suc n)

-- The `int64` of a bit pattern.
unfoldable pub to_int64 : ℕ → ℤ
to_int64 n = if ltb n int_max then pos n else negsuc (word_mod - n - 1)
