-- ===== src/Strconv/RoundTrip.antt =====
-- `ParseUint` after `FormatUint`.
use native.Mathlib.Nat.{mod-lt, div-add-mod', div-lt_self}
use lightstep_tracer_go.Base.{
  ℕ, ◌<◌, ◌≤◌, Text, ◌≡◌, ◌*◌, word_mod, some, ◌+◌, arith, suc, zero, ◌∷◌, ◌/◌, lt→ltb, dec_lt, ◌%◌,
  ap, le→ltb, ◌∙◌, [], refl,
}
use lightstep_tracer_go.Strconv.{
  digit_char, digit_value, format_loop, format_uint, push_digit, parse_loop, parse_uint,
}

digit_value-digit_char : (d : ℕ) → d < 16 → digit_value (digit_char d) ≡ some d
unfolding digit_value digit_char
digit_value-digit_char d h = ground arith

module _ (base : ℕ) (two_up : 2 ≤ base) (to_sixteen : base ≤ 16) where
  push_digit_lem :
      (n d : ℕ)
      → d < base
      → n * base + d < word_mod
      → push_digit base n (digit_char d) ≡ some (n * base + d)
  unfolding push_digit
  push_digit_lem n d h k = ground (arith, digit_value-digit_char d)

  -- A digit in front of the rest is read first.
  parse_loop-digit :
      (n d : ℕ) (acc : Text)
      → d < base
      → n * base + d < word_mod
      → parse_loop base n (digit_char d ∷ acc) ≡ parse_loop base (n * base + d) acc
  unfolding parse_loop
  parse_loop-digit n d acc h k = rw (push_digit_lem n d h k, parse_loop)

  pub format_loop_small :
      (fuel n : ℕ) (acc : Text) → n < base → format_loop base (suc fuel) n acc ≡ digit_char n ∷ acc
  unfolding format_loop
  format_loop_small fuel n acc h = rw (lt→ltb n base h, format_loop)

  pub format_loop_big :
      (fuel n : ℕ) (acc : Text)
      → base ≤ n
      → format_loop base (suc fuel) n acc
        ≡ format_loop base fuel (n / base) (digit_char (n % base) ∷ acc)
  unfolding format_loop
  format_loop_big fuel n acc h = rw (le→ltb n base h, format_loop)

  pub shrink : (n : ℕ) → base ≤ n → n / base < n
  shrink n h = div-lt_self {n = n} {k = base} (omega arith) (omega arith)

  pub parse_loop-format_loop :
      (fuel n : ℕ) (acc : Text)
      → n < fuel
      → n < word_mod
      → parse_loop base 0 (format_loop base fuel n acc) ≡ parse_loop base n acc
  parse_loop-format_loop zero n acc h k = absurd (omega arith)
  parse_loop-format_loop (suc fuel) n acc h k = elim (dec_lt n base) [
    | yes p ↦
        ap (parse_loop base 0) (format_loop_small fuel n acc p)
        ∙ parse_loop-digit 0 n acc p (omega arith)
        ∙ ap (λ m. parse_loop base m acc) (omega arith)
    | no p ↦
        ap (parse_loop base 0) (format_loop_big fuel n acc (omega arith))
        ∙ parse_loop-format_loop fuel (n / base) (digit_char (n % base) ∷ acc)
            (omega (arith, shrink n (omega arith))) (omega (arith, shrink n (omega arith)))
        ∙ parse_loop-digit (n / base) (n % base) acc (mod-lt n (omega arith))
            (rw (div-add-mod' n base) k)
        ∙ ap (λ m. parse_loop base m acc) (div-add-mod' n base)
  ]

  format_loop-cons :
      (fuel n c : ℕ) (s : Text)
      → (c' : ℕ) × (s' : Text) × (format_loop base fuel n (c ∷ s) ≡ c' ∷ s')
  format_loop-cons zero n c s = (c, s, unfold format_loop in refl)
  format_loop-cons (suc fuel) n c s = elim (dec_lt n base) [
    | yes p ↦ (digit_char n, c ∷ s, format_loop_small fuel n (c ∷ s) p)
    | no p ↦
        let (c', s', e) = format_loop-cons fuel (n / base) (digit_char (n % base)) (c ∷ s) in
        (c', s', format_loop_big fuel n (c ∷ s) (omega arith) ∙ e)
  ]

  pub format_loop-ne-nil :
      (fuel n : ℕ) → (c : ℕ) × (s : Text) × (format_loop base (suc fuel) n [] ≡ c ∷ s)
  format_loop-ne-nil fuel n = elim (dec_lt n base) [
    | yes p ↦ (digit_char n, [], format_loop_small fuel n [] p)
    | no p ↦
        let (c, s, e) = format_loop-cons fuel (n / base) (digit_char (n % base)) [] in
        (c, s, format_loop_big fuel n [] (omega arith) ∙ e)
  ]

  pub parse_uint-cons :
      (t : Text) (c : ℕ) (s : Text) → t ≡ c ∷ s → parse_uint base t ≡ parse_loop base 0 t
  unfolding parse_uint
  parse_uint-cons t c s e = rw e

  -- What `FormatUint` writes to a base of 2 to 16, `ParseUint` reads back to the same base, for every
  -- number of 64 bits.
  pub parse_uint-format_uint :
      (n : ℕ) → n < word_mod → parse_uint base (format_uint base n) ≡ some n
  unfolding format_uint
  parse_uint-format_uint n h =
      let (c, s, e) = format_loop-ne-nil n n in
      parse_uint-cons _ c s e
      ∙ parse_loop-format_loop (suc n) n [] (omega arith) h
      ∙ unfold parse_loop in refl
