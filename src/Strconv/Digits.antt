-- ===== src/Strconv/Digits.antt =====
-- How many digits `FormatUint` writes, and its last one.
use native.Mathlib.Nat.{pow-suc}
use lightstep_tracer_go.Base.{
  ℕ, Text, ◌++◌, ◌<◌, ◌≤◌, suc, ◌^◌, ◌≡◌, ◌/◌, ◌∷◌, length, Bool-cases, ltb, ◌+◌, arith, ◌%◌, inl,
  ap, ◌∙◌, inr, zero, refl, dec_lt, word_mod, [], some,
}
use lightstep_tracer_go.Strconv.{digit_char, format_loop, format_uint, parse_loop, parse_uint}
use lightstep_tracer_go.Strconv.RoundTrip.{
  format_loop_small, format_loop_big, parse_loop-format_loop, parse_uint-cons, format_loop-ne-nil,
}

-- What stands behind the digits stays.
format_loop-append :
    (fuel n : ℕ) (s t : Text) → format_loop 16 fuel n (s ++ t) ≡ format_loop 16 fuel n s ++ t
unfolding format_loop
format_loop-append zero n s t = refl
format_loop-append (suc fuel) n s t = elim (Bool-cases (ltb n 16)) [
  | inl e ↦ rw (e, format_loop)
  | inr e ↦ rw (e, format_loop) (format_loop-append fuel (n / 16) (digit_char (n % 16) ∷ s) t)
]

small : (fuel n : ℕ) (acc : Text) → n < 16 → format_loop 16 (suc fuel) n acc ≡ digit_char n ∷ acc
small = format_loop_small 16 (omega arith) (omega arith)

big :
    (fuel n : ℕ) (acc : Text)
    → 16 ≤ n
    → format_loop 16 (suc fuel) n acc ≡ format_loop 16 fuel (n / 16) (digit_char (n % 16) ∷ acc)
big = format_loop_big 16 (omega arith) (omega arith)

pos_pow : (k : ℕ) → 1 ≤ 16 ^ k
pos_pow zero = omega arith
pos_pow (suc k) = omega (arith, pow-suc 16 k, pos_pow k)

length-format_loop :
    (k fuel n : ℕ) (acc : Text)
    → n < fuel
    → 16 ^ k ≤ n
    → n < 16 ^ suc k
    → length (format_loop 16 fuel n acc) ≡ suc k + length acc
length-format_loop k zero n acc h lo hi = absurd (omega arith)
length-format_loop zero (suc fuel) n acc h lo hi =
    ap length (small fuel n acc (omega arith)) ∙ omega arith
length-format_loop (suc k) (suc fuel) n acc h lo hi =
    ap length (big fuel n acc (omega (arith, pow-suc 16 k, pos_pow k)))
    ∙ length-format_loop k fuel (n / 16) (digit_char (n % 16) ∷ acc)
        (omega (arith, pow-suc 16 k, pos_pow k)) (omega (arith, pow-suc 16 k))
        (omega (arith, pow-suc 16 k, pow-suc 16 (suc k)))
    ∙ omega arith

length-format_loop-le :
    (k fuel n : ℕ) (acc : Text)
    → n < fuel
    → n < 16 ^ suc k
    → length (format_loop 16 fuel n acc) ≤ suc k + length acc
length-format_loop-le k zero n acc h hi = absurd (omega arith)
length-format_loop-le zero (suc fuel) n acc h hi =
    omega (arith, ap length (small fuel n acc (omega arith)))
length-format_loop-le (suc k) (suc fuel) n acc h hi = elim (dec_lt n 16) [
  | yes p ↦ omega (arith, ap length (small fuel n acc p))
  | no p ↦ omega (
    arith,
    ap length (big fuel n acc (omega arith)),
    length-format_loop-le k fuel (n / 16) (digit_char (n % 16) ∷ acc) (omega arith)
        (omega (arith, pow-suc 16 k, pow-suc 16 (suc k))),
  )
]

-- A number of 64 bits has at most 16 hexadecimal digits, and 16 exactly if its first digit is not 0.
pub length-format_uint :
    (n : ℕ)
    → n < word_mod
    → (length (format_uint 16 n) ≤ 16) × (2 ^ 60 ≤ n → length (format_uint 16 n) ≡ 16)
unfolding format_uint
length-format_uint n h = (
  length-format_loop-le 15 (suc n) n [] (omega arith) h,
  λ k. length-format_loop 15 (suc n) n [] (omega arith) k h,
)

-- All digits but the last one are those of a sixteenth of the number, and are read back as that.
pub format_uint-init :
    (n : ℕ)
    → n < word_mod
    → 2 ^ 60 ≤ n
    → (init : Text) × (format_uint 16 n ≡ init ++ (digit_char (n % 16) ∷ []))
      × (length init ≡ 15)
      × (parse_uint 16 init ≡ some (n / 16))
unfolding format_uint
format_uint-init zero h k = absurd (omega arith)
format_uint-init (suc m) h k =
    let n = suc m in
    (
      format_loop 16 n (n / 16) [],
      big n n [] (omega arith) ∙ format_loop-append n (n / 16) [] (digit_char (n % 16) ∷ []),
      length-format_loop 14 n (n / 16) [] (omega arith) (omega arith) (omega arith),
      (let (c, s, e) = format_loop-ne-nil 16 (omega arith) (omega arith) m (n / 16) in
          parse_uint-cons 16 (omega arith) (omega arith) _ c s e
          ∙ parse_loop-format_loop 16 (omega arith) (omega arith) n (n / 16) [] (omega arith)
              (omega arith)
          ∙ unfold parse_loop in refl),
    )
