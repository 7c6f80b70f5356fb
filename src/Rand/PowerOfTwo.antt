-- ===== src/Rand/PowerOfTwo.antt =====
-- lightstep/rand/pool.go: `nextNearestPow2uint64` rounds up to a power of two.
use native.Mathlib.Nat.{pow-succ'}
use lightstep_tracer_go.Rand.Bits.{bit, shift, two_to, bit-bit_or, two_to_mono}
use Prim.Native.Nat.{bit_or}
use lightstep_tracer_go.Rand.{smear, next_nearest_pow2_uint64}
use lightstep_tracer_go.Base.{
  sym, ℕ, ◌≤◌, suc, ◌≡◌, ◌+◌, max, ap, arith, ◌<◌, ◌/◌, ap₂, zero, ◌∙◌, min, ◌*◌, refl, ◌%◌, ◌-◌,
  ◌^◌, dec_lt, ◌⊎◌, word_mod, sub64, inr, inl,
}

-- Whether a digit is set among `m` digits from the place `i` on.
abbrev any : ℕ → ℕ → ℕ → ℕ
any x i zero = 0
any x i (suc m) = max (bit x i) (any x (suc i) m)

any-add : (x n m i j k : ℕ) → n + i ≡ j → n + m ≡ k → any x i k ≡ max (any x i n) (any x j m)
any-add x zero m i j k e f =
    let e' : i ≡ j = omega arith in let f' : k ≡ m = omega arith in ap₂ (any x) e' f' ∙ omega arith
any-add x (suc n) m i j zero e f = absurd (omega arith)
any-add x (suc n) m i j (suc k) e f =
    omega (arith, any-add x n m (suc i) j k (omega arith) (omega arith))

shift-shift : (x s i j : ℕ) → s + i ≡ j → shift (shift x s) i ≡ shift x j
shift-shift x zero i j e = let e' : i ≡ j = omega arith in ap (shift x) e'
shift-shift x (suc s) i zero e = absurd (omega arith)
shift-shift x (suc s) i (suc j) e = shift-shift (x / 2) s i j (omega arith)

-- A digit of the smeared number is set where one of the next `s` digits was.
abbrev Smeared : ℕ → ℕ → ℕ → Type 0
Smeared v s x = (i : ℕ) → bit x i ≡ any v i s

smear_step :
    (v s x shifted : ℕ) → shifted ≡ shift x s → Smeared v s x → Smeared v (s + s) (bit_or x shifted)
smear_step v s x shifted e h i =
    let moved : bit shifted i ≡ bit x (s + i) =
      ap (λ (n : ℕ). bit n i) e ∙ ap (λ (n : ℕ). n % 2) (shift-shift x s i (s + i) refl) in
    omega (
      arith,
      bit-bit_or x shifted i,
      moved,
      h i,
      h (s + i),
      any-add v s s i (s + i) (s + s) refl refl,
    )

-- Any digit is set from the place `i` on, unless the number is used up there.
any_all : (m x i : ℕ) → shift x i < two_to m → any x i m ≡ min 1 (shift x i)
any_all zero x i h = omega arith
any_all (suc m) x i h =
    let half : shift x (suc i) ≡ shift x i / 2 = halved x i in
    omega (arith, half, any_all m x (suc i) (omega (arith, half)))
  where
    halved : (x i : ℕ) → shift x (suc i) ≡ shift x i / 2
    halved x zero = refl
    halved x (suc i) = halved (x / 2) i

zero_of_bits : (n r : ℕ) → r ≤ n → ((i : ℕ) → bit r i ≡ 0) → r ≡ 0
zero_of_bits zero r h b = omega arith
zero_of_bits (suc n) zero h b = refl
zero_of_bits (suc n) (suc r) h b =
    let even = b 0 in omega (arith, even, zero_of_bits n (suc r / 2) (omega arith) (λ i. b (suc i)))

-- A number whose digits are set up to the highest one of `x`.
abbrev Ones : ℕ → ℕ → Type 0
Ones x r = (i : ℕ) → bit r i ≡ min 1 (shift x i)

zero-shift : (i : ℕ) → shift 0 i ≡ 0
zero-shift zero = refl
zero-shift (suc i) = zero-shift i

Ones-zero : (r : ℕ) → Ones 0 r → r ≡ 0
Ones-zero r ones = zero_of_bits r r (omega arith) (λ i. ones i ∙ ap (min 1) (zero-shift i))

-- Such a number is one less than the least power of two above `x`.
ones_lem :
    (m x r : ℕ)
    → x < two_to m
    → Ones x r
    → (k : ℕ) × (k ≤ m) × (r + 1 ≡ two_to k) × (x ≤ r) × (r ≤ 2 * x - 1)
ones_lem m zero r h ones =
    (0, omega arith, omega (arith, Ones-zero r ones), omega arith, omega (arith, Ones-zero r ones))
ones_lem zero (suc x) r h ones = absurd (omega arith)
ones_lem (suc m) (suc x) r h ones =
    let (k, le, e, low, high) = ones_lem m (suc x / 2) (r / 2) (omega arith) (λ i. ones (suc i)) in
    let odd = ones 0 in
    (suc k, omega arith, omega (arith, odd), omega (arith, odd), omega (arith, odd))

smeared : ℕ → ℕ
smeared v = smear 32 (smear 16 (smear 8 (smear 4 (smear 2 (smear 1 v)))))

smeared-Ones : (v : ℕ) → v < 2 ^ 64 → Ones v (smeared v)
unfolding smeared
smeared-Ones v h i = all i ∙ any_all 64 v i (omega (arith, shift-le v i))
  where
    s1 : Smeared v 2 (smear 1 v)
    s1 = smear_step v 1 v (v / 2 ^ 1) (omega arith) (λ i. omega arith)

    s2 : Smeared v 4 (smear 2 (smear 1 v))
    s2 = smear_step v 2 _ (smear 1 v / 2 ^ 2) (omega arith) s1

    s3 : Smeared v 8 (smear 4 (smear 2 (smear 1 v)))
    s3 = smear_step v 4 _ (smear 2 (smear 1 v) / 2 ^ 4) (omega arith) s2

    s4 : Smeared v 16 (smear 8 (smear 4 (smear 2 (smear 1 v))))
    s4 = smear_step v 8 _ (smear 4 (smear 2 (smear 1 v)) / 2 ^ 8) (omega arith) s3

    s5 : Smeared v 32 (smear 16 (smear 8 (smear 4 (smear 2 (smear 1 v)))))
    s5 = smear_step v 16 _ (smear 8 (smear 4 (smear 2 (smear 1 v))) / 2 ^ 16) (omega arith) s4

    all : Smeared v 64 (smeared v)
    all =
        smear_step v 32 _ (smear 16 (smear 8 (smear 4 (smear 2 (smear 1 v)))) / 2 ^ 32)
          (omega arith) s5

    shift-le : (v i : ℕ) → shift v i ≤ v
    shift-le v zero = omega arith
    shift-le v (suc i) = omega (arith, shift-le (v / 2) i)

pub two_to-pow : (k : ℕ) → two_to k ≡ 2 ^ k
two_to-pow zero = refl
two_to-pow (suc k) = ap (λ (n : ℕ). 2 * n) (two_to-pow k) ∙ sym (pow-succ' 2 k)

next_unfolded :
    (v : ℕ) → 1 ≤ v → v < 2 ^ 64 → next_nearest_pow2_uint64 v ≡ (smeared (v - 1) + 1) % word_mod
unfolding next_nearest_pow2_uint64 smeared
next_unfolded v pos h =
    let e : sub64 v 1 ≡ v - 1 = omega arith in
    ap (λ (n : ℕ). (smear 32 (smear 16 (smear 8 (smear 4 (smear 2 (smear 1 n))))) + 1) % word_mod) e

-- Above 2 ^ 63 the least power of two is 2 ^ 64.
top_power : (k : ℕ) → k ≤ 64 → 2 ^ 63 < two_to k → two_to k ≡ 2 ^ 64
top_power k le h = elim (dec_lt k 64) [
  | yes low ↦ absurd (omega (arith, two_to_mono k 63 (omega arith)))
  | no high ↦ let e : k ≡ 64 = omega arith in ap two_to e
]

next-zero : next_nearest_pow2_uint64 0 ≡ 0
unfolding next_nearest_pow2_uint64
next-zero = refl

-- `nextNearestPow2uint64` gives the least power of two that is not below its argument, for every argument
-- from 1 to 2 ^ 63. For 0, and for the arguments above, it gives 0.
pub next_nearest_pow2_uint64_lem :
    (v : ℕ)
    → v < 2 ^ 64
    → ((1 ≤ v)
        × (v ≤ 2 ^ 63)
        × (k : ℕ) × (next_nearest_pow2_uint64 v ≡ 2 ^ k)
        × (v ≤ next_nearest_pow2_uint64 v)
        × (next_nearest_pow2_uint64 v < 2 * v))
      ⊎ (((v ≡ 0) ⊎ (2 ^ 63 < v)) × (next_nearest_pow2_uint64 v ≡ 0))
next_nearest_pow2_uint64_lem v h = elim (dec_lt 0 v) [
  | no none ↦
      (let e : v ≡ 0 = omega arith in inr (inl e, ap next_nearest_pow2_uint64 e ∙ next-zero))
  | yes pos ↦
      let (k, le, e, low, high) =
        ones_lem 64 (v - 1) (smeared (v - 1)) (omega arith) (smeared-Ones (v - 1) (omega arith)) in
      let next = next_unfolded v pos h in
      elim (dec_lt (2 ^ 63) v) [
        | yes above ↦ inr (inr above, omega (arith, next, top_power k le (omega arith)))
        | no below ↦
            inl (pos, omega arith, k, omega (arith, next, two_to-pow k), omega arith, omega arith)
      ]
]
