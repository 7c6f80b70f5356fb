-- ===== src/Rand/Bits.antt =====
-- The binary digits of a number, and `bit_or` and `bit_and` by them.
use Prim.Native.Nat.{bit_and, bit_or, bit_or-bitwise, bit_and-bitwise, digits, suc, min, max}
use lightstep_tracer_go.Base.{
  ℕ, ◌≡◌, ◌≤◌, suc, ◌%◌, ◌-◌, min, ◌*◌, ◌/◌, max, arith, ◌+◌, ap, zero, refl, ◌∙◌,
}

-- `a >> i`, one digit at a time.
abbrev pub shift : ℕ → ℕ → ℕ
shift a zero = a
shift a (suc i) = shift (a / 2) i

abbrev pub bit : ℕ → ℕ → ℕ
bit a i = shift a i % 2

-- What is left of the count of digits does not matter, once it suffices for the first number.
or_count : (n m a b : ℕ) → a ≤ n → a ≤ m → digits (λ b. b) max n a b ≡ digits (λ b. b) max m a b
or_count zero zero a b p q = refl
or_count zero (suc m) zero b p q = refl
or_count zero (suc m) (suc a) b p q = absurd (omega arith)
or_count (suc n) zero zero b p q = refl
or_count (suc n) zero (suc a) b p q = absurd (omega arith)
or_count (suc n) (suc m) zero b p q = refl
or_count (suc n) (suc m) (suc a) b p q =
    omega (arith, or_count n m (suc a / 2) (b / 2) (omega arith) (omega arith))

bit_or_step : (a b : ℕ) → bit_or a b ≡ bit_or (a / 2) (b / 2) * 2 + max (a % 2) (b % 2)
bit_or_step zero b = omega (arith, bit_or-bitwise 0 b, bit_or-bitwise 0 (b / 2))
bit_or_step (suc a) b = omega (
  arith,
  bit_or-bitwise (suc a) b,
  bit_or-bitwise (suc a / 2) (b / 2),
  or_count a (suc a / 2) (suc a / 2) (b / 2) (omega arith) (omega arith),
)

and_count : (n m a b : ℕ) → a ≤ n → a ≤ m → digits (λ b. 0) min n a b ≡ digits (λ b. 0) min m a b
and_count zero zero a b p q = refl
and_count zero (suc m) zero b p q = refl
and_count zero (suc m) (suc a) b p q = absurd (omega arith)
and_count (suc n) zero zero b p q = refl
and_count (suc n) zero (suc a) b p q = absurd (omega arith)
and_count (suc n) (suc m) zero b p q = refl
and_count (suc n) (suc m) (suc a) b p q =
    omega (arith, and_count n m (suc a / 2) (b / 2) (omega arith) (omega arith))

bit_and_step : (a b : ℕ) → bit_and a b ≡ bit_and (a / 2) (b / 2) * 2 + min (a % 2) (b % 2)
bit_and_step zero b = omega (arith, bit_and-bitwise 0 b, bit_and-bitwise 0 (b / 2))
bit_and_step (suc a) b = omega (
  arith,
  bit_and-bitwise (suc a) b,
  bit_and-bitwise (suc a / 2) (b / 2),
  and_count a (suc a / 2) (suc a / 2) (b / 2) (omega arith) (omega arith),
)

pub bit-bit_or : (a b i : ℕ) → bit (bit_or a b) i ≡ max (bit a i) (bit b i)
bit-bit_or a b zero = omega (arith, bit_or_step a b)
bit-bit_or a b (suc i) =
    ap (λ (n : ℕ). bit n i) (omega (arith, bit_or_step a b)) ∙ bit-bit_or (a / 2) (b / 2) i

-- The powers of two, in the form in which proofs by induction meet them.
abbrev pub two_to : ℕ → ℕ
two_to zero = 1
two_to (suc k) = 2 * two_to k

pub two_to_pos : (k : ℕ) → 1 ≤ two_to k
two_to_pos zero = omega arith
two_to_pos (suc k) = omega (arith, two_to_pos k)

pub two_to_mono : (k n : ℕ) → k ≤ n → two_to k ≤ two_to n
two_to_mono zero n h = two_to_pos n
two_to_mono (suc k) zero h = absurd (omega arith)
two_to_mono (suc k) (suc n) h = omega (arith, two_to_mono k n (omega arith))

-- The mask of a power of two takes the remainder.
bit_and-zero : (n a : ℕ) → a ≤ n → bit_and a 0 ≡ 0
bit_and-zero n zero h = bit_and-bitwise 0 0
bit_and-zero zero (suc a) h = absurd (omega arith)
bit_and-zero (suc n) (suc a) h =
    omega (arith, bit_and_step (suc a) 0, bit_and-zero n (suc a / 2) (omega arith))

mod-double : (t a : ℕ) → 1 ≤ t → a % (2 * t) ≡ 2 * ((a / 2) % t) + a % 2
mod-double t a h = grind arith

pub bit_and-mask : (k a : ℕ) → bit_and a (two_to k - 1) ≡ a % two_to k
bit_and-mask zero a = omega (arith, bit_and-zero a a (omega arith))
bit_and-mask (suc k) a =
    let half : (2 * two_to k - 1) / 2 ≡ two_to k - 1 = omega (arith, two_to_pos k) in
    let rest : bit_and (a / 2) ((2 * two_to k - 1) / 2) ≡ (a / 2) % two_to k =
      ap (bit_and (a / 2)) half ∙ bit_and-mask k (a / 2) in
    omega (
      arith,
      bit_and_step a (2 * two_to k - 1),
      rest,
      mod-double (two_to k) a (two_to_pos k),
      two_to_pos k,
    )

-- A word keeps its remainder by a smaller power of two.
pub mod-mod_two_to : (k n a : ℕ) → k ≤ n → (a % two_to n) % two_to k ≡ a % two_to k
mod-mod_two_to zero n a h = omega arith
mod-mod_two_to (suc k) zero a h = absurd (omega arith)
mod-mod_two_to (suc k) (suc n) a h =
    let high = a % two_to (suc n) in
    let outer : high ≡ 2 * ((a / 2) % two_to n) + a % 2 = mod-double (two_to n) a (two_to_pos n) in
    let half : high / 2 ≡ (a / 2) % two_to n = omega (arith, outer) in
    let rest : (high / 2) % two_to k ≡ (a / 2) % two_to k =
      ap (λ (b : ℕ). b % two_to k) half ∙ mod-mod_two_to k n (a / 2) (omega arith) in
    omega (
      arith,
      outer,
      rest,
      mod-double (two_to k) high (two_to_pos k),
      mod-double (two_to k) a (two_to_pos k),
    )
