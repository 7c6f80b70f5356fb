-- ===== src/Tracer/Parts.antt =====
-- tracer.go: the number of parts that `Flush` asks for.
use lightstep_tracer_go.Tracer.Flush.{number_of_parts}
use native.Mathlib.Nat.{mod-lt, div-add-mod'}
use lightstep_tracer_go.Base.{
  ℕ, ◌<◌, ◌≤◌, ◌*◌, ◌≡◌, ◌⊎◌, ◌-◌, ◌%◌, inl, ◌/◌, arith, ◌+◌, inr, refl, ap, suc, zero,
}

number_of_parts_cases :
    (size max_bytes : ℕ)
    → ((size ≤ max_bytes) × (number_of_parts size max_bytes ≡ 1))
      ⊎ ((max_bytes < size)
          × (((size % max_bytes ≡ 0) × (number_of_parts size max_bytes ≡ size / max_bytes))
              ⊎ ((0 < size % max_bytes) × (number_of_parts size max_bytes ≡ size / max_bytes + 1))))
unfolding number_of_parts
number_of_parts_cases size max_bytes = ground arith

exact_parts :
    (q m r size : ℕ) → q * m + r ≡ size → r ≡ 0 → 0 < m → m < size → (1 ≤ q) × ((q - 1) * m < size)
exact_parts zero m r size e z pos large = absurd (omega arith)
exact_parts (suc q) m r size e z pos large =
    (omega arith, omega (arith, ap (λ k. k * m) {x = suc q - 1} {y = q} (omega arith)))

rest_part : (q m r size : ℕ) → q * m + r ≡ size → 0 < r → (q + 1 - 1) * m < size
rest_part q m r size e h = omega (arith, ap (λ k. k * m) {x = q + 1 - 1} {y = q} (omega arith))

-- `Flush` asks for the smallest number of parts, at least one, in which the estimated size has room at the
-- maximum for each part. This is for a maximum above 0.
pub number_of_parts_lem :
    (size max_bytes : ℕ)
    → 0 < max_bytes
    → let parts = number_of_parts size max_bytes in
      (1 ≤ parts) × (size ≤ parts * max_bytes) × ((parts ≡ 1) ⊎ ((parts - 1) * max_bytes < size))
number_of_parts_lem size max_bytes h =
    let whole = div-add-mod' size max_bytes in
    let small = mod-lt size h in
    elim (number_of_parts_cases size max_bytes) [
      | inl (fits, e) ↦ rw e (omega arith, omega arith, inl refl)
      | inr (large, inl (k, e)) ↦ rw e (
        (exact_parts _ max_bytes _ size whole k h large).0,
        omega arith,
        inr (exact_parts _ max_bytes _ size whole k h large).1,
      )
      | inr (large, inr (k, e)) ↦
          rw e (omega arith, omega arith, inr (rest_part _ max_bytes _ size whole k))
    ]
