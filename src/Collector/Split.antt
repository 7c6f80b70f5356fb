-- ===== src/Collector/Split.antt =====
-- `SplitByParts` of collector_client.go: how many parts there are, and what they hold.
use lightstep_tracer_go.Collector.{
  ReportRequest, Pointer, split_loop, Store, write, max_part_size, split_by_parts,
}
use native.Mathlib.Nat.{mod-lt, div-add-mod', lt_of_mul-lt-mul_right}
use lightstep_tracer_go.Proto
use lightstep_tracer_go.Base.{
  ℕ, List, [], suc, ◌∷◌, zero, drop, length, ◌≤◌, ◌≡◌, min, ◌+◌, arith, refl, take, ◌<◌, ◌*◌, ◌∙◌,
  ap, sym, ap₂, take_of_length-le, length-drop, some, ◌%◌, inl, ◌/◌, ◌⊎◌, inr,
}

-- `n` copies of `x`.
unfoldable pub copies {ℓ} : {A : Type ℓ} → ℕ → A → List A
copies zero x = []
copies (suc n) x = x ∷ copies n x

drop_nil {ℓ} : {A : Type ℓ} (n : ℕ) → drop {A = A} n [] ≡ []
drop_nil zero = refl
drop_nil (suc n) = refl

drop-drop {ℓ} : {A : Type ℓ} (m n : ℕ) (xs : List A) → drop m (drop n xs) ≡ drop (n + m) xs
drop-drop m zero xs = ap (λ k. drop k xs) (omega arith)
drop-drop m (suc n) [] = drop_nil m ∙ sym (drop_nil (suc n + m))
drop-drop m (suc n) (x ∷ xs) =
    drop-drop m n xs ∙ ap (λ k. drop k (x ∷ xs)) {x = suc (n + m)} {y = suc n + m} (omega arith)

drop_of_length-le {ℓ} : {A : Type ℓ} (n : ℕ) (xs : List A) → length xs ≤ n → drop n xs ≡ []
drop_of_length-le zero [] h = refl
drop_of_length-le zero (x ∷ xs) h = absurd (omega arith)
drop_of_length-le (suc n) [] h = refl
drop_of_length-le (suc n) (x ∷ xs) h = drop_of_length-le n xs (omega arith)

abbrev pub with_spans : Proto.ReportRequest → List Proto.Span → Proto.ReportRequest
with_spans request spans = record request { spans = spans }

write_same :
    (store : Store) (p : Pointer) (request : Proto.ReportRequest)
    → write store p request p ≡ request
write_same store p request = ground arith

split_loop_nil :
    (fuel max_size : ℕ) (rr : ReportRequest) (p : Pointer) (store : Store)
    → split_loop fuel max_size rr p [] store ≡ ([], store)
unfolding split_loop
split_loop_nil zero max_size rr p store = refl
split_loop_nil (suc fuel) max_size rr p store = refl

-- One round, in which the size of the part is `s`.
split_loop_step :
    (fuel max_size s : ℕ) (rr : ReportRequest) (p : Pointer) (span : Proto.Span)
    (rest : List Proto.Span) (store : Store)
    → min max_size (length (span ∷ rest)) ≡ s
    → let (rrs, store') =
        split_loop fuel max_size rr p
          (drop s (span ∷ rest))
          (write store p (with_spans (store p) (take s (span ∷ rest)))) in
      split_loop (suc fuel) max_size rr p (span ∷ rest) store ≡ (rr ∷ rrs, store')
unfolding split_loop
split_loop_step fuel max_size s rr p span rest store h =
    ap
      (λ k.
        let (rrs, store') =
          split_loop fuel max_size rr p (drop k (span ∷ rest))
            (write store p (with_spans (store p) (take k (span ∷ rest)))) in
        (rr ∷ rrs, store'))
      (ground arith ∙ h)

pub split_loop_lem :
    (fuel max_size j : ℕ) (rr : ReportRequest) (p : Pointer) (spans : List Proto.Span)
    (store : Store)
    → length spans ≤ fuel
    → 0 < max_size
    → j * max_size < length spans
    → length spans ≤ max_size + j * max_size
    → let (rrs, store') = split_loop fuel max_size rr p spans store in
      (rrs ≡ rr ∷ copies j rr) × (store' p ≡ with_spans (store p) (drop (j * max_size) spans))
unfolding copies
split_loop_lem fuel max_size j rr p [] store f pos lo hi = absurd (omega arith)
split_loop_lem zero max_size j rr p (span ∷ rest) store f pos lo hi = absurd (omega arith)
split_loop_lem (suc fuel) max_size zero rr p (span ∷ rest) store f pos lo hi =
    let all = span ∷ rest in
    let store' = write store p (with_spans (store p) all) in
    let done =
      split_loop_step fuel max_size (length all) rr p span rest store (omega arith)
      ∙ ap₂
          (λ d t.
            let (rrs, s) =
              split_loop fuel max_size rr p d (write store p (with_spans (store p) t)) in
            (rr ∷ rrs, s))
          (drop_of_length-le (length all) all (omega arith))
          (take_of_length-le (length all) all (omega arith))
      ∙ ap (λ (rrs, s). (rr ∷ rrs, s)) (split_loop_nil fuel max_size rr p store') in
    (
      ap (λ r. r.0) done,
      ap (λ r. r.1 p) done
          ∙ write_same store p (with_spans (store p) all)
          ∙ ap (λ k. with_spans (store p) (drop k all)) {x = 0} {y = 0 * max_size} (omega arith),
    )
split_loop_lem (suc fuel) max_size (suc j) rr p (span ∷ rest) store f pos lo hi =
    let all = span ∷ rest in
    let next = with_spans (store p) (take max_size all) in
    let step = split_loop_step fuel max_size max_size rr p span rest store (omega arith) in
    let (rrs_eq, store_eq) =
      split_loop_lem fuel max_size j rr p (drop max_size all) (write store p next)
        (omega (arith, length-drop max_size all)) pos (omega (arith, length-drop max_size all))
        (omega (arith, length-drop max_size all)) in
    (
      ap (λ r. r.0) step ∙ ap (◌∷◌ rr) rrs_eq,
      ap (λ r. r.1 p) step
          ∙ store_eq
          ∙ ap₂ with_spans (write_same store p next) (
              drop-drop (j * max_size) max_size all
              ∙ ap (λ k. drop k all) {y = suc j * max_size} (omega arith)),
    )

max_part_size_cases :
    (n parts : ℕ)
    → ((0 < n % parts) × (max_part_size n parts ≡ n / parts + 1))
      ⊎ ((n % parts ≡ 0) × (max_part_size n parts ≡ n / parts))
unfolding max_part_size
max_part_size_cases n parts = ground arith

-- `maxSize` is large enough for `parts` parts.
max_part_size_lem : (n parts : ℕ) → 0 < parts → n ≤ max_part_size n parts * parts
max_part_size_lem n parts h =
    let whole = div-add-mod' n parts in
    let small = mod-lt n h in
    elim (max_part_size_cases n parts) [
      | inl (k, e) ↦ rw e (omega arith)
      | inr (k, e) ↦ rw e (omega arith)
    ]

factor_pos : (n m parts : ℕ) → n ≤ m * parts → 0 < n → 0 < m
factor_pos n zero parts h pos = absurd (omega arith)
factor_pos n (suc m) parts h pos = omega arith

parts_bound : (n m j parts : ℕ) → n ≤ m * parts → j * m < n → j < parts
parts_bound n m j parts h lo = lt_of_mul-lt-mul_right m (omega arith)

split_by_parts_unfolded :
    (rr : ReportRequest) (p : Pointer) (parts : ℕ) (store : Store)
    → rr.proto_request ≡ some p
    → 1 < parts
    → 0 < length (store p).spans
    → let spans = (store p).spans in
      split_by_parts rr parts store
      ≡ split_loop (length spans) (max_part_size (length spans) parts) rr p spans store
unfolding split_by_parts
split_by_parts_unfolded rr p parts store is_p h pos = rw is_p (ground arith)

-- The split of a request with spans in at least two parts, with `n` spans, parts of `m` spans and the
-- last part `j`: it yields `j + 1` requests, at most as many as asked for. All of them are the receiver
-- itself, so they hold one pointer, and the request behind it is left with the spans of the last part
-- only, in place of all.
pub split_by_parts_lem :
    (rr : ReportRequest) (p : Pointer) (parts j : ℕ) (store : Store)
    → rr.proto_request ≡ some p
    → 1 < parts
    → let m = max_part_size (length (store p).spans) parts in
      j * m < length (store p).spans
      → length (store p).spans ≤ m + j * m
      → let (rrs, store') = split_by_parts rr parts store in
        (rrs ≡ rr ∷ copies j rr)
        × (j < parts)
        × (store' p ≡ with_spans (store p) (drop (j * m) (store p).spans))
split_by_parts_lem rr p parts j store is_p h lo hi =
    let n = length (store p).spans in
    let m = max_part_size n parts in
    let enough = max_part_size_lem n parts (omega arith) in
    let cut = split_by_parts_unfolded rr p parts store is_p h (omega arith) in
    let (rrs, last) =
      split_loop_lem n m j rr p (store p).spans store (omega arith)
        (factor_pos n m parts enough (omega arith)) lo hi in
    (ap (λ r. r.0) cut ∙ rrs, parts_bound n m j parts enough lo, ap (λ r. r.1 p) cut ∙ last)
