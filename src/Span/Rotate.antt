-- ===== src/Span/Rotate.antt =====
-- `rotateLogBuffer` of span.go, with the in-place algorithm of `std::rotate`, at every element type.
-- `none` is a panic on an index out of range, or fuel that has run out.
use lightstep_tracer_go.Base.{
  ℕ, zero, suc, ◌+◌, ◌≡◌, arith, true, false, Option, none, some, List, ◌∷◌, ◌++◌, length,
  get_elem?, set, ◌==◌, if◌then◌else◌, get_elem?-append, set-append, get_elem?-append_right,
  set-append_right, length-append, [], append_assoc, ◌<◌, ◌≢◌, ◌∙◌, ap, sym, append-nil, refl, ◌⊎◌,
  drop, take, take-append-drop, length-take, length-drop, inl, inr,
}

-- The `if` at the end of the loop's body: the new `middle` and `next`.
pub rotate_next : ℕ → ℕ → ℕ → ℕ → ℕ × ℕ
rotate_next first middle next len =
    if next == len
    then (middle, middle)
    else if first == middle
    then (next, next)
    else (middle, next)

module _ {ℓ} {A : Type ℓ} where
  -- `buf[i], buf[j] = buf[j], buf[i]`
  pub swap : List A → ℕ → ℕ → Option (List A)
  swap buf i j = elim (get_elem? buf i) [
    | none ↦ none
    | some x ↦ elim (get_elem? buf j) [ none ↦ none | some y ↦ some (set (set buf i y) j x) ]
  ]

  pub rotate_loop : ℕ → ℕ → ℕ → ℕ → List A → Option (List A)
  rotate_loop zero first middle next buf = none
  rotate_loop (suc fuel) first middle next buf = elim (first == middle) [
    | true ↦ some buf
    | false ↦ elim (swap buf first next) [
      | none ↦ none
      | some buf' ↦
          let moved = rotate_next (first + 1) middle (next + 1) (length buf) in
          rotate_loop fuel (first + 1) moved.0 moved.1 buf'
    ]
  ]

  -- Each round fixes one more element, so the length bounds the rounds.
  pub rotate_log_buffer : List A → ℕ → Option (List A)
  unfolding rotate_loop
  rotate_log_buffer buf pos = rotate_loop (length buf + 1) 0 pos pos buf

  swap_lem :
      (left mid right : List A) (x y : A) (i j : ℕ)
      → i ≡ length left
      → j ≡ length left + suc (length mid)
      → swap (left ++ (x ∷ (mid ++ (y ∷ right)))) i j ≡ some (left ++ (y ∷ (mid ++ (x ∷ right))))
  unfolding swap
  swap_lem left mid right x y i j ei ej =
      rw (ei, ej)
        (ground (
          arith,
          get_elem?-append left (mid ++ (y ∷ right)) x,
          get_elem?-append_right left (x ∷ (mid ++ (y ∷ right))) (suc (length mid)),
          get_elem?-append mid right y,
          set-append left (mid ++ (y ∷ right)) x y,
          set-append_right left (y ∷ (mid ++ (y ∷ right))) (suc (length mid)) x,
          set-append mid right y x,
        ))

  length-parts :
      (left xs ys zs : List A)
      → length (left ++ (xs ++ (ys ++ zs))) ≡ length left + length xs + length ys + length zs
  length-parts left xs ys zs = omega (
    arith,
    length-append left (xs ++ (ys ++ zs)),
    length-append xs (ys ++ zs),
    length-append ys zs,
  )

  swap_parts :
      (left xs ys zs : List A) (x z : A) (i j : ℕ)
      → i ≡ length left
      → j ≡ length left + suc (length xs) + length ys
      → swap (left ++ (x ∷ (xs ++ (ys ++ (z ∷ zs))))) i j
        ≡ some ((left ++ (z ∷ [])) ++ (xs ++ (ys ++ (x ∷ zs))))
  swap_parts left xs ys zs x z i j ei ej =
      rw
        (
          append_assoc left (z ∷ []) (xs ++ (ys ++ (x ∷ zs))),
          ← append_assoc xs ys (z ∷ zs),
          ← append_assoc xs ys (x ∷ zs),
        )
        (swap_lem left (xs ++ ys) zs x z i j ei (omega (arith, length-append xs ys)))

  -- One round of the loop on a buffer that is cut at `first`, `middle` and `next`.
  rotate_step :
      (fuel : ℕ) (left xs ys zs : List A) (x z : A) (first middle next : ℕ)
      → first ≡ length left
      → middle ≡ first + suc (length xs)
      → next ≡ middle + length ys
      → let moved =
          rotate_next
            (first + 1)
            middle
            (next + 1)
            (first + suc (length xs) + length ys + suc (length zs)) in
        rotate_loop (suc fuel) first middle next (left ++ (x ∷ (xs ++ (ys ++ (z ∷ zs)))))
        ≡ rotate_loop fuel
            (first + 1)
            moved.0
            moved.1
            ((left ++ (z ∷ [])) ++ (xs ++ (ys ++ (x ∷ zs))))
  unfolding rotate_loop
  rotate_step fuel left xs ys zs x z first middle next ef em en =
      ground
        (arith, swap_parts left xs ys zs x z first next, length-parts left (x ∷ xs) ys (z ∷ zs))

  -- While elements wait left of `middle`, some wait right of `next`.
  abbrev IsLive : List A → List A → List A → Type ℓ
  IsLive xs ys zs = (xs ≢ [] → zs ≢ []) × (xs ≡ [] → ys ≡ [])

  append_singleton-ne-nil : (ys : List A) (x : A) → ys ++ (x ∷ []) ≢ []
  append_singleton-ne-nil [] x h = cc
  append_singleton-ne-nil (y ∷ ys) x h = cc

  rotate_round :
      (fuel : ℕ) (left xs ys zs : List A) (x z : A) (first middle next middle' next' : ℕ)
      {result : List A}
      → first ≡ length left
      → middle ≡ first + suc (length xs)
      → next ≡ middle + length ys
      → rotate_next
          (first + 1)
          middle
          (next + 1)
          (first + suc (length xs) + length ys + suc (length zs))
        ≡ (middle', next')
      → rotate_loop fuel (first + 1) middle' next' ((left ++ (z ∷ [])) ++ (xs ++ (ys ++ (x ∷ zs))))
        ≡ some result
      → result ≡ left ++ ((z ∷ zs) ++ (ys ++ (x ∷ xs)))
      → rotate_loop (suc fuel) first middle next (left ++ (x ∷ (xs ++ (ys ++ (z ∷ zs)))))
        ≡ some (left ++ ((z ∷ zs) ++ (ys ++ (x ∷ xs))))
  rotate_round fuel left xs ys zs x z first middle next middle' next' ef em en moved rest e =
      rotate_step fuel left xs ys zs x z first middle next ef em en ∙ rw moved (rest ∙ ap some e)

  -- The loop moves what stands right of `next` in front, keeps what it has moved out already before
  -- what still waits, and ends within its fuel.
  rotate_loop_lem :
      (fuel : ℕ) (left xs ys zs : List A) (first middle next : ℕ)
      → first ≡ length left
      → middle ≡ first + length xs
      → next ≡ middle + length ys
      → length xs + length ys + length zs < fuel
      → IsLive xs ys zs
      → rotate_loop fuel first middle next (left ++ (xs ++ (ys ++ zs)))
        ≡ some (left ++ (zs ++ (ys ++ xs)))
  unfolding rotate_next
  rotate_loop_lem zero left xs ys zs first middle next ef em en h live = absurd (omega arith)
  rotate_loop_lem (suc fuel) left [] ys zs first middle next ef em en h live =
      rw (live.1 refl) (ended ∙ ap (λ t. some (left ++ t)) (sym (append-nil zs)))
    where
      ended : rotate_loop (suc fuel) first middle next (left ++ zs) ≡ some (left ++ zs)
      ended = unfold rotate_loop in ground arith
  rotate_loop_lem (suc fuel) left (x ∷ xs) ys [] first middle next ef em en h live =
      absurd (live.0 (λ e. cc) refl)
  rotate_loop_lem (suc fuel) left (x ∷ xs) ys (z ∷ []) first middle next ef em en h live =
      rotate_round fuel left xs ys [] x z first middle next middle middle ef em en (ground arith)
        (rotate_loop_lem fuel (left ++ (z ∷ [])) xs [] (ys ++ (x ∷ [])) (first + 1) middle middle
          (omega (arith, length-append left (z ∷ []))) (omega arith) (omega arith)
          (omega (arith, length-append ys (x ∷ [])))
          ((λ _. append_singleton-ne-nil ys x), λ _. refl))
        (simp append_assoc)
  rotate_loop_lem (suc fuel) left (x ∷ []) ys (z ∷ z' ∷ zs) first middle next ef em en h live =
      rotate_round fuel left [] ys (z' ∷ zs) x z first middle next (next + 1) (next + 1) ef em en
        (ground arith)
        (ap (λ t. rotate_loop fuel (first + 1) (next + 1) (next + 1) ((left ++ (z ∷ [])) ++ t))
            (sym (append_assoc ys (x ∷ []) (z' ∷ zs)))
          ∙ rotate_loop_lem fuel (left ++ (z ∷ [])) (ys ++ (x ∷ [])) [] (z' ∷ zs) (first + 1)
              (next + 1) (next + 1) (omega (arith, length-append left (z ∷ [])))
              (omega (arith, length-append ys (x ∷ []))) (omega arith)
              (omega (arith, length-append ys (x ∷ []))) ((λ _ e. cc), λ _. refl))
        (simp append_assoc)
  rotate_loop_lem (suc fuel) left (x ∷ x' ∷ xs) ys (z ∷ z' ∷ zs) first middle next ef em en h live =
      rotate_round fuel left (x' ∷ xs) ys (z' ∷ zs) x z first middle next middle (next + 1) ef em en
        (ground arith)
        (ap
            (λ t.
              rotate_loop fuel (first + 1) middle (next + 1)
                ((left ++ (z ∷ [])) ++ (x' ∷ (xs ++ t))))
            (sym (append_assoc ys (x ∷ []) (z' ∷ zs)))
          ∙ rotate_loop_lem fuel (left ++ (z ∷ [])) (x' ∷ xs) (ys ++ (x ∷ [])) (z' ∷ zs) (first + 1)
              middle (next + 1) (omega (arith, length-append left (z ∷ []))) (omega arith)
              (omega (arith, length-append ys (x ∷ []))) (omega (arith, length-append ys (x ∷ [])))
              ((λ _ e. cc), λ e. absurd (cc)))
        (simp append_assoc)

  -- `rotateLogBuffer` moves the first `pos` records to the end and keeps both parts in order. It
  -- ends and never leaves the slice, for a position that lies in the slice or is 0.
  pub rotate_log_buffer_lem :
      (buf : List A) (pos : ℕ)
      → (pos < length buf) ⊎ (pos ≡ 0)
      → rotate_log_buffer buf pos ≡ some (drop pos buf ++ take pos buf)
  unfolding rotate_log_buffer
  rotate_log_buffer_lem buf pos h =
      ap (rotate_loop (length buf + 1) 0 pos pos) (sym (take-append-drop pos buf))
      ∙ rotate_loop_lem (length buf + 1) [] (take pos buf) [] (drop pos buf) 0 pos pos (omega arith)
          (omega (arith, length-take pos buf)) (omega arith)
          (omega (arith, length-take pos buf, length-drop pos buf)) (nonempty, λ _. refl)
    where
      nonempty : take pos buf ≢ [] → drop pos buf ≢ []
      nonempty ne e = elim h [
        | inl inside ↦ omega (arith, ap length e, length-drop pos buf)
        | inr start ↦ absurd (ne (rw start refl))
      ]
