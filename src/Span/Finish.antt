-- ===== src/Span/Finish.antt =====
-- The logs of a finished span: the end of `FinishWithOptions` against a specification by the list of
-- all records that came.
use lightstep_tracer_go.RawSpan.{LogRecord}
use native.Mathlib.Nat.{mod-lt}
use lightstep_tracer_go.Base.{
  [], ℕ, if◌then◌else◌, ltb, ◌+◌, ◌-◌, List, ◌≡◌, Option, ◌<◌, length, ap, ◌++◌, arith, ◌∷◌, drop,
  ◌%◌, drop-append, ◌∙◌, length-append, some, inl, sym, ap₂, take-append_exact, take, none, lt→ltb,
  take-length_append, get_elem?-append, refl, set-append, append_assoc, append-nil, ◌≤◌, le→ltb,
  dec_lt, suc, zero,
}
use lightstep_tracer_go.Span.{finish_logs, dropped_record, num_old, LogRecord, replace_middle}
use lightstep_tracer_go.Span.Rotate.{rotate_log_buffer, rotate_log_buffer_lem}
use lightstep_tracer_go.Span.Ring.{
  num_new, Holds, length-Holds, num_new-pos, Logged, complete, circular,
}

-- The specification: all records if they fit, or else the oldest `num_old`, one record that names the
-- number of those left out with the time of the last one of them, and the newest.
pub expected_logs : ℕ → List LogRecord → Option (List LogRecord)
expected_logs max_logs all =
    if ltb max_logs (length all)
    then (let left_out = drop (length all - num_new max_logs) all in
        elim left_out [
          | [] ↦ none
          | last ∷ newest ↦ some (
              take (num_old max_logs) all
              ++ (dropped_record last.timestamp (length all - max_logs + 1) ∷ newest))
        ])
    else some all

drop-parts {ℓ} : {A : Type ℓ} (n : ℕ) (xs ys : List A) → n ≡ length xs → drop n (xs ++ ys) ≡ ys
drop-parts n xs ys e = rw e (drop-append xs ys)

rotated_part :
    (newest older : List LogRecord) (n : ℕ)
    → n ≡ length newest
    → 0 < length older
    → rotate_log_buffer (newest ++ older) n ≡ some (older ++ newest)
rotated_part newest older n e h =
    rotate_log_buffer_lem (newest ++ older) n (inl (omega (arith, length-append newest older)))
    ∙ ap some (ap₂ ◌++◌ (drop-parts n newest older e) (take-append_exact n newest older e))

module _ {max_logs : ℕ} {all logs : List LogRecord} {d : ℕ} (h : Holds max_logs all logs d)
    (some_logs : 0 < max_logs) where
  old_eq : num_old (length logs) ≡ length h.kept
  old_eq = ap num_old (length-Holds h some_logs) ∙ sym h.kept_length

  new_eq : length logs - num_old (length logs) ≡ num_new max_logs
  new_eq = ap num_new (length-Holds h some_logs)

  length-all : length all ≡ max_logs + d
  length-all = omega (
    arith,
    ap length h.all_eq,
    length-append h.kept (h.lost ++ (h.older ++ h.newest)),
    length-append h.lost (h.older ++ h.newest),
    length-append h.older h.newest,
    h.kept_length,
    h.lost_length,
    h.circular_length,
  )

  finish_rotated :
      rotate_log_buffer
        (drop (num_old (length logs)) logs)
        (d % (length logs - num_old (length logs)))
      ≡ some (h.older ++ h.newest)
  finish_rotated =
      ap₂ rotate_log_buffer (ap₂ drop old_eq h.logs_eq ∙ drop-append h.kept (h.newest ++ h.older))
        (ap (λ k. d % k) new_eq ∙ sym h.newest_length)
      ∙ rotated_part h.newest h.older (length h.newest) refl (
          omega
            (arith, h.newest_length, h.circular_length, mod-lt d (num_new-pos max_logs some_logs)))

  take-old : take (num_old (length logs)) logs ≡ h.kept
  take-old = ap₂ take old_eq h.logs_eq ∙ take-length_append h.kept (h.newest ++ h.older)

  replaced :
      (o : LogRecord) (rest : List LogRecord)
      → replace_middle (h.kept ++ (o ∷ rest)) (num_old (length logs)) d
        ≡ some (h.kept ++ (dropped_record o.timestamp (d + 1) ∷ rest))
  unfolding replace_middle
  replaced o rest = rw old_eq (
      ground (
        arith,
        get_elem?-append h.kept rest o,
        set-append h.kept rest o (dropped_record o.timestamp (d + 1)),
      ))

  finish_dropped :
      (o : LogRecord) (older : List LogRecord)
      → h.older ≡ o ∷ older
      → 0 < d
      → finish_logs logs d
        ≡ some (h.kept ++ (dropped_record o.timestamp (d + 1) ∷ (older ++ h.newest)))
  unfolding finish_logs
  finish_dropped o older e pos =
      rw (lt→ltb 0 d pos, finish_rotated, take-old, e) (replaced o (older ++ h.newest))

  expected_dropped :
      (o : LogRecord) (older : List LogRecord)
      → h.older ≡ o ∷ older
      → 0 < d
      → expected_logs max_logs all
        ≡ some (h.kept ++ (dropped_record o.timestamp (d + 1) ∷ (older ++ h.newest)))
  unfolding expected_logs
  expected_dropped o older e pos =
      rw (lt→ltb max_logs (length all) (omega (arith, length-all)), left_out, e)
        (ground (arith, kept_part, length-all))
    where
      kept_part : take (num_old max_logs) all ≡ h.kept
      kept_part = ap₂ take (sym h.kept_length) h.all_eq ∙ take-length_append h.kept _

      left_out : drop (length all - num_new max_logs) all ≡ h.older ++ h.newest
      left_out =
          ap₂ drop {x = length all - num_new max_logs} {y = length (h.kept ++ h.lost)}
            (omega (arith, length-all, length-append h.kept h.lost, h.kept_length, h.lost_length))
            (h.all_eq ∙ sym (append_assoc h.kept h.lost (h.older ++ h.newest)))
          ∙ drop-append (h.kept ++ h.lost) (h.older ++ h.newest)

finish_circular :
    {max_logs : ℕ} {all logs : List LogRecord} {d : ℕ} (h : Holds max_logs all logs d)
    (older : List LogRecord)
    → 0 < max_logs
    → h.older ≡ older
    → 0 < d
    → finish_logs logs d ≡ expected_logs max_logs all
finish_circular {max_logs} {d = d} h [] some_logs e pos = absurd (
    omega (
      arith,
      ap length e,
      h.newest_length,
      h.circular_length,
      mod-lt d (num_new-pos max_logs some_logs),
    ))
finish_circular h (o ∷ older) some_logs e pos =
    finish_dropped h some_logs o older e pos ∙ sym (expected_dropped h some_logs o older e pos)

finish_nothing : (logs : List LogRecord) (d : ℕ) → d ≡ 0 → finish_logs logs d ≡ some logs
unfolding finish_logs
finish_nothing logs d e = rw e

expected_all :
    (max_logs : ℕ) (all : List LogRecord)
    → length all ≤ max_logs
    → expected_logs max_logs all ≡ some all
unfolding expected_logs
expected_all max_logs all h = rw (le→ltb max_logs (length all) h)

nothing_lost :
    {max_logs : ℕ} {all logs : List LogRecord} {d : ℕ} (h : Holds max_logs all logs d)
    (lost newest : List LogRecord)
    → h.lost ≡ lost
    → h.newest ≡ newest
    → d ≡ 0
    → logs ≡ all
nothing_lost h [] [] el en e = h.logs_eq ∙ rw en (sym (h.all_eq ∙ rw (el, en, append-nil)))
nothing_lost h [] (x ∷ newest) el en e = absurd (omega (arith, ap length en, h.newest_length, e))
nothing_lost h (x ∷ lost) newest el en e = absurd (omega (arith, ap length el, h.lost_length))

-- The end of `FinishWithOptions` turns the circular buffer into the expected logs.
pub finish_logs_lem :
    {max_logs : ℕ} {all logs : List LogRecord} {d : ℕ}
    → 0 < max_logs
    → Logged max_logs all logs d
    → finish_logs logs d ≡ expected_logs max_logs all
finish_logs_lem {max_logs} {all} {logs} {d} h (complete e d0 l) =
    finish_nothing logs d d0
    ∙ ap some e
    ∙ sym (expected_all max_logs all (omega (arith, ap length e)))
finish_logs_lem {max_logs} {all} {logs} {d} h (circular k) = elim (dec_lt 0 d) [
  | yes p ↦ finish_circular k k.older h refl p
  | no p ↦
      finish_nothing logs d (omega arith)
      ∙ ap some (nothing_lost k k.lost k.newest refl refl (omega arith))
      ∙ sym (expected_all max_logs all (omega (arith, length-all k h)))
]

drop_nonempty {ℓ} :
    {A : Type ℓ} (n : ℕ) (xs : List A)
    → n < length xs
    → (x : A) × (rest : List A) × (drop n xs ≡ x ∷ rest)
drop_nonempty n [] h = elim h [ ]
drop_nonempty zero (x ∷ xs) h = (x, xs, refl)
drop_nonempty (suc n) (x ∷ xs) h = drop_nonempty n xs (omega arith)

pub expected_logs_total :
    (max_logs : ℕ) (all : List LogRecord)
    → 0 < max_logs
    → (final : List LogRecord) × (expected_logs max_logs all ≡ some final)
unfolding expected_logs
expected_logs_total max_logs all h = elim (dec_lt max_logs (length all)) [
  | yes p ↦
      let (x, rest, e) = drop_nonempty (length all - num_new max_logs) all (omega arith) in
      (
        take (num_old max_logs) all
            ++ (dropped_record x.timestamp (length all - max_logs + 1) ∷ rest),
        rw (lt→ltb max_logs (length all) p, e),
      )
  | no p ↦ (all, rw (le→ltb max_logs (length all) (omega arith)))
]
