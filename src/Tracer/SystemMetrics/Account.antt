-- ===== src/Tracer/SystemMetrics/Account.antt =====
-- tracer.go: what the requests of `systemMetricsLoop` cover together.
use lightstep_tracer_go.Propagation.Binary.{other_error}
use lightstep_tracer_go.Metrics.{ReporterOption}
use lightstep_tracer_go.Base.Int.{pos_part}
use lightstep_tracer_go.Time.{second}
use lightstep_tracer_go.Metrics.Reporting.Totals.{first_measure_lem, Ends, Begins}
use lightstep_tracer_go.Tracer.{Output}
use lightstep_tracer_go.Tracer.SystemMetrics.{
  metrics_tick, MetricsLoop, measure_once, Output, next_intervals, outcome_events, metrics_ticks,
  system_metrics_loop,
}
use lightstep_tracer_go.Metrics.System.{Floats, measure, Metrics, measure-runtime}
use lightstep_tracer_go.Metrics.Reporting.{Reporter, measurement_seconds, new_reporter}
use lightstep_tracer_go.Metrics.Reporting.Measuring.{
  MeasureError, Outcome, Surroundings, failed, measure_and_send, other_error,
}
use lightstep_tracer_go.Base.{
  ℕ, List, ◌∷◌, Text, ◌+◌, [], ◌≡◌, true, false, some, word_mod, ◌*◌, ◌≤◌, refl, ◌<◌, suc, add64,
  arith, ap, ◌∙◌, sym, length, ◌/◌, subst, inl, inr, Sum-cases, ◌⊎◌,
}
use lightstep_tracer_go.Tracer.SystemMetrics.Rounds.{
  going, failed_later, Measured-later, Measured-word, next_intervals_bounds, metrics_ticks-cons,
  metrics_ticks_lem, later_readings, enabled, WordReadings, Accounted,
}

module _ (float : Floats) (error_text : MeasureError → Text) where
  abbrev snapshot_or : Metrics → Text ⊎ Metrics → Metrics
  snapshot_or later (inl err) = later
  snapshot_or later (inr m) = m

  -- The snapshot that a reporter measures from: the first one that succeeds.
  abbrev pub first_snapshot : List Surroundings → Metrics → Metrics
  first_snapshot [] stored = stored
  first_snapshot (s ∷ ticks) stored =
      snapshot_or (first_snapshot ticks stored) (measure float s.first)

  -- The account of a loop from that snapshot on.
  abbrev pub AccountedFrom :
      Reporter → ℕ → ℕ → List Surroundings → MetricsLoop × List Outcome × List Output → Type 0
  AccountedFrom r seconds intervals ticks (l, os, out) =
      (l.ended ≡ false)
      × Accounted float seconds (record r { stored = first_snapshot ticks r.stored }) intervals
          (length ticks) l.reporter l.intervals os

  -- What the rest of a loop comes to.
  abbrev Goes : Reporter → ℕ → ℕ → List Surroundings → Type 0
  Goes r seconds intervals ticks =
      (result : MetricsLoop × List Outcome × List Output) × (metrics_ticks float error_text
          (going float error_text r intervals) (enabled ticks)
        ≡ some result)
      × AccountedFrom r seconds intervals ticks result

  module _ (r : Reporter) (seconds intervals : ℕ) (s : Surroundings) (ticks : List Surroundings)
      (same : measurement_seconds r ≡ seconds) (some_interval : 1 ≤ intervals)
      (next : intervals + suc (length ticks) < word_mod)
      (fits : (intervals + suc (length ticks)) * seconds < word_mod) where
    failed-Goes :
        (err : Text)
        → measure float s.first ≡ inl err
        → measure_and_send float r s intervals
          ≡ some (record r { start = s.now }, failed (other_error err))
        → Goes (record r { start = s.now }) seconds (add64 intervals 1) ticks
        → Goes r seconds intervals (s ∷ ticks)
    unfolding metrics_tick measure_once next_intervals
    failed-Goes err found e ((l, os, out), e', (on, later)) =
        let r₁ = record r { start = s.now } in
        let o = failed (other_error err) in
        let base = first_snapshot ticks r.stored in
        (
          (l, o ∷ os, _),
          metrics_ticks-cons float error_text (going float error_text r intervals)
              (going float error_text r₁ (add64 intervals 1)) l s (enabled ticks) (o ∷ []) os
              (outcome_events error_text r₁ o) out (rw e refl) e',
          (
            on,
            subst
                (λ b.
                  Accounted float seconds (record r { stored = b }) intervals (suc (length ticks))
                    l.reporter l.intervals os)
                (sym (ap (snapshot_or (first_snapshot ticks r.stored)) found))
                (failed_later float error_text (record r { stored = base })
                  (record r₁ { stored = base }) l.reporter seconds intervals (length ticks)
                  l.intervals os refl (omega arith) later),
          ),
        )

    measured-Goes :
        (m : Metrics)
        → measure float s.first ≡ inr m
        → WordReadings (s ∷ ticks)
        → Ends float
            (measure float s.second_try)
            (record r { start = s.now; stored = m; skipped_initial_report = true })
            intervals
            (measure_and_send float r s intervals)
        → Goes r seconds intervals (s ∷ ticks)
    unfolding metrics_tick measure_once
    measured-Goes m found (read, read₂, reads) (r₁, o, e, measured, continues) =
        let small : m.runtime.num_gc < word_mod = rw (measure-runtime float s.first m found) read in
        let (pos', most) =
          next_intervals_bounds float error_text intervals o some_interval (omega arith) in
        let start = record r { stored = m; skipped_initial_report = true } in
        let (r', intervals', os, out, e', later) =
          metrics_ticks_lem float error_text ticks r₁ seconds (next_intervals intervals o)
            continues.skipped (ap (λ d. pos_part d / second) continues.same_duration ∙ same)
            (Measured-word float error_text start r₁ s.now s.second_try intervals o measured small
              read₂)
            reads pos' (omega arith) (grind arith) in
        (
          (going float error_text r' intervals', o ∷ os, _),
          metrics_ticks-cons float error_text (going float error_text r intervals)
              (going float error_text r₁ (next_intervals intervals o))
              (going float error_text r' intervals') s (enabled ticks) (o ∷ []) os
              (outcome_events error_text r₁ o) out (rw e refl) e',
          (
            refl,
            subst
                (λ b.
                  Accounted float seconds (record r { stored = b }) intervals (suc (length ticks))
                    r' intervals' (o ∷ os))
                (sym (ap (snapshot_or (first_snapshot ticks r.stored)) found))
                (Measured-later float error_text start r₁ r' s.now s.second_try seconds intervals
                  (length ticks) intervals' o os measured same small read₂ some_interval
                  (omega arith) fits later),
          ),
        )

  fresh-Goes :
      (ticks : List Surroundings) (r : Reporter) (seconds intervals : ℕ)
      → r.skipped_initial_report ≡ false
      → measurement_seconds r ≡ seconds
      → WordReadings ticks
      → 1 ≤ intervals
      → intervals + length ticks < word_mod
      → (intervals + length ticks) * seconds < word_mod
      → Goes r seconds intervals ticks
  unfolding metrics_ticks
  fresh-Goes [] r seconds intervals first same reads some_interval next fits = (
    (going float error_text r intervals, [], []),
    refl,
    (refl, (([], refl, omega arith), omega arith)),
  )
  fresh-Goes (s ∷ ticks) r seconds intervals first same reads some_interval next fits =
      let begins = first_measure_lem float r s intervals first in
      elim (Sum-cases (measure float s.first)) [
        | inl (err, found) ↦
            failed-Goes r seconds intervals s ticks same some_interval next fits err found
              (subst
                (λ m.
                  Begins float m (measure float s.second_try) (record r { start = s.now }) intervals
                    (measure_and_send float r s intervals))
                found begins)
              (fresh-Goes ticks (record r { start = s.now }) seconds (add64 intervals 1) first same
                (later_readings s ticks reads) (omega arith) (omega arith) (grind arith))
        | inr (m, found) ↦
            measured-Goes r seconds intervals s ticks same some_interval next fits m found reads (
              subst
                (λ m.
                  Begins float m (measure float s.second_try) (record r { start = s.now }) intervals
                    (measure_and_send float r s intervals))
                found begins)
      ]

-- The loop of a new reporter, with any options, on a tracer that stays enabled: it does not end, and whatever
-- fails in its rounds, the requests that it has sent, and those that it has withheld as they cover more than ten
-- minutes, follow on one another. Their counts of garbage collections are differences that add up (as words) to
-- the one from the first snapshot that succeeded to the one stored at last, so that a measurement that failed is
-- made up for by the next one that did not; without any snapshot there is none. And the times that they cover,
-- with those of the intervals left for the next request, add up to the time of all rounds and one more interval
-- for the start, a round that failed before the first snapshot included. This is for readings that are words
-- and for times that fit in a word.
pub system_metrics_account :
    (float : Floats) (error_text : MeasureError → Text) (opts : List ReporterOption)
    (s : Surroundings) (ticks : List Surroundings)
    → WordReadings (s ∷ ticks)
    → 2 + length ticks < word_mod
    → (2 + length ticks) * measurement_seconds (new_reporter opts) < word_mod
    → (result : MetricsLoop × List Outcome × List Output) × (system_metrics_loop float error_text
          (new_reporter opts)
          s
          (enabled ticks)
        ≡ some result)
      × AccountedFrom float error_text
          (new_reporter opts)
          (measurement_seconds (new_reporter opts))
          1
          (s ∷ ticks)
          result
unfolding system_metrics_loop
system_metrics_account float error_text opts s ticks reads next fits =
    let r = new_reporter opts in
    fresh-Goes float error_text (s ∷ ticks) r (measurement_seconds r) 1
      (unfold new_reporter in refl) refl reads (omega arith) (omega arith)
      (subst (λ (n : ℕ). n * measurement_seconds r < word_mod) (omega arith) fits)
