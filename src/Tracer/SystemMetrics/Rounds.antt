-- ===== src/Tracer/SystemMetrics/Rounds.antt =====
-- tracer.go: the rounds of `systemMetricsLoop` after the first snapshot.
use lightstep_tracer_go.Base.Int.{pos_part}
use lightstep_tracer_go.Time.{Time, second}
use lightstep_tracer_go.Metrics.Reporting.Totals.{
  Measured, Continues, measure_and_send_lem, Accounts,
}
use lightstep_tracer_go.Tracer.{Output, Time}
use lightstep_tracer_go.Metrics.Reporting.Points.{
  requests_of, gc_value, gc_duration, gc_value_lem, gc_duration_lem,
}
use lightstep_tracer_go.Tracer.SystemMetrics.{
  metrics_tick, MetricsLoop, measure_once, Output, next_intervals, outcome_events, metrics_ticks,
}
use lightstep_tracer_go.Metrics.System.{Floats, measure, Metrics, measure-runtime, Readings}
use lightstep_tracer_go.Metrics.Reporting.{Reporter, measurement_seconds, IngestRequest}
use lightstep_tracer_go.Metrics.Reporting.Measuring.{
  MeasureError, Outcome, Surroundings, failed, delivered, withheld,
}
use lightstep_tracer_go.Base.{
  ℕ, List, ◌∷◌, Text, ◌+◌, [], ◌≡◌, true, map, false, some, ◌%◌, word_mod, ◌*◌, ◌≤◌, refl, ◌<◌, suc,
  sub64, add64, ap₂, arith, ap, ◌∙◌, sym, Bool, length, ◌/◌, ◌++◌,
}

abbrev pub sum : List ℕ → ℕ
sum [] = 0
sum (x ∷ xs) = x + sum xs

-- The ticks of a tracer that stays enabled.
abbrev pub enabled : List Surroundings → List (Bool × Surroundings)
enabled [] = []
enabled (s ∷ ticks) = (false, s) ∷ enabled ticks

-- The readings of the counter are words.
abbrev pub WordReadings : List Surroundings → Type 0
WordReadings [] = Unit
WordReadings (s ∷ ticks) =
    (s.first.runtime.num_gc < word_mod)
    × (s.second_try.runtime.num_gc < word_mod)
    × WordReadings ticks

pub later_readings :
    (s : Surroundings) (ticks : List Surroundings) → WordReadings (s ∷ ticks) → WordReadings ticks
later_readings s ticks (read, read₂, reads) = reads

-- What `rounds` measurements of a loop came to: what it has reported, and for which time.
abbrev pub Accounted : Floats → ℕ → Reporter → ℕ → ℕ → Reporter → ℕ → List Outcome → Type 0
Accounted float seconds r intervals rounds r' intervals' os =
    ((deltas : List ℕ) × (map gc_value (requests_of os) ≡ map (λ d. some (float.of_uint d)) deltas)
      × ((sum deltas + r.stored.runtime.num_gc) % word_mod ≡ r'.stored.runtime.num_gc % word_mod))
    × (sum (map gc_duration (requests_of os)) + intervals' * seconds
        ≡ (intervals + rounds) * seconds)

module _ (float : Floats) (error_text : MeasureError → Text) where
  -- The loop while it runs.
  abbrev pub going : Reporter → ℕ → MetricsLoop
  going r intervals = record { reporter = r; intervals = intervals; ended = false }

  tick_lem :
      (r : Reporter) (intervals : ℕ) (s : Surroundings)
      → r.skipped_initial_report ≡ true
      → (r' : Reporter) × (o : Outcome) × (out : List Output) × (metrics_tick float error_text
            (going r intervals)
            false
            s
          ≡ some (going r' (next_intervals intervals o), o ∷ [], out))
        × Measured float (measure float s.first) (record r { start = s.now }) r' intervals o
        × Continues (record r { start = s.now }) r'
  unfolding metrics_tick measure_once
  tick_lem r intervals s skipped =
      let (r', o, e, measured, continues) = measure_and_send_lem float r s intervals skipped in
      (r', o, outcome_events error_text r' o, rw e refl, measured, continues)

  module _ (r r₁ r' : Reporter) (seconds intervals rounds intervals' : ℕ) (os : List Outcome) where
    pub failed_later :
        r₁.stored ≡ r.stored
        → intervals + 1 < word_mod
        → Accounted float seconds r₁ (add64 intervals 1) rounds r' intervals' os
        → Accounted float seconds r intervals (suc rounds) r' intervals' os
    failed_later kept small ((deltas, values, total), time) = (
      (
        deltas,
        values,
        ap (λ (m : Metrics). (sum deltas + m.runtime.num_gc) % word_mod) (sym kept) ∙ total,
      ),
      time ∙ ap (λ (n : ℕ). n * seconds) (omega arith),
    )

    request_later :
        (now : Time) (request : IngestRequest)
        → Accounts float (record r { start = now }) r₁ intervals request
        → measurement_seconds r ≡ seconds
        → r.stored.runtime.num_gc < word_mod
        → r₁.stored.runtime.num_gc < word_mod
        → 1 ≤ intervals
        → (intervals + suc rounds) * seconds < word_mod
        → Accounted float seconds r₁ 1 rounds r' intervals' os
        → Accounted float seconds r intervals (suc rounds) r' intervals' (delivered request ∷ os)
    request_later now request e same small small₁ some_interval fits
          ((deltas, values, total), time) =
        (
          (
            sub64 r₁.stored.runtime.num_gc r.stored.runtime.num_gc ∷ deltas,
            ap₂ ◌∷◌ (gc_value_lem float (record r { start = now }) r₁ intervals request e) values,
            omega arith,
          ),
          omega (arith, duration, split),
        )
      where
        split : (intervals + suc rounds) * seconds ≡ intervals * seconds + (1 + rounds) * seconds
        split = grind arith

        short : intervals * seconds < word_mod
        short = omega (arith, split)

        duration : gc_duration request ≡ intervals * seconds
        duration =
            gc_duration_lem float (record r { start = now }) r₁ intervals request e
            ∙ ap (λ (n : ℕ). intervals * n % word_mod) same
            ∙ omega (arith, short)

  pub Measured-later :
      (r r₁ r' : Reporter) (now : Time) (found : Readings) (seconds intervals rounds intervals' : ℕ)
      (o : Outcome) (os : List Outcome)
      → Measured float (measure float found) (record r { start = now }) r₁ intervals o
      → measurement_seconds r ≡ seconds
      → r.stored.runtime.num_gc < word_mod
      → found.runtime.num_gc < word_mod
      → 1 ≤ intervals
      → intervals + 1 < word_mod
      → (intervals + suc rounds) * seconds < word_mod
      → Accounted float seconds r₁ (next_intervals intervals o) rounds r' intervals' os
      → Accounted float seconds r intervals (suc rounds) r' intervals' (o ∷ os)
  unfolding next_intervals
  Measured-later r r₁ r' now found seconds intervals rounds intervals' (failed err) os kept same
        small read some_interval next fits later =
      failed_later r r₁ r' seconds intervals rounds intervals' os kept next later
  Measured-later r r₁ r' now found seconds intervals rounds intervals' (delivered request) os (m, e)
        same small read some_interval next fits later =
      request_later r r₁ r' seconds intervals rounds intervals' os now request e same small
        (rw (measure-runtime float found r₁.stored m) read) some_interval fits later
  Measured-later r r₁ r' now found seconds intervals rounds intervals' (withheld request) os (m, e)
        same small read some_interval next fits later =
      request_later r r₁ r' seconds intervals rounds intervals' os now request e same small
        (rw (measure-runtime float found r₁.stored m) read) some_interval fits later

  pub Measured-word :
      (r r₁ : Reporter) (now : Time) (found : Readings) (intervals : ℕ) (o : Outcome)
      → Measured float (measure float found) (record r { start = now }) r₁ intervals o
      → r.stored.runtime.num_gc < word_mod
      → found.runtime.num_gc < word_mod
      → r₁.stored.runtime.num_gc < word_mod
  Measured-word r r₁ now found intervals (failed err) kept small read = rw kept small
  Measured-word r r₁ now found intervals (delivered request) (m, e) small read =
      rw (measure-runtime float found r₁.stored m) read
  Measured-word r r₁ now found intervals (withheld request) (m, e) small read =
      rw (measure-runtime float found r₁.stored m) read

  pub next_intervals_bounds :
      (intervals : ℕ) (o : Outcome)
      → 1 ≤ intervals
      → intervals + 1 < word_mod
      → (1 ≤ next_intervals intervals o) × (next_intervals intervals o ≤ intervals + 1)
  unfolding next_intervals
  next_intervals_bounds intervals (failed err) pos small = omega arith
  next_intervals_bounds intervals (delivered request) pos small = omega arith
  next_intervals_bounds intervals (withheld request) pos small = omega arith

  pub metrics_ticks-cons :
      (l l₁ l' : MetricsLoop) (s : Surroundings) (ticks : List (Bool × Surroundings))
      (os os' : List Outcome) (out out' : List Output)
      → metrics_tick float error_text l false s ≡ some (l₁, os, out)
      → metrics_ticks float error_text l₁ ticks ≡ some (l', os', out')
      → metrics_ticks float error_text l ((false, s) ∷ ticks) ≡ some (l', os ++ os', out ++ out')
  unfolding metrics_ticks
  metrics_ticks-cons l l₁ l' s ticks os os' out out' e e' = ground arith

  pub metrics_ticks_lem :
      (ticks : List Surroundings) (r : Reporter) (seconds intervals : ℕ)
      → r.skipped_initial_report ≡ true
      → measurement_seconds r ≡ seconds
      → r.stored.runtime.num_gc < word_mod
      → WordReadings ticks
      → 1 ≤ intervals
      → intervals + length ticks < word_mod
      → (intervals + length ticks) * seconds < word_mod
      → (r' : Reporter) × (intervals' : ℕ) × (os : List Outcome) × (out : List Output)
        × (metrics_ticks float error_text (going r intervals) (enabled ticks)
            ≡ some (going r' intervals', os, out))
        × Accounted float seconds r intervals (length ticks) r' intervals' os
  unfolding metrics_ticks
  metrics_ticks_lem [] r seconds intervals skipped same small read pos next fits =
      (r, intervals, [], [], refl, (([], refl, omega arith), omega arith))
  metrics_ticks_lem (s ∷ ticks) r seconds intervals skipped same small read pos next fits =
      let (r₁, o, out, e, measured, continues) = tick_lem r intervals s skipped in
      let (pos', most) = next_intervals_bounds intervals o pos (omega arith) in
      let (r', intervals', os, out', e', later) =
        metrics_ticks_lem ticks r₁ seconds (next_intervals intervals o) continues.skipped
          (ap (λ d. pos_part d / second) continues.same_duration ∙ same)
          (Measured-word r r₁ s.now s.first intervals o measured small read.0)
          (later_readings s ticks read) pos' (omega arith) (grind arith) in
      (
        r',
        intervals',
        o ∷ os,
        out ++ out',
        metrics_ticks-cons (going r intervals) (going r₁ (next_intervals intervals o))
            (going r' intervals') s (enabled ticks) (o ∷ []) os out out' e e',
        Measured-later r r₁ r' s.now s.first seconds intervals (length ticks) intervals' o os
            measured same small read.0 pos (omega arith) fits later,
      )
