-- ===== src/Tracer/SystemMetrics.antt =====
-- tracer.go: `systemMetricsLoop`. The loop owns the reporter; it reads the `disabled` flag of the tracer.

pub mod Rounds
pub mod Account
use lightstep_tracer_go.Events.{system_metrics_measurement_failed, system_metrics_status_report}
use lightstep_tracer_go.Tracer.{Output, emit}
use lightstep_tracer_go.Metrics.System.{Floats}
use lightstep_tracer_go.Metrics.Reporting.{Reporter}
use lightstep_tracer_go.Metrics.Reporting.Measuring.{
  MeasureError, Outcome, failed, Surroundings, measure_and_send, delivered, withheld,
}
use lightstep_tracer_go.Base.{
  ℕ, Text, Bool, List, add64, Option, if◌then◌else◌, none, false, some, ◌∷◌, ◌||◌, ◌++◌, true, [],
}

pub record MetricsLoop : Type 0 where
  pub reporter : Reporter
  pub intervals : ℕ
  pub ended : Bool

-- The events of one measurement.
unfoldable pub outcome_events : (MeasureError → Text) → Reporter → Outcome → List Output
outcome_events error_text r (failed err) =
    emit (system_metrics_measurement_failed (error_text err))
    ∷ emit (system_metrics_status_report r.start r.end r.metrics_count)
    ∷ []
outcome_events error_text r outcome =
    emit (system_metrics_status_report r.start r.end r.metrics_count) ∷ []

-- A failure adds an interval to the next measurement.
unfoldable pub next_intervals : ℕ → Outcome → ℕ
next_intervals intervals (failed err) = add64 intervals 1
next_intervals intervals (delivered request) = 1
next_intervals intervals (withheld request) = 1

module _ (float : Floats) (error_text : MeasureError → Text) where
  -- The closure `measure`.
  unfoldable pub measure_once :
      MetricsLoop → Surroundings → Option (MetricsLoop × Outcome × List Output)
  unfolding measure_and_send outcome_events next_intervals
  measure_once l s = elim (measure_and_send float l.reporter s l.intervals) [
    | none ↦ none
    | some (r, outcome) ↦ some (
      record l { reporter = r; intervals = next_intervals l.intervals outcome },
      outcome,
      outcome_events error_text r outcome,
    )
  ]

  -- One tick. `Close` does not end the loop, since the channel that it listens to is never made.
  unfoldable pub metrics_tick :
      MetricsLoop → Bool → Surroundings → Option (MetricsLoop × List Outcome × List Output)
  unfolding measure_once
  metrics_tick l disabled s =
      if l.ended || disabled
      then some (record l { ended = true }, [], [])
      else elim (measure_once l s) [
        | none ↦ none
        | some (l', outcome, out) ↦ some (l', outcome ∷ [], out)
      ]

  -- The loop over the ticks, each with the flag that it finds.
  unfoldable pub metrics_ticks :
      MetricsLoop → List (Bool × Surroundings) → Option (MetricsLoop × List Outcome × List Output)
  unfolding metrics_tick
  metrics_ticks l [] = some (l, [], [])
  metrics_ticks l ((disabled, s) ∷ ticks) = elim (metrics_tick l disabled s) [
    | none ↦ none
    | some (l', outcomes, out) ↦ elim (metrics_ticks l' ticks) [
      | none ↦ none
      | some (l'', outcomes', out') ↦ some (l'', outcomes ++ outcomes', out ++ out')
    ]
  ]

  -- `systemMetricsLoop` measures once before the first tick.
  unfoldable pub system_metrics_loop :
      Reporter
      → Surroundings
      → List (Bool × Surroundings)
      → Option (MetricsLoop × List Outcome × List Output)
  unfolding metrics_ticks
  system_metrics_loop r s ticks =
      let l : MetricsLoop = record { reporter = r; intervals = 1; ended = false } in
      metrics_ticks l ((false, s) ∷ ticks)
