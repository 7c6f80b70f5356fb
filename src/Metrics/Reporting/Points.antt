-- ===== src/Metrics/Reporting/Points.antt =====
-- internal/metrics/reporter.go: the points of a request that count the runs of the garbage collector.
use lightstep_tracer_go.Metrics.Reporting.Totals.{Accounts}
use lightstep_tracer_go.Metrics.System.{Float, Floats}
use Prim.Native.String.{String, ◌∷◌}
use lightstep_tracer_go.Metrics.Reporting.{
  Reporter, IngestRequest, points_of, add_float, MetricPoint, Float, Floats, covered,
}
use lightstep_tracer_go.Metrics.Reporting.Measuring.{Outcome, failed, delivered, withheld}
use lightstep_tracer_go.Base.{
  ℕ, List, Option, none, some, text_eq, if◌then◌else◌, codes, [], ◌≡◌, sub64, ap, ◌∷◌,
}

-- The first point of a name.
abbrev pub find_point : String → List MetricPoint → Option MetricPoint
find_point name [] = none
find_point name (p ∷ points) =
    if text_eq p.metric_name (codes name) then some p else find_point name points

-- The point of a request that counts the runs of the garbage collector.
abbrev pub gc_point : IngestRequest → Option MetricPoint
gc_point request = find_point "runtime.go.gc.count" request.points

abbrev pub gc_value : IngestRequest → Option Float
gc_value request = elim (gc_point request) [ none ↦ none | some p ↦ some p.value ]

abbrev pub gc_duration : IngestRequest → ℕ
gc_duration request = elim (gc_point request) [ none ↦ 0 | some p ↦ p.duration ]

-- The requests of a run of the loop, with those that were made and not sent.
abbrev pub requests_of : List Outcome → List IngestRequest
requests_of [] = []
requests_of (failed err ∷ os) = requests_of os
requests_of (delivered request ∷ os) = request ∷ requests_of os
requests_of (withheld request ∷ os) = request ∷ requests_of os

pub gc_value_lem :
    (float : Floats) (r r' : Reporter) (intervals : ℕ) (request : IngestRequest)
    → Accounts float r r' intervals request
    → gc_value request
      ≡ some (float.of_uint (sub64 r'.stored.runtime.num_gc r.stored.runtime.num_gc))
unfolding points_of add_float text_eq
gc_value_lem float r r' intervals request e =
    ap
      (λ points. elim (find_point "runtime.go.gc.count" points) [
        | none ↦ none
        | some p ↦ some p.value
      ])
      e

pub gc_duration_lem :
    (float : Floats) (r r' : Reporter) (intervals : ℕ) (request : IngestRequest)
    → Accounts float r r' intervals request
    → gc_duration request ≡ covered r intervals
unfolding points_of add_float text_eq
gc_duration_lem float r r' intervals request e =
    ap (λ points. elim (find_point "runtime.go.gc.count" points) [ none ↦ 0 | some p ↦ p.duration ])
      e
