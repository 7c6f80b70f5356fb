-- ===== src/Tests/Exports.antt =====
-- Runs of the theorems on the exporter and on the loop of the system metrics.
use lightstep_tracer_go.Metrics.Reporting.Points.{gc_value, requests_of}
use lightstep_tracer_go.Exporter.Recorded.{export_span_lem}
use lightstep_tracer_go.Base.Int.{pos}
use lightstep_tracer_go.Span.Finish.{expected_logs}
use lightstep_tracer_go.Tracer.SystemMetrics.Account.{system_metrics_account, AccountedFrom}
use lightstep_tracer_go.Tracer.SystemMetrics.Rounds.{enabled}
use lightstep_tracer_go.Tracer.SystemMetrics.{system_metrics_loop, MetricsLoop}
use lightstep_tracer_go.Tracer.{Output}
use lightstep_tracer_go.Exporter.{
  link_options, convert_trace_id, SpanData, convert_span_id, client, export_span, annotation_record,
}
use lightstep_tracer_go.Metrics.System.{Floats, Readings}
use lightstep_tracer_go.RawSpan.{Value, LogRecord}
use lightstep_tracer_go.Metrics.Reporting.{new_reporter}
use lightstep_tracer_go.Metrics.Reporting.Measuring.{MeasureError, Surroundings, Outcome}
use lightstep_tracer_go.Span.{Span, LogData}
use lightstep_tracer_go.Base.{
  ℕ, List, Text, none, ◌∷◌, ◌+◌, inr, [], lookup, true, ◌-◌, codes, text_eq, ◌≡◌, some, map, arith,
  refl, Option,
}
use lightstep_tracer_go.Tests.{test_options, pos}

abbrev exported : SpanData
exported = record {
  trace_id = 1 ∷ 2 ∷ 3 ∷ 4 ∷ 5 ∷ 6 ∷ 7 ∷ 8 ∷ 0 ∷ 0 ∷ 0 ∷ 0 ∷ 0 ∷ 0 ∷ 1 ∷ 2 ∷ [];
  span_id = 0 ∷ 0 ∷ 0 ∷ 0 ∷ 0 ∷ 0 ∷ 0 ∷ 5 ∷ [];
  tracestate = (codes "vendor", codes "x") ∷ [];
  parent_span_id = 0 ∷ 0 ∷ 0 ∷ 0 ∷ 0 ∷ 0 ∷ 0 ∷ 4 ∷ [];
  span_kind = client;
  name = codes "get";
  start_time = 10;
  end_time = 15;
  attributes = (codes "path", Value.string (codes "/")) ∷ [];
  annotations = record { time = 11; message = codes "note"; attributes = Value.nil } ∷ [];
  status_code = 2;
  links = [];
}

abbrev text_kind : Text → Value
text_kind s = Value.string s

abbrev test_record : LogData → LogRecord
test_record ld = record { timestamp = ld.timestamp; fields = [] }

export_span_lem_example :
    (s : Span) × (export_span text_kind test_record test_options exported 1 2 (3, 4) 20
      ≡ some (s, true))
    × (expected_logs 3 (map annotation_record exported.annotations) ≡ some s.raw.logs)
    × (s.raw.context.trace_id ≡ 258)
    × (s.raw.context.span_id ≡ 5)
    × (s.raw.parent_span_id ≡ 4)
    × (s.raw.operation ≡ codes "get")
    × (s.raw.start ≡ 10)
    × (s.raw.duration ≡ pos 5)
    × (lookup (codes "path") s.raw.context.baggage ≡ none)
    × (lookup (codes "path") s.raw.tags ≡ some (Value.string (codes "/")))
unfolding convert_trace_id convert_span_id lookup text_eq link_options
export_span_lem_example =
    export_span_lem text_kind test_record test_options exported 1 2 (3, 4) 20 (codes "path")
      (omega arith) refl (omega arith) (omega arith) (omega arith) (omega arith)

abbrev test_floats : Floats
test_floats = record { plus = λ a b. a + b; minus = λ a b. a - b; of_uint = λ n. n }

abbrev readings : ℕ → Readings
readings num_gc = record {
  process_error = none;
  process_times = inr (record { user = 1; system = 2 });
  system_times = inr [];
  net_stats = inr [];
  runtime = record { num_gc = num_gc; num_goroutine = 3 };
  heap_alloc = 4;
  virtual_memory = inr (5, 6);
}

-- The server answers with the status code.
abbrev surroundings : ℕ → ℕ → Surroundings
surroundings num_gc status = record {
  now = 7;
  later = 8;
  first = readings num_gc;
  second_try = readings num_gc;
  idempotency_key = inr (codes "key");
  marshal = λ request. inr [];
  new_request = λ address body. none;
  random = λ n. 0;
  answer = λ body n. inr status;
}

abbrev no_text : MeasureError → Text
no_text err = []

-- The first request fails, and the second one makes up for it.
system_metrics_account_example :
    (result : MetricsLoop × List Outcome × List Output) × (system_metrics_loop test_floats no_text
        (new_reporter [])
        (surroundings 7 500)
        (enabled (surroundings 9 200 ∷ []))
      ≡ some result)
    × AccountedFrom test_floats no_text
        (new_reporter [])
        30
        1
        (surroundings 7 500 ∷ surroundings 9 200 ∷ [])
        result
unfolding new_reporter
system_metrics_account_example =
    system_metrics_account test_floats no_text [] (surroundings 7 500) (surroundings 9 200 ∷ [])
      (omega arith, omega arith, (omega arith, omega arith, tt)) (omega arith) (omega arith)

-- The counts of garbage collections in the requests of a run.
abbrev run_values : Option (MetricsLoop × List Outcome × List Output) → List (Option ℕ)
run_values none = []
run_values (some (l, os, out)) = map gc_value (requests_of os)

made_up :
    run_values (
      system_metrics_loop test_floats no_text
        (new_reporter [])
        (surroundings 7 500)
        (enabled (surroundings 9 200 ∷ [])))
    ≡ some 2 ∷ []
unfolding system_metrics_loop new_reporter text_eq
made_up = refl
