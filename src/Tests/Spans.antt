-- ===== src/Tests/Spans.antt =====
-- Runs of the theorems on spans and on the event handlers.
use lightstep_tracer_go.Span.Once.{
  SpanCall, logging, tagging, finishing, run_span, renaming, recorded_once,
}
use lightstep_tracer_go.Span.Finish.{expected_logs}
use lightstep_tracer_go.Span.Start.{new_span_child, parent_context}
use lightstep_tracer_go.Events.{tracer_disabled, missing_service, start_error}
use lightstep_tracer_go.Span.Lifecycle.{
  LogCall, fields_call, run_log_calls, all_records, logged, span_logs_lem,
}
use lightstep_tracer_go.Events.Global.{
  HandlerStep, GlobalHandler, Handled, init, run_steps, run_steps-Handled, emitting, setting,
  user_handler,
}
use lightstep_tracer_go.Time.{Time}
use lightstep_tracer_go.RawSpan.{SpanContext, LogRecord, Value, Field}
use lightstep_tracer_go.Span.Rotate.{rotate_log_buffer, rotate_log_buffer_lem}
use lightstep_tracer_go.Span.{
  Span, new_span, FinishOptions, LogData, finish_with_options, finish, log_event_with_payload,
  log_event, log, append_log,
}
use lightstep_tracer_go.StartOptions.{
  StartSpanOption, opentracing, child_of, span_id, new_start_span_options, apply_options,
  apply_option,
}
use lightstep_tracer_go.Base.{
  ℕ, List, ◌≡◌, ◌∷◌, codes, [], some, lookup, true, false, inl, refl, arith, text_eq, Text, ◌++◌,
}
use lightstep_tracer_go.Tests.{test_options, test_context, SpanContext}

-- The text of an event as a record, in place of `ToLogRecord`.
abbrev to_test_record : LogData → LogRecord
to_test_record ld = record {
  timestamp = ld.timestamp;
  fields = Field.string (codes "event") ld.event ∷ [];
}

abbrev four_calls : List LogCall
four_calls = fields_call [] 1 ∷ fields_call [] 2 ∷ fields_call [] 3 ∷ fields_call [] 4 ∷ []

abbrev late_finish : FinishOptions
late_finish = record {
  finish_time = 9;
  log_records = [];
  bulk_log_data = record { timestamp = 5; event = codes "end"; payload = Value.nil } ∷ [];
}

abbrev no_options : List StartSpanOption
no_options = []

-- Five records for a span of three: the first, the one for the three that are lost, and the last.
span_logs_lem_example :
    let s = new_span (codes "work") no_options 1 3 (5, 6) in
    (final : List LogRecord) × (s' : Span) × (finish_with_options to_test_record test_options
        (run_log_calls to_test_record test_options s four_calls)
        late_finish
        9
      ≡ some (s', true))
    × (expected_logs 3
          (all_records to_test_record (logged to_test_record test_options four_calls) late_finish)
        ≡ some final)
    × (s'.raw.logs ≡ final)
    × (s'.finished ≡ true)
span_logs_lem_example =
    span_logs_lem to_test_record test_options (codes "work") no_options 1 3 (5, 6) four_calls
      late_finish 9 (omega arith)

abbrev finished_span : Span
finished_span = record (new_span (codes "work") no_options 1 3 (5, 6)) { finished = true }

-- A log and a tag before the first finish; a name, a finish and a tag after it.
recorded_once_example :
    let s = new_span (codes "work") no_options 1 3 (5, 6) in
    let first : List SpanCall =
      logging (fields_call [] 2) ∷ tagging (codes "key") Value.nil ∷ finishing late_finish 9 ∷ [] in
    (s' : Span) × (run_span to_test_record test_options (first ++ (finishing late_finish 10 ∷ [])) s
      ≡ some (s', s'.raw ∷ []))
    × (run_span to_test_record test_options
          (first ++ (finishing late_finish 10 ∷ renaming (codes "other") ∷ []))
          s
        ≡ some (s', s'.raw ∷ []))
recorded_once_example =
    recorded_once to_test_record test_options (omega arith) (codes "work") no_options 1 3 (5, 6)
      (logging (fields_call [] 2) ∷ tagging (codes "key") Value.nil ∷ finishing late_finish 9 ∷ [])
      late_finish 10 (renaming (codes "other") ∷ [])

rotate_log_buffer_lem_example :
    rotate_log_buffer {A = ℕ} (1 ∷ 2 ∷ 3 ∷ 4 ∷ 5 ∷ []) 2 ≡ some (3 ∷ 4 ∷ 5 ∷ 1 ∷ 2 ∷ [])
rotate_log_buffer_lem_example =
    rotate_log_buffer_lem {A = ℕ} (1 ∷ 2 ∷ 3 ∷ 4 ∷ 5 ∷ []) 2 (inl (omega arith))

abbrev child_options : List StartSpanOption
child_options =
    opentracing (λ o. record o {
      references = record { type = child_of; referenced_context = some test_context } ∷ [];
    })
    ∷ span_id 8
    ∷ []

abbrev child_context : SpanContext
child_context = (new_span (codes "child") child_options 1 3 (5, 6)).raw.context

new_span_child_example :
    (child_context.trace_id ≡ 7)
    × ((new_span (codes "child") child_options 1 3 (5, 6)).raw.parent_span_id ≡ 9)
    × (child_context.sampled ≡ [])
    × (lookup (codes "user") child_context.baggage ≡ some (codes "ada"))
    × (child_context.span_id ≡ 3)
    × (child_context.trace_id_upper ≡ 0)
unfolding parent_context new_start_span_options apply_options apply_option lookup text_eq
new_span_child_example =
    new_span_child (codes "child") child_options 1 3 (5, 6) test_context (codes "user") refl
      (λ e. omega arith) (refl, tt)

abbrev clock_text : Time → Text
clock_text t = codes "now"

-- The handler of the user is set for one event, and the first handler is set again.
abbrev handler_steps : List HandlerStep
handler_steps =
    emitting tracer_disabled
    ∷ emitting (start_error (codes "a"))
    ∷ setting 2
    ∷ emitting (missing_service [])
    ∷ setting 0
    ∷ emitting (start_error (codes "b"))
    ∷ []

abbrev test_handlers : GlobalHandler
test_handlers = init (λ i. user_handler [])

run_steps-Handled_example :
    Handled clock_text
      (test_handlers.handlers 0)
      (tracer_disabled ∷ start_error (codes "a") ∷ start_error (codes "b") ∷ [])
      ((run_steps clock_text handler_steps test_handlers).handlers 0)
unfolding init
run_steps-Handled_example = run_steps-Handled clock_text handler_steps test_handlers 0

-- An event gets the time of the clock.
logged_event :
    (log_event to_test_record test_options
      (new_span (codes "work") no_options 1 3 (5, 6))
      (codes "hit")
      7).raw.logs
    ≡ to_test_record (record { timestamp = 7; event = codes "hit"; payload = Value.nil }) ∷ []
unfolding log_event log append_log new_span new_start_span_options apply_options
logged_event = refl

-- The logs of a finished span stay.
closed_log :
    log_event_with_payload to_test_record test_options finished_span
      (codes "hit")
      (Value.bool true)
      7
    ≡ finished_span
unfolding log_event_with_payload log
closed_log = refl

finished_twice : finish to_test_record test_options finished_span 9 ≡ some (finished_span, false)
unfolding finish finish_with_options
finished_twice = refl
