-- ===== src/Tests/Running.antt =====
-- A run of the account of the calls of a program.
use lightstep_tracer_go.Tracer.Observed.Delivered.{flush_delivers, translate_request}
use lightstep_tracer_go.Tracer.Sending.{accepts}
use lightstep_tracer_go.Collector.{Store, Pointer, ReportRequest, any_disable}
use lightstep_tracer_go.Tracer.Observed.Calls.{
  Call, recorded, flushed, ticked, closed_by_user, recorded_spans, run_calls,
}
use lightstep_tracer_go.Tracer.Observed.Accounts.{calls_accounted}
use lightstep_tracer_go.Tracer.Observed.{event_sent, event_dropped, event_loss, tally}
use lightstep_tracer_go.Tracer.Flush.{Run, parts_of_size}
use lightstep_tracer_go.Tracer.Ledger.{load}
use lightstep_tracer_go.Tests.{test_options, test_span, test_tracer}
use lightstep_tracer_go.Tests.Reports.{test_library, test_store}
use lightstep_tracer_go.Tests.Tracing.{grpc_client, test_run, accepting}
use lightstep_tracer_go.Base.{
  List, ◌∷◌, [], ◌≡◌, ◌+◌, inl, codes, false, none, refl, arith, ◌++◌, true,
}
use lightstep_tracer_go.Tracer.{
  create_tracer, record_span, pre_flush, post_flush, post_flush_sent, post_flush_failed, restore,
  should_flush_locked,
}
use lightstep_tracer_go.Tracer.Flush.{
  flush, flush_buffer, send_report, flush_parts, flush_single, first_report, number_of_parts,
  heuristic_byte_size, pivot_size,
}
use lightstep_tracer_go.Tracer.Loop.{tick, close}
use lightstep_tracer_go.Converter.{to_report_request, from_tags, to_spans, to_span, to_logs, to_log}
use lightstep_tracer_go.Collector.{split_by_parts, split_loop, grpc_translate, response_disable}
use lightstep_tracer_go.ReportBuffer.{merge_from, clear, add_span}
use lightstep_tracer_go.RawSpan.{raw_span_len}
use lightstep_tracer_go.Converter.Unsupported.{total}
use lightstep_tracer_go.Tracer.Observed.Calls.{run_call}
use lightstep_tracer_go.Tracer.Observed.{emitted}
use lightstep_tracer_go.Base.{text_eq, ◌^◌}

abbrev failing_run : Run
failing_run = record test_run { answer = λ i. inl (codes "unavailable") }

-- Three spans for a buffer of two, a flush that fails, a fourth span, a tick that flushes, and `Close`.
abbrev test_calls : List Call
test_calls =
    recorded test_span
    ∷ recorded test_span
    ∷ recorded test_span
    ∷ flushed failing_run test_store
    ∷ recorded test_span
    ∷ ticked (2 ^ 63) false none test_run test_store
    ∷ closed_by_user false none test_run test_store
    ∷ []

four_recorded : recorded_spans test_calls ≡ 4
unfolding recorded_spans text_eq
four_recorded = refl

-- The run emits no loss, and its reports call two spans sent.
none_lost :
    let out = (run_calls test_library grpc_client test_calls test_tracer).1 in
    (tally event_loss out ≡ 0) × (tally event_sent out ≡ 2)
unfolding run_calls total emitted event_sent event_loss create_tracer text_eq to_report_request tick
    close flush flush_buffer send_report split_by_parts split_loop heuristic_byte_size pivot_size
    pre_flush post_flush post_flush_sent post_flush_failed restore should_flush_locked merge_from
    clear to_spans to_span to_logs to_log record_span add_span flush_parts flush_single first_report
    number_of_parts parts_of_size run_call raw_span_len from_tags grpc_translate response_disable
none_lost = (refl, refl)

calls_accounted_example :
    let (t, out) = run_calls test_library grpc_client test_calls test_tracer in
    recorded_spans test_calls
    ≡ tally event_sent out + tally event_dropped out + load t.buffer + load t.flushing
calls_accounted_example =
    calls_accounted test_library grpc_client test_options 11 [] 5 test_calls
      (omega (arith, four_recorded)) none_lost.0

abbrev four_spans : List Call
four_spans =
    recorded test_span
    ∷ recorded test_span
    ∷ recorded test_span
    ∷ flushed failing_run test_store
    ∷ recorded test_span
    ∷ []

abbrev with_flush : List Call
with_flush = four_spans ++ (flushed test_run test_store ∷ [])

four_delivered : recorded_spans with_flush ≡ 4
unfolding recorded_spans text_eq
four_delivered = refl

abbrev grpc_requests : Store → Pointer → ReportRequest
grpc_requests store p = grpc_translate p

none_left :
    (tally event_loss
        (run_calls test_library
          (translate_request test_library grpc_requests)
          with_flush
          test_tracer).1
      ≡ 0)
    × ((run_calls test_library
          (translate_request test_library grpc_requests)
          four_spans
          test_tracer).0.disabled
        ≡ false)
    × ((run_calls test_library
          (translate_request test_library grpc_requests)
          four_spans
          test_tracer).0.connection
        ≡ true)
unfolding run_calls total emitted event_sent event_loss create_tracer text_eq to_report_request tick
    close flush flush_buffer send_report split_by_parts split_loop heuristic_byte_size pivot_size
    pre_flush post_flush post_flush_sent post_flush_failed restore should_flush_locked merge_from
    clear to_spans to_span to_logs to_log record_span add_span flush_parts flush_single first_report
    number_of_parts parts_of_size run_call raw_span_len from_tags grpc_translate response_disable
none_left = (refl, refl, refl)

flush_delivers_example :
    let out =
      (run_calls test_library
        (translate_request test_library grpc_requests)
        with_flush
        test_tracer).1 in
    recorded_spans with_flush ≡ tally event_sent out + tally event_dropped out
unfolding response_disable any_disable
flush_delivers_example =
    flush_delivers test_library grpc_requests test_options 11 [] 5 four_spans test_run test_store
      none_left.1 none_left.2 (λ k. accepts accepting refl refl) (omega (arith, four_delivered))
      none_left.0
