-- ===== src/Tests/Tracing.antt =====
-- Runs of the theorems on the tracer.
use lightstep_tracer_go.Tracer.Observed.Calls.{run_calls, ticked, flushed, closed_by_user, recorded}
use lightstep_tracer_go.Tracer.Disabled.{
  called_after, flush_calls, refusal_when_disabled, disabled_lasts,
}
use lightstep_tracer_go.Tracer.Sending.{send_report_split, accepts}
use lightstep_tracer_go.Collector.Split.{copies, with_spans}
use lightstep_tracer_go.Tracer.Balance.{spans_accounted}
use lightstep_tracer_go.Tracer.Shutdown.{first_tick_flushes, close_lem}
use lightstep_tracer_go.ReportBuffer.{new_spans_buffer}
use lightstep_tracer_go.Tracer.Loop.{close, tick}
use lightstep_tracer_go.Tracer.Flush.{Run, flush, send_report}
use lightstep_tracer_go.Collector.{
  Store, max_part_size, Pointer, grpc_translate, ReportRequest, response_disable, any_disable,
}
use lightstep_tracer_go.Tracer.Ledger.{
  run_actions, Action, Ledger, act, load, recording, empty_ledger, enter_status, starting, ending,
}
use lightstep_tracer_go.Events.{FlushError, flush_error, StatusReport, transport, status_report}
use lightstep_tracer_go.Proto.{ReportResponse}
use lightstep_tracer_go.Tracer.{
  create_tracer, Tracer, record_span, emit, left, send, closed, reconnect_client, close_connection,
}
use lightstep_tracer_go.Base.{
  ◌≡◌, List, inr, [], ◌^◌, ◌+◌, true, none, Text, ◌⊎◌, false, ◌∷◌, arith, text_eq, refl, ◌<◌,
  int_max, some, ◌++◌, if◌then◌else◌,
}
use lightstep_tracer_go.Tests.{test_options, test_span, test_tracer}
use lightstep_tracer_go.Tests.Reports.{test_library, test_store, test_message, test_request}

abbrev pub grpc_client : Store → Pointer → Text ⊎ ReportRequest
grpc_client store p = inr (grpc_translate p)

abbrev pub accepting : ReportResponse
accepting = record { errors = []; commands = [] }

abbrev pub test_run : Run
test_run = record {
  flush_start = 10;
  now = 11;
  flush_end = 12;
  random0 = 0;
  random1 = 1;
  address = 0;
  answer = λ i. inr accepting;
}

-- Three spans for a buffer of two, a flush that fails, a fourth span, and a flush that is accepted.
abbrev five_steps : List Action
five_steps =
    recording test_span
    ∷ recording test_span
    ∷ recording test_span
    ∷ starting 7
    ∷ ending 6 8 (some (record { err = []; state = transport }))
    ∷ recording test_span
    ∷ starting 9
    ∷ ending 8 10 none
    ∷ []

abbrev last_state : Tracer × Ledger
last_state = run_actions five_steps (test_tracer, empty_ledger)

few_taken : last_state.1.taken < int_max
unfolding run_actions act record_span create_tracer enter_status text_eq
few_taken = omega arith

spans_accounted_example :
    last_state.1.taken
    ≡ last_state.1.sent_spans
      + last_state.1.dropped_spans
      + last_state.1.thrown_away
      + load last_state.0.buffer
      + load last_state.0.flushing
spans_accounted_example = spans_accounted test_options 11 [] 5 five_steps few_taken

-- In the middle of a flush of five spans.
abbrev sending_tracer : Tracer
sending_tracer = record test_tracer {
  flushing = record (test_tracer.flushing) {
    raw_spans = test_span ∷ test_span ∷ test_span ∷ test_span ∷ test_span ∷ [];
  };
}

send_report_split_example :
    let (t', out') = send_report (inr (grpc_translate 0)) 2 sending_tracer test_run test_store [] in
    (status : StatusReport) × (out'
      ≡ copies 2 (send (some (with_spans test_request (test_message 4 ∷ test_message 5 ∷ []))) none)
        ++ (emit (status_report status) ∷ []))
    × (status.sent_spans ≡ 5)
    × (t'.flushing.raw_spans ≡ [])
unfolding max_part_size create_tracer new_spans_buffer response_disable any_disable
send_report_split_example =
    send_report_split 0 2 1 sending_tracer test_run test_store [] (omega arith) (omega arith)
      (omega arith) (λ k. accepts accepting refl refl)

abbrev off_tracer : Tracer
off_tracer = record test_tracer { disabled = true }

disabled_lasts_example :
    run_calls test_library grpc_client
      (ticked 20 true none test_run test_store
        ∷ flushed test_run test_store
        ∷ closed_by_user false none test_run test_store
        ∷ recorded test_span
        ∷ flushed test_run test_store
        ∷ [])
      off_tracer
    ≡ (
      record off_tracer { report_loop = left; close_called = true },
      refusal_when_disabled ∷ refusal_when_disabled ∷ [],
    )
unfolding create_tracer called_after flush_calls copies
disabled_lasts_example =
    disabled_lasts test_library grpc_client off_tracer 20 true none test_run test_store
      (flushed test_run test_store
        ∷ closed_by_user false none test_run test_store
        ∷ recorded test_span
        ∷ flushed test_run test_store
        ∷ [])
      refl

close_lem_example :
    let (t₂, out₂) =
      flush test_library grpc_client
        (record test_tracer { close_called = true; report_loop = closed })
        test_run
        test_store in
    let (t', out) = close test_library grpc_client test_tracer false none test_run test_store in
    (out ≡ out₂ ++ (if t₂.connection then close_connection ∷ [] else []))
    × (t' ≡ record t₂ { connection = false })
    × (t'.connection ≡ false)
    × (close test_library grpc_client t' true none test_run test_store ≡ (t', []))
    × ((e : FlushError) × (flush test_library grpc_client t' test_run test_store
          ≡ (t', emit (flush_error e) ∷ [])))
unfolding create_tracer
close_lem_example =
    close_lem test_library grpc_client test_tracer true none none test_run test_run test_store refl
      refl

first_tick_flushes_example :
    let (after, out) = flush test_library grpc_client test_tracer test_run test_store in
    (tick test_library grpc_client test_tracer (2 ^ 63) false none test_run test_store
      ≡ (after, out ++ []))
    × (tick test_library grpc_client test_tracer (2 ^ 63) true none test_run test_store
        ≡ ((reconnect_client after none).0, out ++ (reconnect_client after none).1))
first_tick_flushes_example =
    first_tick_flushes test_library grpc_client test_options 11 [] 5 (2 ^ 63) 2_500_000_000
      500_000_000 none test_run test_store refl refl (omega arith) (omega arith)
