-- ===== src/Tracer/Observed/Calls.antt =====
-- tracer.go: the calls of a program and the ticks of the report loop, one after the other.
use lightstep_tracer_go.Events.{connection_error}
use lightstep_tracer_go.Time.{Time}
use lightstep_tracer_go.RawSpan.{RawSpan}
use lightstep_tracer_go.Tracer.Observed.{
  event_sent, event_dropped, emitted, Tells, then-Tells, quiet-Tells,
}
use lightstep_tracer_go.Tracer.Observed.Flushes.{flush-Tells}
use lightstep_tracer_go.Tracer.Observed.Steps.{stay-Tells, pick-Tells}
use lightstep_tracer_go.Converter.Unsupported.{total}
use lightstep_tracer_go.Tracer.{
  Tracer, Output, emit, disable, record_span, reconnect_client, should_flush_locked,
  close_connection, left, RawSpan, Time, connection_error,
}
use lightstep_tracer_go.Tracer.Loop.{tick, close, close_error, loop_after, loop_closes}
use lightstep_tracer_go.Tracer.Flush.{flush, Run}
use lightstep_tracer_go.Collector.{Store, Pointer, ReportRequest}
use lightstep_tracer_go.LogEncoder.{Library}
use lightstep_tracer_go.Base.{
  ℕ, List, ◌+◌, ◌∷◌, ◌++◌, [], arith, refl, Option, some, none, if◌then◌else◌, Text, text_eq, ◌⊎◌,
  Bool, false, true, codes, ◌&&◌, not,
}

-- `RecordSpan`, `Disable`, `Flush`, a tick of the report loop, and `Close`, with what each takes from outside.
pub data Call : Type 0 where
  recorded : RawSpan → Call
  disabled_by_user : Call
  flushed : Run → Store → Call
  ticked : Time → Bool → Option Text → Run → Store → Call
  closed_by_user : Bool → Option Text → Run → Store → Call

-- The spans that the program records and that are not sampled out.
unfoldable pub recorded_spans : List Call → ℕ
recorded_spans [] = 0
recorded_spans (recorded raw ∷ calls) =
    if text_eq raw.context.sampled (codes "false")
    then recorded_spans calls
    else recorded_spans calls + 1
recorded_spans (c ∷ calls) = recorded_spans calls

module _ (lib : Library) (translate_request : Store → Pointer → Text ⊎ ReportRequest) where
  unfoldable pub run_call : Call → Tracer → Tracer × List Output
  unfolding record_span disable flush tick close
  run_call (recorded raw) t = record_span t raw
  run_call disabled_by_user t = disable t
  run_call (flushed run store) t = flush lib translate_request t run store
  run_call (ticked now should_reconnect connected run store) t =
      tick lib translate_request t now should_reconnect connected run store
  run_call (closed_by_user cancelled failed run store) t =
      close lib translate_request t cancelled failed run store

  unfoldable pub run_calls : List Call → Tracer → Tracer × List Output
  unfolding run_call
  run_calls [] t = (t, [])
  run_calls (c ∷ calls) t =
      let (t', out) = run_call c t in let (t'', out') = run_calls calls t' in (t'', out ++ out')

  reconnect-Tells : (t : Tracer) (connected : Option Text) → Tells t (reconnect_client t connected)
  unfolding reconnect_client total emitted event_sent event_dropped
  reconnect-Tells t (some err) =
      quiet-Tells t t (emit (connection_error err) ∷ []) (λ l b. b) refl refl refl
  reconnect-Tells t none =
      quiet-Tells t (record t { connection = true }) (close_connection ∷ []) (λ l b. ground arith)
        refl refl refl

  left-Tells : (t : Tracer) → Tells t (record t { report_loop = left }, [])
  unfolding total emitted
  left-Tells t =
      quiet-Tells t (record t { report_loop = left }) [] (λ l b. ground arith) refl refl refl

  pub tick-Tells :
      (t : Tracer) (now : Time) (should_reconnect : Bool) (connected : Option Text) (run : Run)
      (store : Store)
      → Tells t (tick lib translate_request t now should_reconnect connected run store)
  unfolding tick
  tick-Tells t now should_reconnect connected run store =
      let reconnect = not t.report_in_flight && should_reconnect in
      let (t₁, out₁) =
        if should_flush_locked t now then flush lib translate_request t run store else (t, []) in
      let (t₂, out₂) = if reconnect then reconnect_client t₁ connected else (t₁, []) in
      pick-Tells t.disabled t (record t { report_loop = left }, []) (t₂, out₁ ++ out₂)
        (left-Tells t)
        (then-Tells t t₁ t₂ out₁ out₂
          (pick-Tells (should_flush_locked t now) t (flush lib translate_request t run store)
            (t, []) (flush-Tells lib translate_request t run store) (stay-Tells t))
          (pick-Tells reconnect t₁ (reconnect_client t₁ connected) (t₁, [])
            (reconnect-Tells t₁ connected) (stay-Tells t₁)))

  begun-Tells :
      (t : Tracer)
      → Tells t (record t { close_called = true; report_loop = loop_after t.report_loop }, [])
  unfolding total emitted
  begun-Tells t =
      quiet-Tells t (record t { close_called = true; report_loop = loop_after t.report_loop }) []
        (λ l b. ground arith) refl refl refl

  -- The end of `Close`, where the connection is closed.
  closing-Tells :
      (t : Tracer) (failed : Option Text)
      → Tells t (
        record t { connection = false },
        if t.connection then close_connection ∷ close_error failed else [],
      )
  unfolding total emitted event_sent event_dropped
  closing-Tells t none =
      quiet-Tells t (record t { connection = false }) _ (λ l b. ground arith) refl (ground arith)
        (ground arith)
  closing-Tells t (some err) =
      quiet-Tells t (record t { connection = false }) _ (λ l b. ground arith) refl (ground arith)
        (ground arith)

  pub close-Tells :
      (t : Tracer) (cancelled : Bool) (failed : Option Text) (run : Run) (store : Store)
      → Tells t (close lib translate_request t cancelled failed run store)
  unfolding close
  close-Tells t cancelled failed run store =
      let t₁ = record t { close_called = true; report_loop = loop_after t.report_loop } in
      let (t₂, out₁) = flush lib translate_request t₁ run store in
      let out₂ = if t₂.connection then close_connection ∷ close_error failed else [] in
      pick-Tells t.close_called t (t, []) _ (stay-Tells t)
        (pick-Tells (loop_closes t && not cancelled) t
          (record t₂ { connection = false }, out₁ ++ out₂) (t₁, [])
          (then-Tells t t₁ _ [] (out₁ ++ out₂) (begun-Tells t) (
            then-Tells t₁ t₂ _ out₁ out₂ (flush-Tells lib translate_request t₁ run store)
              (closing-Tells t₂ failed)))
          (begun-Tells t))
