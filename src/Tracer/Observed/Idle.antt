-- ===== src/Tracer/Observed/Idle.antt =====
-- tracer.go: the flushing buffer between two flushes.
use lightstep_tracer_go.RawSpan.{RawSpan}
use lightstep_tracer_go.Tracer.Loop.{close, tick, loop_after, close_error, loop_closes}
use lightstep_tracer_go.Converter.{to_report_request}
use lightstep_tracer_go.Tracer.Observed.Calls.{
  run_calls, run_call, Call, recorded, flushed, ticked, closed_by_user, disabled_by_user,
}
use lightstep_tracer_go.LogEncoder.{Library}
use lightstep_tracer_go.Time.{Time}
use lightstep_tracer_go.Tracer.{
  Tracer, Output, pre_flush, post_flush, post_flush_sent, post_flush_failed, restore, Time, disable,
  record_span, RawSpan, reconnect_client, emit, should_flush_locked, close_connection, left,
}
use lightstep_tracer_go.Tracer.Flush.{
  Run, send_report, flush_parts, flush, flush_buffer, first_report, parts_of_size,
  heuristic_byte_size,
}
use lightstep_tracer_go.Tracer.Ledger.{load}
use lightstep_tracer_go.ReportBuffer.{clear, merge_from}
use lightstep_tracer_go.Events.{
  FlushError, FlushErrorState, translate, tracer_closed, tracer_is_disabled, transport, report,
}
use lightstep_tracer_go.Collector.{Store, ReportRequest, split_by_parts, Pointer, write}
use lightstep_tracer_go.Base.{
  ℕ, ◌≡◌, List, ◌∷◌, ◌++◌, [], Option, some, none, Bool, true, false, Text, arith, if◌then◌else◌,
  not, ◌⊎◌, inl, inr, map, ◌&&◌,
}

-- Between two flushes the flushing buffer holds nothing that is to be reported.
unfoldable pub Idle : Tracer → Type 0
Idle t = load t.flushing ≡ 0

restore-Idle : (t : Tracer) (state : FlushErrorState) → Idle (restore t state)
unfolding Idle restore merge_from clear load
restore-Idle t translate = omega arith
restore-Idle t tracer_closed = omega arith
restore-Idle t tracer_is_disabled = omega arith
restore-Idle t transport = omega arith
restore-Idle t report = omega arith

post_flush-Idle :
    (t : Tracer) (start end : Time) (failed : Option FlushError)
    → Idle (post_flush t start end failed).1
unfolding Idle post_flush post_flush_sent post_flush_failed clear load
post_flush-Idle t start end none = omega arith
post_flush-Idle t start end (some e) = restore-Idle (record t { report_in_flight = false }) e.state

-- A flush that is refused leaves an idle tracer.
Refused : Option FlushError → Tracer → Type 0
Refused none t = Unit
Refused (some e) t = Idle t

pick-Idle :
    (b : Bool) (r r' : Tracer × List Output) → Idle r.0 → Idle r'.0 → Idle (if b then r else r').0
pick-Idle true r r' h h' = h
pick-Idle false r r' h h' = h'

pick-Refused :
    (b : Bool) (r r' : Option FlushError × Tracer)
    → Refused r.0 r.1
    → Refused r'.0 r'.1
    → let p = if b then r else r' in Refused p.0 p.1
pick-Refused true r r' h h' = h
pick-Refused false r r' h h' = h'

pre_flush-Refused :
    (t : Tracer) (now : Time) → Idle t → let (e, t') = pre_flush t now in Refused e t'
unfolding pre_flush Refused
pre_flush-Refused t now h = pick-Refused t.disabled _ _ h (pick-Refused (not t.connection) _ _ h tt)

send_report-Idle :
    (translated : Text ⊎ ReportRequest) (parts : ℕ) (t : Tracer) (run : Run) (store : Store)
    (out : List Output)
    → Idle (send_report translated parts t run store out).0
unfolding send_report
send_report-Idle (inl err) parts t run store out =
    post_flush-Idle t run.flush_start run.flush_end (some (record { err = err; state = translate }))
send_report-Idle (inr req) parts t run store out =
    let (rrs, store') = split_by_parts req parts store in
    let (failed, t', out') = flush_parts run.answer store' 0 rrs t in
    post_flush-Idle t' run.flush_start run.flush_end failed

module _ (lib : Library) (translate_request : Store → Pointer → Text ⊎ ReportRequest) where
  flush_buffer-Idle :
      (refused : Option FlushError) (t : Tracer) (run : Run) (store : Store)
      → Refused refused t
      → Idle (flush_buffer lib translate_request refused t run store).0
  unfolding flush_buffer Refused
  flush_buffer-Idle (some e) t run store h = h
  flush_buffer-Idle none t run store h =
      let (t₁, out) = first_report t in
      let spans = t₁.flushing.raw_spans in
      let (request, flushing', events) =
        to_report_request lib t₁.converter t₁.reporter_id t₁.attributes t₁.opts.access_token
          t₁.flushing in
      let store' = write store run.address request in
      let parts =
        parts_of_size (heuristic_byte_size spans run.random0 run.random1)
          t₁.opts.grpc_max_call_send_msg_size_bytes in
      let t₂ = record t₁ { flushing = flushing' } in
      send_report-Idle (translate_request store' run.address) parts t₂ run store'
        (out ++ map emit events)

  pub flush-Idle :
      (t : Tracer) (run : Run) (store : Store)
      → Idle t
      → Idle (flush lib translate_request t run store).0
  unfolding flush
  flush-Idle t run store h =
      let (refused, t') = pre_flush t run.now in
      flush_buffer-Idle refused t' run store (pre_flush-Refused t run.now h)

  reconnect-Idle :
      (t : Tracer) (connected : Option Text) → Idle t → Idle (reconnect_client t connected).0
  unfolding reconnect_client Idle
  reconnect-Idle t (some err) h = h
  reconnect-Idle t none h = h

  tick-Idle :
      (t : Tracer) (now : Time) (should_reconnect : Bool) (connected : Option Text) (run : Run)
      (store : Store)
      → Idle t
      → Idle (tick lib translate_request t now should_reconnect connected run store).0
  unfolding tick Idle reconnect_client
  tick-Idle t now should_reconnect connected run store h =
      let reconnect = not t.report_in_flight && should_reconnect in
      let (t₁, out₁) =
        if should_flush_locked t now then flush lib translate_request t run store else (t, []) in
      let (t₂, out₂) = if reconnect then reconnect_client t₁ connected else (t₁, []) in
      let idle₁ : Idle t₁ =
        pick-Idle (should_flush_locked t now) (flush lib translate_request t run store) (t, [])
          (flush-Idle t run store h) h in
      pick-Idle t.disabled (record t { report_loop = left }, []) (t₂, out₁ ++ out₂) h
        (pick-Idle reconnect (reconnect_client t₁ connected) (t₁, [])
          (reconnect-Idle t₁ connected idle₁) idle₁)

  close-Idle :
      (t : Tracer) (cancelled : Bool) (failed : Option Text) (run : Run) (store : Store)
      → Idle t
      → Idle (close lib translate_request t cancelled failed run store).0
  unfolding close Idle
  close-Idle t cancelled failed run store h =
      let t₁ = record t { close_called = true; report_loop = loop_after t.report_loop } in
      let (t₂, out₁) = flush lib translate_request t₁ run store in
      let ended : Tracer × List Output = (
        record t₂ { connection = false },
        out₁ ++ (if t₂.connection then close_connection ∷ close_error failed else []),
      ) in
      pick-Idle t.close_called (t, []) (if loop_closes t && not cancelled then ended else (t₁, []))
        h (pick-Idle (loop_closes t && not cancelled) ended (t₁, []) (flush-Idle t₁ run store h) h)

  record_span-Idle : (t : Tracer) (raw : RawSpan) → Idle t → Idle (record_span t raw).0
  unfolding record_span Idle
  record_span-Idle t raw h = ground arith

  disable-Idle : (t : Tracer) → Idle t → Idle (disable t).0
  unfolding disable Idle
  disable-Idle t h = ground arith

  pub run_calls-Idle :
      (calls : List Call) (t : Tracer) → Idle t → Idle (run_calls lib translate_request calls t).0
  unfolding run_calls run_call
  run_calls-Idle [] t h = h
  run_calls-Idle (recorded raw ∷ calls) t h = run_calls-Idle calls _ (record_span-Idle t raw h)
  run_calls-Idle (disabled_by_user ∷ calls) t h = run_calls-Idle calls _ (disable-Idle t h)
  run_calls-Idle (flushed run store ∷ calls) t h = run_calls-Idle calls _ (flush-Idle t run store h)
  run_calls-Idle (ticked now should_reconnect connected run store ∷ calls) t h =
      run_calls-Idle calls _ (tick-Idle t now should_reconnect connected run store h)
  run_calls-Idle (closed_by_user cancelled failed run store ∷ calls) t h =
      run_calls-Idle calls _ (close-Idle t cancelled failed run store h)
