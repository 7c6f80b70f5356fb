-- ===== src/Tracer/Observed/Delivered.antt =====
-- tracer.go: a flush that the collector accepts leaves no span behind.
use lightstep_tracer_go.Tracer.Observed.Idle.{Idle, run_calls-Idle, flush-Idle}
use lightstep_tracer_go.Tracer.Observed.Accounts.{calls_accounted}
use lightstep_tracer_go.Tracer.Observed.{tally, event_loss, event_sent, event_dropped}
use lightstep_tracer_go.Options.{Options}
use lightstep_tracer_go.Converter.{to_report_request}
use lightstep_tracer_go.Tracer.Observed.Calls.{run_calls, run_call, Call, flushed, recorded_spans}
use lightstep_tracer_go.LogEncoder.{Library}
use lightstep_tracer_go.Proto.{ReportResponse}
use lightstep_tracer_go.Time.{Time}
use lightstep_tracer_go.Tracer.Sending.{Accepts, flush_single-Accepts}
use lightstep_tracer_go.Tracer.{
  Tracer, Output, pre_flush, post_flush, post_flush_sent, Time, emit, create_tracer, Options,
}
use lightstep_tracer_go.Tracer.Flush.{
  Run, send_report, flush_parts, is_some, sent, flush, flush_buffer, first_report, parts_of_size,
  heuristic_byte_size,
}
use lightstep_tracer_go.Tracer.Ledger.{load}
use lightstep_tracer_go.ReportBuffer.{set_current, set_flushing}
use lightstep_tracer_go.Events.{FlushError}
use lightstep_tracer_go.Collector.{Store, ReportRequest, split_by_parts, Pointer, write}
use lightstep_tracer_go.Base.{
  ℕ, ◌≡◌, List, ◌+◌, ◌∷◌, ◌++◌, [], refl, Option, none, true, false, Text, arith, if◌then◌else◌,
  not, ◌⊎◌, subst, inr, ◌||◌, sym, if_false, ◌∙◌, map, ap, ◌<◌, int_max,
}

-- With answers that accept, the loop over the parts keeps the other buffer.
flush_parts-buffer :
    (answer : ℕ → Text ⊎ ReportResponse) (store : Store) (i : ℕ) (rrs : List ReportRequest)
    (t : Tracer)
    → ((k : ℕ) → Accepts (answer k))
    → let (failed, t', out) = flush_parts answer store i rrs t in
      (failed ≡ none) × (t'.buffer ≡ t.buffer)
unfolding flush_parts
flush_parts-buffer answer store i [] t h = (refl, refl)
flush_parts-buffer answer store i (rr ∷ rrs) t h =
    let (mode, e) = flush_single-Accepts t (answer i) (h i) in
    let rest =
      flush_parts-buffer answer store (i + 1) rrs (record t { meta_event_reporting_enabled = mode })
        h in
    subst
      (λ r.
        let (failed, t', out') = flush_parts answer store (i + 1) rrs r.2 in
        let p : Option FlushError × Tracer × List Output =
          if is_some r.0 || is_some r.1
          then (r.1, r.2, sent store rr ∷ r.3)
          else (failed, t', sent store rr ∷ (r.3 ++ out')) in
        (p.0 ≡ none) × (p.1.buffer ≡ t.buffer))
      (sym e) rest

-- What a report leaves behind when the collector accepts it.
send_report-buffer :
    (req : ReportRequest) (parts : ℕ) (t : Tracer) (run : Run) (store : Store) (out : List Output)
    → ((k : ℕ) → Accepts (run.answer k))
    → (send_report (inr req) parts t run store out).0.buffer ≡ t.buffer
unfolding send_report post_flush post_flush_sent
send_report-buffer req parts t run store out h =
    let (rrs, store') = split_by_parts req parts store in
    let (failed, t', out') = flush_parts run.answer store' 0 rrs t in
    let (none_failed, kept) = flush_parts-buffer run.answer store' 0 rrs t h in
    subst (λ f. (post_flush t' run.flush_start run.flush_end f).1.buffer ≡ t.buffer)
      (sym none_failed) kept

module _ (lib : Library) (translate : Store → Pointer → ReportRequest) where
  abbrev pub translate_request : Store → Pointer → Text ⊎ ReportRequest
  translate_request store p = inr (translate store p)

  first_report-buffer : (t : Tracer) → (first_report t).0.buffer ≡ t.buffer
  unfolding first_report
  first_report-buffer t = ground arith

  flush_buffer-buffer :
      (t : Tracer) (run : Run) (store : Store)
      → ((k : ℕ) → Accepts (run.answer k))
      → (flush_buffer lib translate_request none t run store).0.buffer ≡ t.buffer
  unfolding flush_buffer
  flush_buffer-buffer t run store h =
      let (t₁, out) = first_report t in
      let spans = t₁.flushing.raw_spans in
      let (request, flushing', events) =
        to_report_request lib t₁.converter t₁.reporter_id t₁.attributes t₁.opts.access_token
          t₁.flushing in
      let store' = write store run.address request in
      let parts =
        parts_of_size (heuristic_byte_size spans run.random0 run.random1)
          t₁.opts.grpc_max_call_send_msg_size_bytes in
      let t₂ = record t₁ { flushing = flushing' } in
      send_report-buffer (translate store' run.address) parts t₂ run store' (out ++ map emit events)
        h
      ∙ first_report-buffer t

  -- An accepted flush of an idle tracer that is enabled and connected.
  flush-empty :
      (t : Tracer) (run : Run) (store : Store)
      → Idle t
      → t.disabled ≡ false
      → t.connection ≡ true
      → ((k : ℕ) → Accepts (run.answer k))
      → load (flush lib translate_request t run store).0.buffer ≡ 0
  unfolding flush pre_flush Idle load set_current
  flush-empty t run store idle on connected h =
      let swapped = record t {
        buffer = set_current t.flushing run.now;
        flushing = set_flushing t.buffer run.now;
        report_in_flight = true;
        last_report_attempt = run.now;
      } in
      let begun : pre_flush t run.now ≡ (none, swapped) =
        if_false _ _ on ∙ if_false _ _ (ap not connected) in
      ap (λ r. load (flush_buffer lib translate_request r.0 r.1 run store).0.buffer) begun
      ∙ ap load (flush_buffer-buffer swapped run store h)
      ∙ idle

  run_calls-last :
      (calls : List Call) (c : Call) (t : Tracer)
      → (run_calls lib translate_request (calls ++ (c ∷ [])) t).0
        ≡ (run_call lib translate_request c (run_calls lib translate_request calls t).0).0
  unfolding run_calls
  run_calls-last [] c t = refl
  run_calls-last (d ∷ calls) c t = run_calls-last calls c (run_call lib translate_request d t).0

  -- A flush whose reports the collector accepts leaves nothing behind: after any calls and ticks, with any
  -- answers, from a new tracer on, and then such a flush of a tracer that is enabled and connected, each span
  -- that was recorded and not sampled out is called sent or called dropped by a status report, as long as no
  -- event has told of a loss, and for as many spans as an `int64` counts. This is for a client whose
  -- translation does not fail, as that of gRPC.
  pub flush_delivers :
      (opts : Options) (guid : ℕ) (attributes : List (Text × Text)) (created : Time)
      (calls : List Call) (run : Run) (store : Store)
      → (run_calls lib translate_request calls
          (create_tracer opts guid attributes created)).0.disabled
        ≡ false
      → (run_calls lib translate_request calls
          (create_tracer opts guid attributes created)).0.connection
        ≡ true
      → ((k : ℕ) → Accepts (run.answer k))
      → recorded_spans (calls ++ (flushed run store ∷ [])) < int_max
      → tally event_loss
          (run_calls lib translate_request
            (calls ++ (flushed run store ∷ []))
            (create_tracer opts guid attributes created)).1
        ≡ 0
      → let out =
          (run_calls lib translate_request
            (calls ++ (flushed run store ∷ []))
            (create_tracer opts guid attributes created)).1 in
        recorded_spans (calls ++ (flushed run store ∷ []))
        ≡ tally event_sent out + tally event_dropped out
  unfolding create_tracer Idle load run_call
  flush_delivers opts guid attributes created calls run store on connected h few none_lost =
      let start = create_tracer opts guid attributes created in
      let t = (run_calls lib translate_request calls start).0 in
      let last = run_calls-last calls (flushed run store) start in
      let idle : Idle t = run_calls-Idle lib translate_request calls start refl in
      let empty = ap (λ u. load u.buffer) last ∙ flush-empty t run store idle on connected h in
      let flushed_ =
        ap (λ u. load u.flushing) last ∙ flush-Idle lib translate_request t run store idle in
      omega (
        arith,
        empty,
        flushed_,
        calls_accounted lib translate_request opts guid attributes created
            (calls ++ (flushed run store ∷ [])) few none_lost,
      )
