-- ===== src/Tracer/Flush.antt =====
-- tracer.go: `Flush` and `FlushSingle`.
use lightstep_tracer_go.Base.Int.{ℤ, pos, negsuc}
use lightstep_tracer_go.Proto.{ReportResponse}
use lightstep_tracer_go.Events.{
  FlushError, report, transport, flush_error, translate, status_report,
}
use lightstep_tracer_go.RawSpan.{RawSpan, raw_span_len}
use lightstep_tracer_go.Time.{Time}
use lightstep_tracer_go.Converter.{to_report_request}
use lightstep_tracer_go.LogEncoder.{Library}
use lightstep_tracer_go.Collector.{
  Store, Pointer, ReportRequest, split_by_parts, write, response_dev_mode, response_disable,
}
use lightstep_tracer_go.Tracer.{
  Tracer, disable, Output, pre_flush, send, post_flush, emit, meta_span,
}
use lightstep_tracer_go.Base.{
  ℕ, if◌then◌else◌, List, Text, Option, Bool, ◌⊎◌, ltb, none, [], get_elem?, ◌%◌, false, ◌∷◌, ◌&&◌,
  length, ◌+◌, ◌==◌, inl, not, some, ◌*◌, true, ◌||◌, ◌/◌, ◌++◌, inr, codes, map,
}

-- What a flush takes from outside: the three readings of the clock, the random numbers of the two
-- pivots, the address of the new request, and the answer of the collector to each report.
pub record Run : Type 0 where
  pub flush_start : Time
  pub now : Time
  pub flush_end : Time
  pub random0 : ℕ
  pub random1 : ℕ
  pub address : Pointer
  pub answer : ℕ → Text ⊎ ReportResponse

-- The size that the span at a random place would give all spans. The place is always in range.
unfoldable pub pivot_size : List RawSpan → ℕ → ℕ
pivot_size spans random = elim (get_elem? spans (random % length spans)) [
  | none ↦ 0
  | some span ↦ raw_span_len span * length spans
]

-- `heuristicByteSize`. The sizes are far below the range of `int`.
unfoldable pub heuristic_byte_size : List RawSpan → ℕ → ℕ → ℕ
unfolding pivot_size
heuristic_byte_size [] random0 random1 = 0
heuristic_byte_size (span ∷ []) random0 random1 = raw_span_len span
heuristic_byte_size (span ∷ second ∷ rest) random0 random1 =
    let spans = span ∷ second ∷ rest in
    let h = pivot_size spans random0 in
    let size = if ltb 0 h then h else 0 in
    let h' = pivot_size spans random1 in if ltb size h' then h' else size

-- `parts`, for a maximum above 0.
unfoldable pub number_of_parts : ℕ → ℕ → ℕ
number_of_parts size max_bytes =
    if ltb max_bytes size
    then (if size % max_bytes == 0 then size / max_bytes else size / max_bytes + 1)
    else 1

-- `parts` for any maximum; `Initialize` leaves none of 0. With a negative one the quotient is at most 0, and 1 is
-- added to it at most, so that the request stays whole as with 1.
unfoldable pub parts_of_size : ℕ → ℤ → ℕ
unfolding number_of_parts
parts_of_size size (pos max_bytes) = number_of_parts size max_bytes
parts_of_size size (negsuc n) = 1

-- The error of the first text of `GetErrors`, which the code uses as a format: the text is taken as it is, which
-- `fmt.Errorf` does with one that has no percent sign.
unfoldable pub report_error : List Text → Option FlushError
report_error [] = none
report_error (err ∷ errors) = some (record { err = err; state = report })

-- `FlushSingle` with the answer of the collector: its two results, the tracer, and the outputs.
unfoldable pub flush_single :
    Tracer → Text ⊎ ReportResponse → Option Text × Option FlushError × Tracer × List Output
unfolding report_error disable
flush_single t (inl err) = (some err, some (record { err = err; state = transport }), t, [])
flush_single t (inr resp) =
    let t' = record t { meta_event_reporting_enabled = response_dev_mode resp } in
    let (t'', out) = if response_disable resp then disable t' else (t', []) in
    (none, report_error resp.errors, t'', out)

abbrev pub is_some {ℓ} : {A : Type ℓ} → Option A → Bool
is_some none = false
is_some (some x) = true

-- What the client sends for a request.
abbrev pub sent : Store → ReportRequest → Output
sent store rr =
    send (elim (rr.proto_request) [ none ↦ none | some p ↦ some (store p) ]) rr.http_request

-- The loop over the parts, from the number `i` on.
unfoldable pub flush_parts :
    (ℕ → Text ⊎ ReportResponse)
    → Store
    → ℕ
    → List ReportRequest
    → Tracer
    → Option FlushError × Tracer × List Output
unfolding flush_single
flush_parts answer store i [] t = (none, t, [])
flush_parts answer store i (rr ∷ rrs) t =
    let (err, failed, t', out) = flush_single t (answer i) in
    let (failed', t'', out') = flush_parts answer store (i + 1) rrs t' in
    if is_some err || is_some failed
    then (failed, t', sent store rr ∷ out)
    else (failed', t'', sent store rr ∷ (out ++ out'))

-- `emitEvent(reportErrorEvent)`
abbrev pub error_output : Option FlushError → List Output
error_output none = []
error_output (some e) = emit (flush_error e) ∷ []

-- The meta event of the first report.
unfoldable pub first_report : Tracer → Tracer × List Output
first_report t =
    if t.opts.meta_event_reporting_enabled && not t.first_report_has_run
    then (
      record t { first_report_has_run = true },
      meta_span (codes "lightstep.tracer_create") ∷ [],
    )
    else (t, [])

-- `Flush` from the result of the translation on, with the store of the request and the outputs so far.
unfoldable pub send_report :
    Text ⊎ ReportRequest → ℕ → Tracer → Run → Store → List Output → Tracer × List Output
unfolding split_by_parts flush_parts post_flush
send_report (inl err) parts t run store out =
    let e : FlushError = record { err = err; state = translate } in
    let (status, t') = post_flush t run.flush_start run.flush_end (some e) in
    (t', out ++ (emit (flush_error e) ∷ emit (status_report status) ∷ []))
send_report (inr req) parts t run store out =
    let (rrs, store') = split_by_parts req parts store in
    let (failed, t', out') = flush_parts run.answer store' 0 rrs t in
    let (status, t'') = post_flush t' run.flush_start run.flush_end failed in
    (t'', out ++ out' ++ error_output failed ++ (emit (status_report status) ∷ []))

module _ (lib : Library) (translate_request : Store → Pointer → Text ⊎ ReportRequest) where
  -- `Flush` from the result of `preFlush` on. The spans that it starts on the global tracer and the calls
  -- that other goroutines make meanwhile do not change the tracer here.
  unfoldable pub flush_buffer : Option FlushError → Tracer → Run → Store → Tracer × List Output
  unfolding first_report heuristic_byte_size parts_of_size send_report
  flush_buffer (some e) t run store = (t, emit (flush_error e) ∷ [])
  flush_buffer none t run store =
      let (t₁, out) = first_report t in
      let spans = t₁.flushing.raw_spans in
      let parts =
        parts_of_size (heuristic_byte_size spans run.random0 run.random1)
          t₁.opts.grpc_max_call_send_msg_size_bytes in
      let (request, flushing', events) =
        to_report_request lib t₁.converter t₁.reporter_id t₁.attributes t₁.opts.access_token
          t₁.flushing in
      let store' = write store run.address request in
      send_report (translate_request store' run.address) parts (record t₁ { flushing = flushing' })
        run store' (out ++ map emit events)

  -- `Flush`
  unfoldable pub flush : Tracer → Run → Store → Tracer × List Output
  unfolding pre_flush flush_buffer
  flush t run store = let (refused, t') = pre_flush t run.now in flush_buffer refused t' run store
