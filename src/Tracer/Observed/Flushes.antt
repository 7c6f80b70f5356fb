-- ===== src/Tracer/Observed/Flushes.antt =====
-- tracer.go: what the events of `Flush` tell of the spans.
use lightstep_tracer_go.Converter.Account.{to_spans_lem, with_errors}
use lightstep_tracer_go.Converter.{to_report_request}
use lightstep_tracer_go.Proto.{ReportResponse}
use lightstep_tracer_go.Collector.{
  Store, Pointer, ReportRequest, write, response_dev_mode, split_by_parts, response_disable,
}
use lightstep_tracer_go.LogEncoder.{Library}
use lightstep_tracer_go.Events.{FlushError, status_report, flush_error, translate, Event}
use lightstep_tracer_go.Tracer.Observed.Steps.{
  stay-Tells, pick-Tells, disable-Tells, pre_flush-Tells, first_report-Tells, landed, landed-Tells,
  same_events-Tells, mode-Tells,
}
use lightstep_tracer_go.Tracer.Observed.{
  event_sent, event_dropped, emitted, Tells, quiet-Tells, then-Tells,
}
use lightstep_tracer_go.Converter.Unsupported.{total, to_report_request-total}
use lightstep_tracer_go.Tracer.{Tracer, Output, emit, disable, pre_flush, post_flush}
use lightstep_tracer_go.Tracer.Flush.{
  error_output, first_report, flush_single, flush_parts, send_report, Run, is_some, flush_buffer,
  flush, sent, heuristic_byte_size, parts_of_size,
}
use lightstep_tracer_go.Tracer.Balance.{Balanced}
use lightstep_tracer_go.Tracer.Ledger.{load, Ledger}
use lightstep_tracer_go.Base.{
  ◌≡◌, List, ◌+◌, ◌∷◌, ◌++◌, [], arith, refl, Option, some, none, Bool, if◌then◌else◌, true, false,
  Text, ap, ℕ, ◌⊎◌, inl, map, inr, ◌||◌, subst, sym, ◌∙◌, append_assoc,
}

flush_single-Tells :
    (t : Tracer) (answer : Text ⊎ ReportResponse)
    → let (err, failed, t', out) = flush_single t answer in Tells t (t', out)
unfolding flush_single
flush_single-Tells t (inl err) = stay-Tells t
flush_single-Tells t (inr resp) =
    let mode = response_dev_mode resp in
    let t' = record t { meta_event_reporting_enabled = mode } in
    then-Tells t t' _ [] _ (mode-Tells t mode) (
      pick-Tells (response_disable resp) t' (disable t') (t', []) (disable-Tells t')
        (stay-Tells t'))

picked_part :
    {A : Type 0} (b : Bool) (t : Tracer) (r r' : A × Tracer × List Output)
    → Tells t (r.1, r.2)
    → Tells t (r'.1, r'.2)
    → let result = if b then r else r' in Tells t (result.1, result.2)
picked_part true t r r' h h' = h
picked_part false t r r' h h' = h'

flush_parts-Tells :
    (answer : ℕ → Text ⊎ ReportResponse) (store : Store) (i : ℕ) (rrs : List ReportRequest)
    (t : Tracer)
    → let (failed, t', out) = flush_parts answer store i rrs t in Tells t (t', out)
unfolding flush_parts emitted
flush_parts-Tells answer store i [] t = stay-Tells t
flush_parts-Tells answer store i (rr ∷ rrs) t =
    let (err, failed, t', out) = flush_single t (answer i) in
    let (failed', t'', out') = flush_parts answer store (i + 1) rrs t' in
    let first = flush_single-Tells t (answer i) in
    picked_part (is_some err || is_some failed) t (failed, t', sent store rr ∷ out)
      (failed', t'', sent store rr ∷ (out ++ out')) (same_events-Tells t t' out _ refl first)
      (same_events-Tells t t'' (out ++ out') _ refl
        (then-Tells t t' t'' out out' first (flush_parts-Tells answer store (i + 1) rrs t')))

-- The sending of a report after some outputs.
send_report-Tells :
    (translated : Text ⊎ ReportRequest) (parts : ℕ) (t₀ t : Tracer) (run : Run) (store : Store)
    (out : List Output)
    → Tells t₀ (t, out)
    → Tells t₀ (send_report translated parts t run store out)
unfolding send_report landed
send_report-Tells (inl err) parts t₀ t run store out h =
    let e : FlushError = record { err = err; state = translate } in
    then-Tells t₀ t _ out _ h (landed-Tells t run.flush_start run.flush_end (some e))
send_report-Tells (inr req) parts t₀ t run store out h =
    let (rrs, store') = split_by_parts req parts store in
    let (failed, t', out') = flush_parts run.answer store' 0 rrs t in
    let (t'', ended) = landed t' run.flush_start run.flush_end failed in
    let (status, u) = post_flush t' run.flush_start run.flush_end failed in
    let last = emit (status_report status) ∷ [] in
    subst (λ o. Tells t₀ (t'', o))
      (sym (
        append_assoc (out ++ out') (error_output failed) last
        ∙ append_assoc out out' (error_output failed ++ last)))
      (then-Tells t₀ t t'' out (out' ++ ended) h (
        then-Tells t t' t'' out' ended (flush_parts-Tells run.answer store' 0 rrs t)
          (landed-Tells t' run.flush_start run.flush_end failed)))

emitted-map : (events : List Event) → emitted (map emit events) ≡ events
unfolding emitted
emitted-map [] = refl
emitted-map (e ∷ events) = ap (λ es. e ∷ es) (emitted-map events)

with_errors-Balanced :
    (t : Tracer) (l : Ledger) (n : ℕ)
    → Balanced t l
    → Balanced (record t { flushing = with_errors t.flushing n }) l
unfolding load
with_errors-Balanced t l n b = ground arith

module _ (lib : Library) (translate_request : Store → Pointer → Text ⊎ ReportRequest) where
  converted-Tells :
      (t : Tracer)
      → let (request, flushing', events) =
          to_report_request lib t.converter t.reporter_id t.attributes t.opts.access_token
            t.flushing in
        Tells t (record t { flushing = flushing' }, map emit events)
  unfolding to_report_request event_sent event_dropped
  converted-Tells t =
      let (k, o, n, e) = to_spans_lem lib t.converter t.flushing.raw_spans t.flushing in
      let (request, flushing', events) =
        to_report_request lib t.converter t.reporter_id t.attributes t.opts.access_token
          t.flushing in
      quiet-Tells t (record t { flushing = flushing' }) (map emit events)
        (λ l b.
          subst (λ x. Balanced (record t { flushing = x }) l) (sym e)
            (with_errors-Balanced t l _ b))
        refl
        (ap (total event_sent) (emitted-map events)
          ∙ to_report_request-total lib t.converter event_sent (λ k v err. refl) t.reporter_id
              t.attributes t.opts.access_token t.flushing)
        (ap (total event_dropped) (emitted-map events)
          ∙ to_report_request-total lib t.converter event_dropped (λ k v err. refl) t.reporter_id
              t.attributes t.opts.access_token t.flushing)

  flush_buffer-Tells :
      (refused : Option FlushError) (t : Tracer) (run : Run) (store : Store)
      → Tells t (flush_buffer lib translate_request refused t run store)
  unfolding flush_buffer total emitted event_sent event_dropped
  flush_buffer-Tells (some e) t run store =
      quiet-Tells t t (emit (flush_error e) ∷ []) (λ l b. b) refl refl refl
  flush_buffer-Tells none t run store =
      let (t₁, out) = first_report t in
      let spans = t₁.flushing.raw_spans in
      let (request, flushing', events) =
        to_report_request lib t₁.converter t₁.reporter_id t₁.attributes t₁.opts.access_token
          t₁.flushing in
      let store' = write store run.address request in
      let t₂ = record t₁ { flushing = flushing' } in
      send_report-Tells (translate_request store' run.address)
        (parts_of_size (heuristic_byte_size spans run.random0 run.random1)
          t₁.opts.grpc_max_call_send_msg_size_bytes)
        t t₂ run store' (out ++ map emit events)
        (then-Tells t t₁ t₂ out (map emit events) (first_report-Tells t) (converted-Tells t₁))

  -- The status reports of a flush account for its spans.
  pub flush-Tells :
      (t : Tracer) (run : Run) (store : Store) → Tells t (flush lib translate_request t run store)
  unfolding flush
  flush-Tells t run store =
      let (refused, t') = pre_flush t run.now in
      then-Tells t t' _ [] _ (pre_flush-Tells t run.now) (flush_buffer-Tells refused t' run store)
