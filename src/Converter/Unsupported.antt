-- ===== src/Converter/Unsupported.antt =====
-- proto_converter.go and proto_logencoder.go: the events of a conversion are those of unsupported values.
use lightstep_tracer_go.RawSpan.{Field, LogRecord, RawSpan, Tags, Value}
use lightstep_tracer_go.Events.{Event, unsupported_value, new_event_unsupported_value}
use lightstep_tracer_go.Converter.{
  to_logs, to_log, to_spans, to_span, to_field, from_tags, to_report_request,
}
use lightstep_tracer_go.LogEncoder.{
  Library, ProtoConverter, marshal_field, marshal_fields, LogFieldEncoder, emit_object,
  emit_key_value,
}
use lightstep_tracer_go.ReportBuffer.{ReportBuffer}
use lightstep_tracer_go.Base.{
  ℕ, ◌≡◌, List, ◌+◌, ◌∷◌, ◌++◌, [], arith, refl, Text, Sum-cases, ◌∙◌, inl, inr,
}

-- The sum of what the events count for.
unfoldable pub total : (Event → ℕ) → List Event → ℕ
total f [] = 0
total f (e ∷ events) = f e + total f events

pub total-append :
    (f : Event → ℕ) (es es' : List Event) → total f (es ++ es') ≡ total f es + total f es'
unfolding total
total-append f [] es' = omega arith
total-append f (e ∷ es) es' = omega (arith, total-append f es es')

module _ (lib : Library) (c : ProtoConverter) (f : Event → ℕ)
    (unsupported : (k : Text) (v : Value) (err : Text) → f (unsupported_value k v err) ≡ 0) where
  marshal_field-total :
      (field : Field) (lfe : LogFieldEncoder)
      → total f (marshal_field lib c field lfe).events ≡ total f lfe.events
  unfolding marshal_field emit_object emit_key_value total new_event_unsupported_value
  marshal_field-total (Field.object key value) lfe = elim (Sum-cases (lib.json_marshal value)) [
    | inl (err, e) ↦
        rw (e, emit_object)
          (omega (
            arith,
            total-append f lfe.events (unsupported_value key value err ∷ []),
            unsupported key value err,
          ))
    | inr (json, e) ↦ rw (e, emit_object) refl
  ]
  marshal_field-total field lfe = refl

  marshal_fields-total :
      (fields : List Field) (lfe : LogFieldEncoder)
      → total f (marshal_fields lib c fields lfe).events ≡ total f lfe.events
  unfolding marshal_fields
  marshal_fields-total [] lfe = refl
  marshal_fields-total (field ∷ fields) lfe =
      marshal_fields-total fields (marshal_field lib c field lfe) ∙ marshal_field-total field lfe

  to_logs-total :
      (logs : List LogRecord) (buffer : ReportBuffer) → total f (to_logs lib c logs buffer).2 ≡ 0
  unfolding to_logs to_log total
  to_logs-total [] buffer = refl
  to_logs-total (lr ∷ logs) buffer =
      let lfe : LogFieldEncoder = record { buffer = buffer; key_values = []; events = [] } in
      let (log, buffer', events) = to_log lib c lr buffer in
      let (messages, buffer'', events') = to_logs lib c logs buffer' in
      omega (
        arith,
        total-append f events events',
        marshal_fields-total lr.fields lfe,
        to_logs-total logs buffer',
      )

  to_field-total : (k : Text) (v : Value) → total f (to_field lib c k v).1 ≡ 0
  unfolding to_field total new_event_unsupported_value
  to_field-total k Value.nil =
      omega (arith, unsupported k Value.nil (lib.unsupported_text k Value.nil))
  to_field-total k (Value.other s json) =
      omega
        (arith, unsupported k (Value.other s json) (lib.unsupported_text k (Value.other s json)))
  to_field-total k v = refl

  from_tags-total : (tags : Tags) → total f (from_tags lib c tags).1 ≡ 0
  unfolding from_tags total
  from_tags-total [] = refl
  from_tags-total ((k, v) ∷ tags) =
      let (field, events) = to_field lib c k v in
      let (fields, events') = from_tags lib c tags in
      omega (arith, total-append f events events', to_field-total k v, from_tags-total tags)

  to_spans-total :
      (spans : List RawSpan) (buffer : ReportBuffer) → total f (to_spans lib c spans buffer).2 ≡ 0
  unfolding to_spans to_span total
  to_spans-total [] buffer = refl
  to_spans-total (span ∷ spans) buffer =
      let (tags, events) = from_tags lib c span.tags in
      let (logs, buffer', events') = to_logs lib c span.logs buffer in
      let (messages, buffer'', events'') = to_spans lib c spans buffer' in
      omega (
        arith,
        total-append f (events ++ events') events'',
        total-append f events events',
        from_tags-total span.tags,
        to_logs-total span.logs buffer,
        to_spans-total spans buffer',
      )

  -- A count of events that leaves out those of unsupported values finds none in a conversion.
  pub to_report_request-total :
      (id : ℕ) (attributes : List (Text × Text)) (token : Text) (buffer : ReportBuffer)
      → total f (to_report_request lib c id attributes token buffer).2 ≡ 0
  unfolding to_report_request
  to_report_request-total id attributes token buffer = to_spans-total buffer.raw_spans buffer
