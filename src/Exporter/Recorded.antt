-- ===== src/Exporter/Recorded.antt =====
-- lightstepoc/exporter.go: the span that `ExportSpan` records, from its options to its finish.
use lightstep_tracer_go.Span.Frame.{finish_frame}
use lightstep_tracer_go.Span.Lifecycle.{finish_with_options_lem, all_records}
use lightstep_tracer_go.Span.Ring.{complete}
use lightstep_tracer_go.Span.Finish.{expected_logs}
use lightstep_tracer_go.Time.{Time, sub, is_zero}
use lightstep_tracer_go.Options.{Options}
use lightstep_tracer_go.RawSpan.Baggage.{IsMap}
use lightstep_tracer_go.Exporter.Exported.{
  Same, last_entry, set_baggage_items_lem, set_tag_frame, set_tags_lem, Same-trans,
}
use lightstep_tracer_go.Base.Int.{negsuc, pos_part}
use lightstep_tracer_go.StartOptions.{new_start_span_options, StartSpanOptions}
use lightstep_tracer_go.Exporter.{
  kind_options, SpanData, span_options, SpanKind, link_options, start_time_option, convert_span_id,
  server, convert_trace_id, trace_id, client, span_id, parent_span_id, unspecified, empty_context,
  started_span, LogData, LogRecord, status_code_key, Span, set_baggage_items, set_tag, SpanContext,
  export_span, Options, Time, annotation_record, finish_options,
}
use lightstep_tracer_go.RawSpan.{Value, Tags, empty_context, LogRecord, SpanContext}
use lightstep_tracer_go.Span.{new_span, LogData, Span, set_tag}
use lightstep_tracer_go.Base.{
  ℕ, Text, ◌≡◌, insert, codes, ◌∷◌, [], ◌≢◌, false, refl, arith, lookup, ◌%◌, ◌^◌, ap, subst, sym,
  ◌∙◌, if◌then◌else◌, text_eq, some, ◌<◌, true, map, none, append-nil,
}

-- The records of the finish are those of the annotations.
annotations_only :
    (to_log_record : LogData → LogRecord) (sd : SpanData)
    → all_records to_log_record [] (finish_options sd) ≡ map annotation_record sd.annotations
unfolding all_records finish_options
annotations_only to_log_record sd = append-nil (map annotation_record sd.annotations)

ended :
    (later : Time) (sd : SpanData)
    → sd.end_time ≢ 0
    → (start : Time) → start ≡ sd.start_time
    → sub
        (if is_zero (finish_options sd).finish_time then later else (finish_options sd).finish_time)
        start
      ≡ sub sd.end_time sd.start_time
unfolding finish_options
ended later sd end start e = rw e (ap (λ t. sub t sd.start_time) (ground arith))

module _ (kind_value : Text → Value) where
  -- The tag of a span kind.
  abbrev pub kind_tags : SpanKind → Tags
  kind_tags server = (codes "span.kind", kind_value (codes "server")) ∷ []
  kind_tags client = (codes "span.kind", kind_value (codes "client")) ∷ []
  kind_tags unspecified = []

  -- The options of a span without a link to a child.
  exported_options : SpanData → Tags → StartSpanOptions
  exported_options sd tags = record {
    options = record { references = []; start_time = sd.start_time; tags = tags };
    set_span_id = convert_span_id sd.span_id;
    set_parent_span_id = convert_span_id sd.parent_span_id;
    set_trace_id = convert_trace_id sd.trace_id;
    set_sampled = [];
  }

  kind_options_lem :
      (sd : SpanData) (kind : SpanKind)
      → new_start_span_options (
          start_time_option sd.start_time
          ∷ trace_id (convert_trace_id sd.trace_id)
          ∷ span_id (convert_span_id sd.span_id)
          ∷ parent_span_id (convert_span_id sd.parent_span_id)
          ∷ kind_options kind_value kind)
        ≡ exported_options sd (kind_tags kind)
  unfolding exported_options kind_options new_start_span_options insert
  kind_options_lem sd server = refl
  kind_options_lem sd client = refl
  kind_options_lem sd SpanKind.unspecified = refl

  span_options_lem :
      (sd : SpanData)
      → link_options sd.links ≡ []
      → new_start_span_options (span_options kind_value sd)
        ≡ exported_options sd (kind_tags sd.span_kind)
  unfolding span_options
  span_options_lem sd none_linked = rw none_linked (kind_options_lem sd sd.span_kind)

  -- A new span for a span without a link to a child.
  new_span_exported :
      (sd : SpanData) (now guid : ℕ) (guid2 : ℕ × ℕ)
      → link_options sd.links ≡ []
      → convert_trace_id sd.trace_id ≢ 0
      → convert_span_id sd.span_id ≢ 0
      → sd.start_time ≢ 0
      → new_span sd.name (span_options kind_value sd) now guid guid2 ≡ record {
        finished = false;
        raw = record {
          context = record empty_context {
            trace_id = convert_trace_id sd.trace_id;
            span_id = convert_span_id sd.span_id;
          };
          parent_span_id = convert_span_id sd.parent_span_id;
          operation = sd.name;
          start = sd.start_time;
          duration = negsuc 0;
          tags = kind_tags sd.span_kind;
          logs = [];
        };
        num_dropped_logs = 0;
      }
  unfolding new_span exported_options
  new_span_exported sd now guid guid2 none_linked t s start =
      ground (arith, span_options_lem sd none_linked)

  -- The span before its finish.
  started_span_lem :
      (to_log_record : LogData → LogRecord) (sd : SpanData) (now guid : ℕ) (guid2 : ℕ × ℕ)
      (k : Text)
      → link_options sd.links ≡ []
      → convert_trace_id sd.trace_id ≢ 0
      → convert_span_id sd.span_id ≢ 0
      → sd.start_time ≢ 0
      → let s = new_span sd.name (span_options kind_value sd) now guid guid2 in
        let s' = started_span kind_value to_log_record sd now guid guid2 in
        Same s s'
        × (lookup k s'.raw.context.baggage
            ≡ last_entry k sd.tracestate (lookup k s.raw.context.baggage))
        × (lookup k s'.raw.tags
            ≡ last_entry k
                ((status_code_key, Value.uint (sd.status_code % 2 ^ 16)) ∷ sd.attributes)
                (lookup k s.raw.tags))
  unfolding started_span
  started_span_lem to_log_record sd now guid guid2 k none_linked t s start =
      let e = new_span_exported sd now guid guid2 none_linked t s start in
      let code = Value.uint (sd.status_code % 2 ^ 16) in
      let new = new_span sd.name (span_options kind_value sd) now guid guid2 in
      let new_live : new.finished ≡ false = ap (λ (u : Span). u.finished) e in
      let new_map : IsMap new.raw.context.baggage =
        subst (λ (u : Span). IsMap u.raw.context.baggage) (sym e) tt in
      let s₁ = set_baggage_items new sd.tracestate in
      let (same₁, tags₁, items₁) = set_baggage_items_lem new sd.tracestate k new_live new_map in
      let (same₂, context₂, tags₂) =
        set_tag_frame s₁ status_code_key code k (same₁.live ∙ new_live) in
      let (same₃, context₃, tags₃) =
        set_tags_lem (set_tag s₁ status_code_key code) sd.attributes k
          (same₂.live ∙ same₁.live ∙ new_live) in
      (
        Same-trans same₁ (Same-trans same₂ same₃),
        ap (λ (c : SpanContext). lookup k c.baggage) (context₃ ∙ context₂) ∙ items₁,
        tags₃
            ∙ ap (last_entry k sd.attributes) (
                tags₂
                ∙ ap
                    (λ (tags : Tags).
                      if text_eq status_code_key k then some code else lookup k tags)
                    tags₁),
      )

  -- `ExportSpan` never panics, and records a span under the identifiers, the name and the times of the exported
  -- one: the low half of its trace identifier, its own identifier and that of its parent. The annotations become
  -- its logs, as far as the limit of the logs allows: the expected ones of a span. Each entry of the tracestate
  -- becomes baggage; each attribute becomes a tag, and so do the status code, unless an attribute has its key,
  -- and the kind of the span. This is for identifiers and times that are not 0, for a span without a
  -- link to a child, and for a limit of the logs above 0.
  pub export_span_lem :
      (to_log_record : LogData → LogRecord) (opts : Options) (sd : SpanData) (now guid : ℕ)
      (guid2 : ℕ × ℕ) (later : Time) (k : Text)
      → 0 < pos_part opts.max_logs_per_span
      → link_options sd.links ≡ []
      → convert_trace_id sd.trace_id ≢ 0
      → convert_span_id sd.span_id ≢ 0
      → sd.start_time ≢ 0
      → sd.end_time ≢ 0
      → (s : Span) × (export_span kind_value to_log_record opts sd now guid guid2 later
          ≡ some (s, true))
        × (expected_logs (pos_part opts.max_logs_per_span) (map annotation_record sd.annotations)
            ≡ some s.raw.logs)
        × (s.raw.context.trace_id ≡ convert_trace_id sd.trace_id)
        × (s.raw.context.span_id ≡ convert_span_id sd.span_id)
        × (s.raw.parent_span_id ≡ convert_span_id sd.parent_span_id)
        × (s.raw.operation ≡ sd.name)
        × (s.raw.start ≡ sd.start_time)
        × (s.raw.duration ≡ sub sd.end_time sd.start_time)
        × (lookup k s.raw.context.baggage ≡ last_entry k sd.tracestate none)
        × (lookup k s.raw.tags
            ≡ last_entry k
                ((status_code_key, Value.uint (sd.status_code % 2 ^ 16)) ∷ sd.attributes)
                (lookup k (kind_tags sd.span_kind)))
  unfolding export_span lookup
  export_span_lem to_log_record opts sd now guid guid2 later k max none_linked t si start end =
      let e = new_span_exported sd now guid guid2 none_linked t si start in
      let s₀ = started_span kind_value to_log_record sd now guid guid2 in
      let (same, items, tags) =
        started_span_lem to_log_record sd now guid guid2 k none_linked t si start in
      let live = same.live ∙ ap (λ (u : Span). u.finished) e in
      let no_logs = same.logs ∙ ap (λ (u : Span). u.raw.logs) e in
      let none_dropped = same.dropped ∙ ap (λ (u : Span). u.num_dropped_logs) e in
      let fin = finish_options sd in
      let (final, s, done, expected, logs, finished) =
        finish_with_options_lem to_log_record opts s₀ [] fin later max live
          (complete no_logs none_dropped (rw no_logs max)) in
      let (context, start_kept, tags_kept, operation, parent, duration) =
        finish_frame to_log_record opts s₀ fin later live done in
      let start' = same.start ∙ ap (λ (u : Span). u.raw.start) e in
      (
        s,
        done,
        ap (expected_logs (pos_part opts.max_logs_per_span))
              (sym (annotations_only to_log_record sd))
            ∙ expected
            ∙ ap some (sym logs),
        ap (λ (c : SpanContext). c.trace_id) context
            ∙ same.trace_id
            ∙ ap (λ (u : Span). u.raw.context.trace_id) e,
        ap (λ (c : SpanContext). c.span_id) context
            ∙ same.span_id
            ∙ ap (λ (u : Span). u.raw.context.span_id) e,
        parent ∙ same.parent ∙ ap (λ (u : Span). u.raw.parent_span_id) e,
        operation ∙ same.operation ∙ ap (λ (u : Span). u.raw.operation) e,
        start_kept ∙ start',
        duration ∙ ended later sd end s₀.raw.start start',
        ap (λ (c : SpanContext). lookup k c.baggage) context
            ∙ items
            ∙ ap (λ (u : Span). last_entry k sd.tracestate (lookup k u.raw.context.baggage)) e,
        ap (lookup k) tags_kept
            ∙ tags
            ∙ ap
                (λ (u : Span).
                  last_entry k
                    ((status_code_key, Value.uint (sd.status_code % 2 ^ 16)) ∷ sd.attributes)
                    (lookup k u.raw.tags))
                e,
      )
