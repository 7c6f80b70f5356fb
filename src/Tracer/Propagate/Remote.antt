-- ===== src/Tracer/Propagate/Remote.antt =====
-- tracer.go and span.go: a span that is started in another process, under a context that was carried there.
use lightstep_tracer_go.Propagation.LightStep.RoundTrip.{sampled_or_true, extract-inject}
use lightstep_tracer_go.Span.{new_span}
use lightstep_tracer_go.Propagation.TextMap.Items.{AllLower}
use lightstep_tracer_go.RawSpan.Baggage.{IsMap}
use lightstep_tracer_go.Span.Start.{parent_context, new_span_child}
use lightstep_tracer_go.StartOptions.{
  StartSpanOption, opentracing, child_of, new_start_span_options,
}
use lightstep_tracer_go.Tracer.{Tracer, Output}
use lightstep_tracer_go.Propagation.Binary.{Codec}
use lightstep_tracer_go.Tracer.Propagate.{
  Format, builtin, Tracer, tracer_extract, text_map_format, tracer_inject, create_propagators,
  http_headers_format, text_injected, text_result, text_carrier, meta_spans, AnyCarrier,
}
use lightstep_tracer_go.Propagation.LightStep
use lightstep_tracer_go.Propagation.{text_map, ok, Carrier}
use lightstep_tracer_go.RawSpan.{SpanContext}
use lightstep_tracer_go.Base.{
  ℕ, List, ◌++◌, some, ◌∷◌, [], ◌≡◌, Text, none, ◌≢◌, ◌<◌, inr, refl, codes, word_mod, arith,
  lookup, sym, ◌∙◌,
}

-- The formats of text carriers, for which a tracer without propagators of the user takes its own.
pub data TextFormat : Format → Type 0 where
  text_maps : TextFormat (builtin text_map_format)
  http_headers : TextFormat (builtin http_headers_format)

-- opentracing's `ChildOf`
abbrev pub child_of_remote : SpanContext → List StartSpanOption
child_of_remote c =
    opentracing (λ o. record o {
      references = o.references ++ (record { type = child_of; referenced_context = some c } ∷ []);
    })
    ∷ []

module _ (codec : Codec) (t : Tracer) where
  inject_lem :
      {f : Format} (sc : SpanContext) (carrier carrier' : Carrier)
      → TextFormat f
      → LightStep.inject (some sc) carrier ≡ (carrier', none)
      → tracer_inject t (create_propagators codec []) (some sc) f (text_carrier carrier)
        ≡ some ((text_carrier carrier', none), meta_spans t (codes "lightstep.inject_span"))
  unfolding tracer_inject create_propagators text_injected
  inject_lem sc carrier carrier' text_maps e = ground arith
  inject_lem sc carrier carrier' http_headers e = ground arith

  extract_lem :
      {f : Format} (sc : SpanContext) (carrier : Carrier)
      → TextFormat f
      → LightStep.extract carrier ≡ ok sc
      → tracer_extract t (create_propagators codec []) f (text_carrier carrier)
        ≡ some (inr sc, meta_spans t (codes "lightstep.extract_span"))
  unfolding tracer_extract create_propagators text_result
  extract_lem sc carrier text_maps e = rw e
  extract_lem sc carrier http_headers e = rw e

child_parent :
    (c : SpanContext)
    → parent_context (new_start_span_options (child_of_remote c)).options.references ≡ some c
unfolding parent_context new_start_span_options
child_parent c = refl

-- A context that one tracer injects into an empty text map or headers, and another tracer extracts there: a span
-- that is started as a child of the extracted context is in the trace of the first one, with its span as the
-- parent, the value of each baggage key, and the sampling decision, which is "true" if it was empty. This is for
-- tracers without propagators of the user, identifiers of 64 bits, of which that of the trace is not 0, and
-- baggage with distinct keys in lower case.
pub remote_child :
    (codec codec' : Codec) (t t' : Tracer) (f f' : Format) (sc : SpanContext) (operation : Text)
    (now guid : ℕ) (guid2 : ℕ × ℕ) (k : Text)
    → TextFormat f
    → TextFormat f'
    → sc.trace_id ≢ 0
    → sc.trace_id < word_mod
    → sc.span_id < word_mod
    → IsMap sc.baggage
    → AllLower sc.baggage
    → (carrier : AnyCarrier) × (sc' : SpanContext) × (out : List Output) × (out' : List Output)
      × (tracer_inject t (create_propagators codec []) (some sc) f (text_carrier (text_map []))
          ≡ some ((carrier, none), out))
      × (tracer_extract t' (create_propagators codec' []) f' carrier ≡ some (inr sc', out'))
      × let s = new_span operation (child_of_remote sc') now guid guid2 in
        (s.raw.context.trace_id ≡ sc.trace_id)
        × (s.raw.parent_span_id ≡ sc.span_id)
        × (s.raw.context.sampled ≡ sampled_or_true sc)
        × (lookup k s.raw.context.baggage ≡ lookup k sc.baggage)
remote_child codec codec' t t' f f' sc operation now guid guid2 k format format' some_trace ht hs m
      l =
    let (carrier, sc', injected, extracted, trace, span, sampled, upper, items, m') =
      extract-inject sc k ht hs m l in
    let (child_trace, child_parent_id, child_sampled, child_items, own, child_upper) =
      new_span_child operation (child_of_remote sc') now guid guid2 sc' k (child_parent sc')
        (λ e. some_trace (sym trace ∙ e)) m' in
    (
      text_carrier carrier,
      sc',
      meta_spans t (codes "lightstep.inject_span"),
      meta_spans t' (codes "lightstep.extract_span"),
      inject_lem codec t sc (text_map []) carrier format injected,
      extract_lem codec' t' sc' carrier format' extracted,
      (child_trace ∙ trace, child_parent_id ∙ span, child_sampled ∙ sampled, child_items ∙ items),
    )
