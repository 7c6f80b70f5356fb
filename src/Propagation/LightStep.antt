-- ===== src/Propagation/LightStep.antt =====
-- propagation_lightstep.go: the headers `ot-tracer-…`.
pub mod RoundTrip
use lightstep_tracer_go.RawSpan.{SpanContext, empty_context}
use lightstep_tracer_go.Base.{ℕ, Text, Option, codes, some, none}
use lightstep_tracer_go.Propagation.{
  Propagator, SpanContext, Carrier, Result, PropagationError, invalid_span_context,
}
use lightstep_tracer_go.Propagation.TextMap
use lightstep_tracer_go.Propagation.TextMap.{TextMapPropagator}
use lightstep_tracer_go.Strconv.{format_uint, parse_uint}

abbrev pub field_name_trace_id : Text
field_name_trace_id = codes "ot-tracer-traceid"

abbrev pub field_name_span_id : Text
field_name_span_id = codes "ot-tracer-spanid"

abbrev pub field_name_sampled : Text
field_name_sampled = codes "ot-tracer-sampled"

unfoldable pub trace_id_parser : Text → Option (ℕ × ℕ)
trace_id_parser v = elim (parse_uint 16 v) [ none ↦ none | some id ↦ some (id, 0) ]

-- The text map propagator of `Inject`; `Extract` reads only its keys and its parser.
unfoldable pub propagator : SpanContext → TextMapPropagator
propagator sc = record {
  trace_id_key = field_name_trace_id;
  trace_id = format_uint 16 sc.trace_id;
  span_id_key = field_name_span_id;
  span_id = format_uint 16 sc.span_id;
  sampled_key = field_name_sampled;
  sampled = sc.sampled;
  parse_trace_id = trace_id_parser;
}

pub inject : Option SpanContext → Carrier → Carrier × Option PropagationError
inject none carrier = (carrier, some invalid_span_context)
inject (some sc) carrier = TextMap.inject (propagator sc) (some sc) carrier

-- The fields that `Extract` leaves empty are not read.
unfoldable pub extract : Carrier → Result SpanContext
extract carrier = TextMap.extract (propagator empty_context) carrier

abbrev pub lightstep_propagator : Propagator
lightstep_propagator = record { inject = inject; extract = extract }
