-- ===== src/Propagation/B3.antt =====
-- propagation_b3.go: the headers `x-b3-…`.
pub mod TraceIds
use lightstep_tracer_go.RawSpan.{SpanContext, empty_context}
use lightstep_tracer_go.Base.{
  ℕ, Text, Option, if◌then◌else◌, lookup, codes, some, ◌==◌, length, take, ◌++◌, none, ltb, drop,
}
use lightstep_tracer_go.Propagation.{
  Propagator, SpanContext, Carrier, PropagationError, Result, invalid_span_context,
}
use lightstep_tracer_go.Propagation.TextMap
use lightstep_tracer_go.Propagation.TextMap.{TextMapPropagator}
use lightstep_tracer_go.Strconv.{format_uint, parse_uint}

abbrev pub field_name_trace_id : Text
field_name_trace_id = codes "x-b3-traceid"

abbrev pub field_name_span_id : Text
field_name_span_id = codes "x-b3-spanid"

abbrev pub field_name_sampled : Text
field_name_sampled = codes "x-b3-sampled"

-- The lower half, then the upper one.
unfoldable pub trace_id_parser : Text → Option (ℕ × ℕ)
trace_id_parser v =
    if length v == 32
    then elim (parse_uint 16 (take 15 v)) [
      | none ↦ none
      | some upper ↦ elim (parse_uint 16 (drop 16 v)) [
        | none ↦ none
        | some lower ↦ some (lower, upper)
      ]
    ]
    else elim (parse_uint 16 v) [ none ↦ none | some id ↦ some (id, 0) ]

pub format_trace_id : ℕ → ℕ → Text
format_trace_id lower upper =
    if upper == 0 then format_uint 16 lower else format_uint 16 upper ++ format_uint 16 lower

-- The sampling decision comes from the baggage.
pub sample : SpanContext → Text
sample sc = elim (lookup field_name_sampled sc.baggage) [
  | none ↦ codes "1"
  | some v ↦ if ltb 0 (length v) then v else codes "1"
]

unfoldable pub propagator : SpanContext → TextMapPropagator
unfolding sample
propagator sc = record {
  trace_id_key = field_name_trace_id;
  trace_id = format_trace_id sc.trace_id sc.trace_id_upper;
  span_id_key = field_name_span_id;
  span_id = format_uint 16 sc.span_id;
  sampled_key = field_name_sampled;
  sampled = sample sc;
  parse_trace_id = trace_id_parser;
}

unfoldable pub inject : Option SpanContext → Carrier → Carrier × Option PropagationError
inject none carrier = (carrier, some invalid_span_context)
inject (some sc) carrier = TextMap.inject (propagator sc) (some sc) carrier

unfoldable pub extract : Carrier → Result SpanContext
extract carrier = TextMap.extract (propagator empty_context) carrier

abbrev pub b3_propagator : Propagator
b3_propagator = record { inject = inject; extract = extract }
