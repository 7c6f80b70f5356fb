-- ===== src/Propagation/TextMap.antt =====
-- propagation_text.go: `textMapPropagator`, which the LightStep and B3 propagators configure.
pub mod Items
use lightstep_tracer_go.Base.{
  ℕ, Text, if◌then◌else◌, List, Option, [], some, text_eq, ltb, codes, ◌==◌, to_lower, length,
  insert, none, ◌+◌, strip_prefix, ◌∷◌, ◌++◌,
}
use lightstep_tracer_go.RawSpan.{SpanContext}
use lightstep_tracer_go.Strconv.{parse_uint}
use lightstep_tracer_go.Propagation.{
  Carrier, text_map, other_carrier, Result, ok, err, PropagationError, invalid_span_context,
  invalid_carrier, span_context_corrupted, span_context_not_found,
}

abbrev pub prefix_baggage : Text
prefix_baggage = codes "ot-baggage-"

abbrev pub tracer_state_field_count : ℕ
tracer_state_field_count = 3

-- `traceIDParser` gives the lower and the upper half.
pub record TextMapPropagator : Type 0 where
  pub trace_id_key : Text
  pub trace_id : Text
  pub span_id_key : Text
  pub span_id : Text
  pub sampled_key : Text
  pub sampled : Text
  pub parse_trace_id : Text → Option (ℕ × ℕ)

-- The loop that writes the baggage.
pub set_baggage : List (Text × Text) → List (Text × Text) → List (Text × Text)
set_baggage [] carrier = carrier
set_baggage ((k, v) ∷ items) carrier = set_baggage items (insert (prefix_baggage ++ k) v carrier)

unfoldable pub inject :
    TextMapPropagator → Option SpanContext → Carrier → Carrier × Option PropagationError
inject p none carrier = (carrier, some invalid_span_context)
inject p (some sc) other_carrier = (other_carrier, some invalid_carrier)
inject p (some sc) (text_map carrier) =
    let sampled = if ltb 0 (length p.sampled) then p.sampled else codes "true" in
    (
      text_map (
          set_baggage sc.baggage (
            insert p.sampled_key sampled
              (insert p.span_id_key p.span_id (insert p.trace_id_key p.trace_id carrier)))),
      none,
    )

-- The variables of `Extract` that the callback of `ForeachKey` updates.
pub record Decoded : Type 0 where
  pub required_field_count : ℕ
  pub trace_id_lower : ℕ
  pub trace_id_upper : ℕ
  pub span_id : ℕ
  pub sampled : Text
  pub decoded_baggage : List (Text × Text)

abbrev pub nothing_decoded : Decoded
nothing_decoded = record {
  required_field_count = 0;
  trace_id_lower = 0;
  trace_id_upper = 0;
  span_id = 0;
  sampled = [];
  decoded_baggage = [];
}

-- The callback. `none` is ErrSpanContextCorrupted, the one error that it returns.
unfoldable pub decode_key : TextMapPropagator → Text → Text → Decoded → Option Decoded
decode_key p k v d =
    if text_eq (to_lower k) p.trace_id_key
    then elim (p.parse_trace_id v) [
      | none ↦ none
      | some (lower, upper) ↦ some (record d {
        trace_id_lower = lower;
        trace_id_upper = upper;
        required_field_count = d.required_field_count + 1;
      })
    ]
    else if text_eq (to_lower k) p.span_id_key
    then elim (parse_uint 16 v) [
      | none ↦ none
      | some id ↦
          some (record d { span_id = id; required_field_count = d.required_field_count + 1 })
    ]
    else if text_eq (to_lower k) p.sampled_key
    then some (record d { sampled = v; required_field_count = d.required_field_count + 1 })
    else elim (strip_prefix prefix_baggage (to_lower k)) [
      | none ↦ some d
      | some name ↦ some (record d { decoded_baggage = insert name v d.decoded_baggage })
    ]

-- `ForeachKey` stops at the first error.
unfoldable pub foreach_key : TextMapPropagator → List (Text × Text) → Decoded → Option Decoded
foreach_key p [] d = some d
foreach_key p ((k, v) ∷ carrier) d = elim (decode_key p k v d) [
  | none ↦ none
  | some d' ↦ foreach_key p carrier d'
]

unfoldable pub finish_extract : Decoded → Result SpanContext
finish_extract d =
    if ltb d.required_field_count tracer_state_field_count
    then (if d.required_field_count == 0
        then err span_context_not_found
        else err span_context_corrupted)
    else ok (record {
      trace_id_upper = d.trace_id_upper;
      trace_id = d.trace_id_lower;
      span_id = d.span_id;
      sampled = d.sampled;
      baggage = d.decoded_baggage;
    })

unfoldable pub extract : TextMapPropagator → Carrier → Result SpanContext
extract p other_carrier = err invalid_carrier
extract p (text_map carrier) = elim (foreach_key p carrier nothing_decoded) [
  | none ↦ err span_context_corrupted
  | some d ↦ finish_extract d
]
