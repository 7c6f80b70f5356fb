-- ===== src/Tests/Propagators.antt =====
-- Runs of the theorems on the propagators.
use lightstep_tracer_go.RawSpan.Baggage.{IsMap}
use lightstep_tracer_go.Propagation.Binary.RoundTrip.{binary_round_trip, fresh_stream}
use lightstep_tracer_go.Propagation.Binary.{
  read_carrier, Codec, to_basic, extract_bytes, BinaryCarrier, extract_message, stream,
  BasicCarrier, invalid_carrier, other_error,
}
use lightstep_tracer_go.Propagation.Binary
use lightstep_tracer_go.Propagation.Stack.{extract_lem}
use lightstep_tracer_go.Strconv.{parse_uint, parse_loop, push_digit, digit_value}
use lightstep_tracer_go.Propagation.LightStep.{lightstep_propagator}
use lightstep_tracer_go.Propagation.LightStep.RoundTrip.{extract-inject}
use lightstep_tracer_go.Propagation.B3.TraceIds.{trace_id_parser_long}
use lightstep_tracer_go.Propagation.B3.{b3_propagator}
use lightstep_tracer_go.Propagation.{
  Carrier, text_map, err, ok, no_valid_propagator, span_context_not_found, invalid_carrier,
}
use lightstep_tracer_go.RawSpan.{SpanContext}
use lightstep_tracer_go.Base.{
  ◌^◌, ◌≡◌, some, ◌+◌, codes, ◌∷◌, [], lookup, none, arith, refl, text_eq, strip_prefix, lower,
  Text, inr, ◌⊎◌, if◌then◌else◌, inl, Option, ◌==◌,
}
use lightstep_tracer_go.Tests.{test_context}
use lightstep_tracer_go.Propagation.LightStep
use lightstep_tracer_go.Propagation.B3
use lightstep_tracer_go.Propagation.Stack
use lightstep_tracer_go.Propagation.TextMap

extract-inject_example :
    (carrier : Carrier) × (sc' : SpanContext) × (LightStep.inject (some test_context) (text_map [])
      ≡ (carrier, none))
    × (LightStep.extract carrier ≡ ok sc')
    × (sc'.trace_id ≡ 7)
    × (sc'.span_id ≡ 9)
    × (sc'.sampled ≡ codes "true")
    × (sc'.trace_id_upper ≡ 0)
    × (lookup (codes "user") sc'.baggage ≡ some (codes "ada"))
    × IsMap sc'.baggage
unfolding lookup text_eq lower
extract-inject_example =
    extract-inject test_context (codes "user") (omega arith) (omega arith) (refl, tt) (refl, tt)

trace_id_parser_long_example :
    B3.trace_id_parser (B3.format_trace_id (2 ^ 60) (2 ^ 60 + 16)) ≡ some (2 ^ 60, 2 ^ 56 + 1)
trace_id_parser_long_example =
    trace_id_parser_long (2 ^ 60) (2 ^ 60 + 16) (omega arith) (omega arith) (omega arith)
      (omega arith)

abbrev lightstep_carrier : Carrier
lightstep_carrier = text_map (
    (codes "ot-tracer-traceid", codes "7")
    ∷ (codes "ot-tracer-spanid", codes "9")
    ∷ (codes "OT-Tracer-Sampled", codes "false")
    ∷ [])

abbrev extracted_context : SpanContext
extracted_context = record {
  trace_id = 7;
  trace_id_upper = 0;
  span_id = 9;
  sampled = codes "false";
  baggage = [];
}

not_b3 : B3.extract lightstep_carrier ≡ err span_context_not_found
unfolding B3.extract B3.trace_id_parser TextMap.extract TextMap.foreach_key TextMap.decode_key
    TextMap.finish_extract parse_uint strip_prefix text_eq lower B3.propagator LightStep.propagator
not_b3 = refl

is_lightstep : LightStep.extract lightstep_carrier ≡ ok extracted_context
unfolding LightStep.extract LightStep.trace_id_parser TextMap.extract TextMap.foreach_key
    TextMap.decode_key TextMap.finish_extract parse_uint strip_prefix text_eq lower parse_loop
    push_digit digit_value B3.propagator LightStep.propagator
is_lightstep = refl

-- A stack that asks for B3 first finds the other format behind it.
extract_lem_example :
    (Stack.extract (record { propagators = b3_propagator ∷ [] }) lightstep_carrier
      ≡ err no_valid_propagator)
    × (Stack.extract
          (record { propagators = b3_propagator ∷ lightstep_propagator ∷ [] })
          lightstep_carrier
        ≡ ok extracted_context)
extract_lem_example =
    extract_lem lightstep_carrier (b3_propagator ∷ []) [] lightstep_propagator extracted_context
      ((span_context_not_found, not_b3), tt) is_lightstep

-- A message of three numbers, for contexts without baggage.
read_message : Text → Text ⊎ Option BasicCarrier
read_message (t ∷ s ∷ sampled ∷ []) =
    inr (some (record { trace_id = t; span_id = s; sampled = sampled == 1; baggage_items = [] }))
read_message message = inr none

abbrev test_codec : Codec
test_codec = record {
  marshal = λ b. inr (b.trace_id ∷ b.span_id ∷ (if b.sampled then 1 else 0) ∷ []);
  unmarshal = read_message;
  encode = λ message. 0 ∷ message;
  decode = λ s. elim s [ [] ↦ inl [] | c ∷ message ↦ inr message ];
}

abbrev unsampled_context : SpanContext
unsampled_context = record test_context { baggage = []; sampled = codes "no" }

binary_round_trip_example :
    (carrier' : BinaryCarrier) × (Binary.inject test_codec (some unsampled_context) (stream [] none)
      ≡ some (carrier', none))
    × (Binary.extract test_codec carrier'
        ≡ inr (record unsampled_context { trace_id_upper = 0; sampled = codes "false" }))
unfolding to_basic text_eq read_message
binary_round_trip_example =
    binary_round_trip test_codec unsampled_context (7 ∷ 9 ∷ 0 ∷ []) (stream [] none) fresh_stream
      refl refl refl

-- A stream that is not in base64 is taken for an empty message.
lost_error : Binary.extract test_codec (stream [] none) ≡ inl invalid_carrier
unfolding Binary.extract read_carrier extract_bytes extract_message read_message
lost_error = refl

kept_error : Binary.extract test_codec (BinaryCarrier.string []) ≡ inl (other_error [])
unfolding Binary.extract read_carrier extract_bytes
kept_error = refl
