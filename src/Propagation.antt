-- ===== src/Propagation.antt =====
-- propagation.go: the interface of the propagators, with the errors and carriers of opentracing-go.
pub mod TextMap
pub mod LightStep
pub mod B3
pub mod Stack
pub mod Binary
use lightstep_tracer_go.Base.{Option, List, Text}
use lightstep_tracer_go.RawSpan.{SpanContext}

pub data PropagationError : Type 0 where
  invalid_span_context invalid_carrier span_context_corrupted span_context_not_found
        no_valid_propagator :
      PropagationError

pub data Result (A : Type 0) : Type 0 where
  ok : A → Result A
  err : PropagationError → Result A

-- An `interface{}` carrier. A text map is its keys and values in the order of `ForeachKey`;
-- `other_carrier` is anything that is neither a `TextMapReader` nor a `TextMapWriter`.
pub data Carrier : Type 0 where
  text_map : List (Text × Text) → Carrier
  other_carrier : Carrier

-- `Inject` writes into the carrier: it gives the carrier afterwards beside its error. A context of
-- another tracer is `none`.
pub record Propagator : Type 0 where
  pub inject : Option SpanContext → Carrier → Carrier × Option PropagationError
  pub extract : Carrier → Result SpanContext
