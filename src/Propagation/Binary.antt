-- ===== src/Propagation/Binary.antt =====
-- propagation_binary.go: a context as a protobuf message in base64, in several kinds of carriers.
pub mod RoundTrip
use lightstep_tracer_go.RawSpan.{SpanContext}
use lightstep_tracer_go.Base.{
  ℕ, ◌⊎◌, Text, Option, Bool, inl, List, inr, some, if◌then◌else◌, text_eq, none, [], ◌++◌, codes,
  ◌||◌,
}

-- `lightstep.BasicTracerCarrier` of the generated package
pub record BasicCarrier : Type 0 where
  pub trace_id : ℕ
  pub span_id : ℕ
  pub sampled : Bool
  pub baggage_items : List (Text × Text)

-- protobuf and base64: the bytes of a `BinaryCarrier` with a basic context, the basic context of bytes, if
-- there is one, and the two directions of the encoding, with their errors.
pub record Codec : Type 0 where
  pub marshal : BasicCarrier → Text ⊎ Text
  pub unmarshal : Text → Text ⊎ Option BasicCarrier
  pub encode : Text → Text
  pub decode : Text → Text ⊎ Text

pub data BinaryError : Type 0 where
  invalid_span_context invalid_carrier : BinaryError
  other_error : Text → BinaryError

-- A stream holds what was written and not read, and may have an error of its own; a pointer may be nil.
pub data BinaryCarrier : Type 0 where
  stream : Text → Option Text → BinaryCarrier
  string_pointer : Option Text → BinaryCarrier
  string : Text → BinaryCarrier
  bytes_pointer : Option Text → BinaryCarrier
  bytes : Text → BinaryCarrier
  other_carrier : BinaryCarrier

unfoldable pub to_basic : SpanContext → BasicCarrier
to_basic sc = record {
  trace_id = sc.trace_id;
  span_id = sc.span_id;
  sampled =
      text_eq sc.sampled [] || text_eq sc.sampled (codes "true") || text_eq sc.sampled (codes "1");
  baggage_items = sc.baggage;
}

-- The context of a basic carrier. A sampled one leaves the field empty.
unfoldable pub from_basic : BasicCarrier → SpanContext
from_basic b = record {
  trace_id = b.trace_id;
  trace_id_upper = 0;
  span_id = b.span_id;
  sampled = if b.sampled then [] else codes "false";
  baggage = b.baggage_items;
}

module _ (codec : Codec) where
  -- The `switch` of `Inject`: the carrier afterwards and the error. `none` is a panic: an assignment
  -- through a nil pointer.
  unfoldable pub write_carrier : Text → BinaryCarrier → Option (BinaryCarrier × Option BinaryError)
  write_carrier buf (stream content none) = some (stream (content ++ buf) none, none)
  write_carrier buf (stream content (some err)) =
      some (stream content (some err), some (other_error err))
  write_carrier buf (string_pointer none) = none
  write_carrier buf (string_pointer (some s)) = some (string_pointer (some buf), none)
  write_carrier buf (bytes_pointer none) = none
  write_carrier buf (bytes_pointer (some s)) = some (bytes_pointer (some buf), none)
  write_carrier buf (string s) = some (string s, some invalid_carrier)
  write_carrier buf (bytes s) = some (bytes s, some invalid_carrier)
  write_carrier buf other_carrier = some (other_carrier, some invalid_carrier)

  unfoldable pub inject_bytes :
      Text ⊎ Text → BinaryCarrier → Option (BinaryCarrier × Option BinaryError)
  unfolding write_carrier
  inject_bytes (inl err) carrier = some (carrier, some (other_error err))
  inject_bytes (inr message) carrier = write_carrier (codec.encode message) carrier

  -- `Inject`. A context of another tracer is `none`.
  unfoldable pub inject :
      Option SpanContext → BinaryCarrier → Option (BinaryCarrier × Option BinaryError)
  unfolding inject_bytes to_basic
  inject none carrier = some (carrier, some invalid_span_context)
  inject (some sc) carrier = inject_bytes (codec.marshal (to_basic sc)) carrier

  abbrev pub decoded : Text ⊎ Text → BinaryError ⊎ Text
  decoded (inl err) = inl (other_error err)
  decoded (inr message) = inr message

  -- The reader's case declares an `err` of its own, so that an error of the decoding is lost there, with no
  -- bytes as the result.
  abbrev pub decoded_or_empty : Text ⊎ Text → Text
  decoded_or_empty (inl err) = []
  decoded_or_empty (inr message) = message

  -- The `switch` of `Extract`. A nil pointer gives no bytes.
  unfoldable pub read_carrier : BinaryCarrier → BinaryError ⊎ Text
  read_carrier (stream content none) = inr (decoded_or_empty (codec.decode content))
  read_carrier (stream content (some err)) = inl (other_error err)
  read_carrier (string_pointer none) = inr []
  read_carrier (string_pointer (some s)) = decoded (codec.decode s)
  read_carrier (bytes_pointer none) = inr []
  read_carrier (bytes_pointer (some s)) = decoded (codec.decode s)
  read_carrier (string s) = decoded (codec.decode s)
  read_carrier (bytes s) = decoded (codec.decode s)
  read_carrier other_carrier = inl invalid_carrier

  unfoldable pub extract_message : Text ⊎ Option BasicCarrier → BinaryError ⊎ SpanContext
  unfolding from_basic
  extract_message (inl err) = inl (other_error err)
  extract_message (inr none) = inl invalid_carrier
  extract_message (inr (some b)) = inr (from_basic b)

  unfoldable pub extract_bytes : BinaryError ⊎ Text → BinaryError ⊎ SpanContext
  unfolding extract_message
  extract_bytes (inl err) = inl err
  extract_bytes (inr message) = extract_message (codec.unmarshal message)

  -- `Extract`
  unfoldable pub extract : BinaryCarrier → BinaryError ⊎ SpanContext
  unfolding extract_bytes read_carrier
  extract carrier = extract_bytes (read_carrier carrier)
