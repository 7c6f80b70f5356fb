-- ===== src/Propagation/Binary/RoundTrip.antt =====
-- propagation_binary.go: `Extract` after `Inject`.
use lightstep_tracer_go.Propagation.Binary.{
  Codec, BinaryCarrier, from_basic, stream, extract_bytes, write_carrier, to_basic, inject,
  extract_message, extract, read_carrier, inject_bytes, string_pointer, bytes_pointer,
  decoded_or_empty, decoded,
}
use lightstep_tracer_go.RawSpan.{SpanContext}
use lightstep_tracer_go.Base.{Text, if◌then◌else◌, [], ◌≡◌, codes, refl, inr, none, some, ap, ◌∙◌}

-- A carrier that takes bytes and gives them back: a fresh stream without errors, or a pointer that is not nil.
pub data Writable : BinaryCarrier → Type 0 where
  fresh_stream : Writable (stream [] none)
  string_place : (s : Text) → Writable (string_pointer (some s))
  bytes_place : (s : Text) → Writable (bytes_pointer (some s))

-- The sampling decision that comes back: empty if the context was sampled, and else "false".
abbrev pub sampled_again : SpanContext → Text
sampled_again sc = if (to_basic sc).sampled then [] else codes "false"

normal_form :
    (sc : SpanContext)
    → from_basic (to_basic sc) ≡ record sc { trace_id_upper = 0; sampled = sampled_again sc }
unfolding from_basic to_basic
normal_form sc = refl

module _ (codec : Codec) where
  written :
      (carrier : BinaryCarrier) (buf message : Text)
      → Writable carrier
      → codec.decode buf ≡ inr message
      → (carrier' : BinaryCarrier) × (write_carrier codec buf carrier ≡ some (carrier', none))
        × (read_carrier codec carrier' ≡ inr message)
  unfolding write_carrier read_carrier
  written carrier buf message fresh_stream d =
      (stream buf none, refl, ap (λ r. inr (decoded_or_empty codec r)) d)
  written carrier buf message (string_place s) d =
      (string_pointer (some buf), refl, ap (decoded codec) d)
  written carrier buf message (bytes_place s) d =
      (bytes_pointer (some buf), refl, ap (decoded codec) d)

  extracted :
      (sc : SpanContext) (message : Text)
      → codec.unmarshal message ≡ inr (some (to_basic sc))
      → extract_bytes codec (inr message) ≡ inr (from_basic (to_basic sc))
  unfolding extract_bytes extract_message
  extracted sc message u = ap (extract_message codec) u

  -- `Inject` into a carrier that takes bytes succeeds, and `Extract` gives the context back, with its sampling
  -- decision in a normal form and without the upper half of its trace identifier. This is for a context that
  -- protobuf can marshal, where protobuf and base64 read back what they wrote.
  pub binary_round_trip :
      (sc : SpanContext) (message : Text) (carrier : BinaryCarrier)
      → Writable carrier
      → codec.marshal (to_basic sc) ≡ inr message
      → codec.unmarshal message ≡ inr (some (to_basic sc))
      → codec.decode (codec.encode message) ≡ inr message
      → (carrier' : BinaryCarrier) × (inject codec (some sc) carrier ≡ some (carrier', none))
        × (extract codec carrier'
            ≡ inr (record sc { trace_id_upper = 0; sampled = sampled_again sc }))
  unfolding inject extract inject_bytes
  binary_round_trip sc message carrier w m u d =
      let (carrier', e, e') = written carrier (codec.encode message) message w d in
      (
        carrier',
        ap (λ r. inject_bytes codec r carrier) m ∙ e,
        ap (extract_bytes codec) e' ∙ extracted sc message u ∙ ap inr (normal_form sc),
      )
