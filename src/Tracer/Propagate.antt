-- ===== src/Tracer/Propagate.antt =====
-- tracer.go: `Inject` and `Extract`, which choose a propagator by the format.
pub mod Remote
pub mod Choice
use lightstep_tracer_go.Tracer.{Tracer, Output, meta_span}
use lightstep_tracer_go.Propagation.{PropagationError, Carrier, Result, ok, err}
use lightstep_tracer_go.Propagation.Binary.{
  Codec, BinaryCarrier, BinaryError, to_basic, other_error,
}
use lightstep_tracer_go.Propagation.Binary
use lightstep_tracer_go.Propagation.LightStep
use lightstep_tracer_go.RawSpan.{SpanContext}
use lightstep_tracer_go.Base.{
  ℕ, Option, ◌⊎◌, some, none, inr, inl, Bool, List, ◌∷◌, [], true, if◌then◌else◌, Text, false, ◌==◌,
  ◌&&◌, codes,
}

-- The formats of opentracing-go: a `BuiltinFormat`, or any other value.
pub data Format : Type 0 where
  builtin : ℕ → Format
  other_format : Format

abbrev pub binary_format : ℕ
binary_format = 0

abbrev pub text_map_format : ℕ
text_map_format = 1

abbrev pub http_headers_format : ℕ
http_headers_format = 2

-- A carrier of either kind of propagator.
pub data AnyCarrier : Type 0 where
  text_carrier : Carrier → AnyCarrier
  binary_carrier : BinaryCarrier → AnyCarrier

pub data AnyError : Type 0 where
  text_error : PropagationError → AnyError
  binary_error : BinaryError → AnyError
  unsupported_format : AnyError

-- The interface `Propagator`. `none` is a panic.
pub record AnyPropagator : Type 0 where
  pub inject : Option SpanContext → AnyCarrier → Option (AnyCarrier × Option AnyError)
  pub extract : AnyCarrier → Option (AnyError ⊎ SpanContext)

unfoldable pub text_result : Result SpanContext → AnyError ⊎ SpanContext
text_result (ok c) = inr c
text_result (err e) = inl (text_error e)

unfoldable pub text_injected : Carrier × Option PropagationError → AnyCarrier × Option AnyError
text_injected (carrier, none) = (text_carrier carrier, none)
text_injected (carrier, some e) = (text_carrier carrier, some (text_error e))

-- `LightStepPropagator` takes a carrier of the binary one for one that it does not know.
unfoldable pub inject_text : Option SpanContext → AnyCarrier → Option (AnyCarrier × Option AnyError)
unfolding text_injected
inject_text sc (text_carrier carrier) = some (text_injected (LightStep.inject sc carrier))
inject_text sc (binary_carrier carrier) =
    let (carrier', e) = text_injected (LightStep.inject sc Carrier.other_carrier) in
    some (binary_carrier carrier, e)

unfoldable pub extract_text : AnyCarrier → Option (AnyError ⊎ SpanContext)
unfolding text_result
extract_text (text_carrier carrier) = some (text_result (LightStep.extract carrier))
extract_text (binary_carrier carrier) = some (text_result (LightStep.extract Carrier.other_carrier))

abbrev pub any_text_propagator : AnyPropagator
any_text_propagator = record { inject = inject_text; extract = extract_text }

abbrev is_none : Option SpanContext → Bool
is_none none = true
is_none (some sc) = false

-- The map of propagators that `CreateTracer` makes: the user's replace the tracer's own.
abbrev pub Propagators : Type 0
Propagators = List (ℕ × AnyPropagator)

unfoldable pub find_propagator : ℕ → Propagators → Option AnyPropagator
find_propagator f [] = none
find_propagator f ((g, p) ∷ ps) = if g == f then some p else find_propagator f ps

unfoldable pub set_propagator : ℕ → AnyPropagator → Propagators → Propagators
set_propagator f p [] = (f, p) ∷ []
set_propagator f p ((g, q) ∷ ps) = if g == f then (f, p) ∷ ps else (g, q) ∷ set_propagator f p ps

unfoldable pub add_propagators : Propagators → Propagators → Propagators
unfolding set_propagator
add_propagators ps [] = ps
add_propagators ps ((f, p) ∷ user) = add_propagators (set_propagator f p ps) user

module _ (codec : Codec) where
  unfoldable pub binary_injected :
      Option (BinaryCarrier × Option BinaryError) → Option (AnyCarrier × Option AnyError)
  binary_injected none = none
  binary_injected (some (carrier, none)) = some (binary_carrier carrier, none)
  binary_injected (some (carrier, some e)) = some (binary_carrier carrier, some (binary_error e))

  -- `BinaryPropagator`
  unfoldable pub inject_binary :
      Option SpanContext → AnyCarrier → Option (AnyCarrier × Option AnyError)
  unfolding binary_injected
  inject_binary sc (binary_carrier carrier) = binary_injected (Binary.inject codec sc carrier)
  inject_binary none (text_carrier carrier) =
      some (text_carrier carrier, some (binary_error BinaryError.invalid_span_context))
  inject_binary (some sc) (text_carrier carrier) = elim (codec.marshal (to_basic sc)) [
    | inl e ↦ some (text_carrier carrier, some (binary_error (other_error e)))
    | inr message ↦ some (text_carrier carrier, some (binary_error BinaryError.invalid_carrier))
  ]

  unfoldable pub binary_result : BinaryError ⊎ SpanContext → AnyError ⊎ SpanContext
  binary_result (inl e) = inl (binary_error e)
  binary_result (inr c) = inr c

  unfoldable pub extract_binary : AnyCarrier → Option (AnyError ⊎ SpanContext)
  unfolding binary_result
  extract_binary (binary_carrier carrier) = some (binary_result (Binary.extract codec carrier))
  extract_binary (text_carrier carrier) = some (inl (binary_error BinaryError.invalid_carrier))

  unfoldable pub create_propagators : Propagators → Propagators
  unfolding add_propagators inject_text extract_text inject_binary extract_binary
  create_propagators user =
      add_propagators
        ((text_map_format, any_text_propagator)
          ∷ (http_headers_format, any_text_propagator)
          ∷ (binary_format, record { inject = inject_binary; extract = extract_binary })
          ∷ [])
        user

abbrev pub meta_spans : Tracer → Text → List Output
meta_spans t operation =
    if t.opts.meta_event_reporting_enabled then meta_span operation ∷ [] else []

-- `Inject`. With meta events a context of another tracer is a panic, and so is a format without a
-- propagator.
unfoldable pub tracer_inject :
    Tracer
    → List (ℕ × AnyPropagator)
    → Option SpanContext
    → Format
    → AnyCarrier
    → Option ((AnyCarrier × Option AnyError) × List Output)
unfolding find_propagator
tracer_inject t propagators sc format carrier =
    if t.opts.meta_event_reporting_enabled && is_none sc then none else elim format [
      | other_format ↦
          some ((carrier, some unsupported_format), meta_spans t (codes "lightstep.inject_span"))
      | builtin f ↦ elim (find_propagator f propagators) [
        | none ↦ none
        | some p ↦ elim (p.inject sc carrier) [
          | none ↦ none
          | some result ↦ some (result, meta_spans t (codes "lightstep.inject_span"))
        ]
      ]
    ]

-- `Extract`
unfoldable pub tracer_extract :
    Tracer
    → List (ℕ × AnyPropagator)
    → Format
    → AnyCarrier
    → Option ((AnyError ⊎ SpanContext) × List Output)
unfolding find_propagator
tracer_extract t propagators format carrier = elim format [
  | other_format ↦ some (inl unsupported_format, meta_spans t (codes "lightstep.extract_span"))
  | builtin f ↦ elim (find_propagator f propagators) [
    | none ↦ none
    | some p ↦ elim (p.extract carrier) [
      | none ↦ none
      | some result ↦ some (result, meta_spans t (codes "lightstep.extract_span"))
    ]
  ]
]
