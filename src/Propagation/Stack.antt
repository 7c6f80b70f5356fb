-- ===== src/Propagation/Stack.antt =====
-- propagation_stack.go: several propagators for one format.
use lightstep_tracer_go.RawSpan.{SpanContext}
use lightstep_tracer_go.Base.{
  List, ◌++◌, Option, ◌∷◌, [], if◌then◌else◌, length, ◌==◌, some, none, ◌≡◌, arith, refl,
  length-append,
}
use lightstep_tracer_go.Propagation.{
  Propagator, Carrier, ok, err, Result, SpanContext, no_valid_propagator, PropagationError,
}

pub record PropagatorStack : Type 0 where
  pub propagators : List Propagator

unfoldable pub push_propagator : PropagatorStack → Propagator → PropagatorStack
push_propagator stack p = record { propagators = stack.propagators ++ (p ∷ []) }

-- Every propagator injects; its error is dropped.
pub inject_all : List Propagator → Option SpanContext → Carrier → Carrier
inject_all [] sc carrier = carrier
inject_all (p ∷ ps) sc carrier = inject_all ps sc (p.inject sc carrier).0

unfoldable pub inject :
    PropagatorStack → Option SpanContext → Carrier → Carrier × Option PropagationError
unfolding inject_all
inject stack sc carrier =
    if length stack.propagators == 0
    then (carrier, some no_valid_propagator)
    else (inject_all stack.propagators sc carrier, none)

pub extract_first : List Propagator → Carrier → Result SpanContext
extract_first [] carrier = err no_valid_propagator
extract_first (p ∷ ps) carrier = elim (p.extract carrier) [
  | ok context ↦ ok context
  | err e ↦ extract_first ps carrier
]

unfoldable pub extract : PropagatorStack → Carrier → Result SpanContext
unfolding extract_first
extract stack carrier =
    if length stack.propagators == 0
    then err no_valid_propagator
    else extract_first stack.propagators carrier

-- A stack is again a propagator.
abbrev pub stack_propagator : PropagatorStack → Propagator
stack_propagator stack = record { inject = inject stack; extract = extract stack }

abbrev pub AllFail : Carrier → List Propagator → Type 0
AllFail carrier [] = Unit {0}
AllFail carrier (p ∷ ps) =
    ((e : PropagationError) × (p.extract carrier ≡ err e)) × AllFail carrier ps

extract_first-skip :
    (before after : List Propagator) (p : Propagator) (carrier : Carrier) (sc : SpanContext)
    → AllFail carrier before
    → p.extract carrier ≡ ok sc
    → extract_first (before ++ (p ∷ after)) carrier ≡ ok sc
unfolding extract_first
extract_first-skip [] after p carrier sc h e = rw e
extract_first-skip (q ∷ before) after p carrier sc h e =
    rw (h.0.1) (extract_first-skip before after p carrier sc h.1 e)

extract_first-none :
    (ps : List Propagator) (carrier : Carrier)
    → AllFail carrier ps
    → extract_first ps carrier ≡ err no_valid_propagator
unfolding extract_first
extract_first-none [] carrier h = refl
extract_first-none (p ∷ ps) carrier h = rw (h.0.1) (extract_first-none ps carrier h.1)

-- `Extract` of a stack gives the context of the first propagator that extracts one, whatever stands
-- behind it; a stack of propagators that all fail gives its own error.
pub extract_lem :
    (carrier : Carrier) (before after : List Propagator) (p : Propagator) (sc : SpanContext)
    → AllFail carrier before
    → p.extract carrier ≡ ok sc
    → (extract (record { propagators = before }) carrier ≡ err no_valid_propagator)
      × (extract (record { propagators = before ++ (p ∷ after) }) carrier ≡ ok sc)
unfolding extract
extract_lem carrier before after p sc h e = (
  ground (arith, extract_first-none before carrier h),
  ground
      (arith, extract_first-skip before after p carrier sc h e, length-append before (p ∷ after)),
)
