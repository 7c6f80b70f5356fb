-- ===== src/Span/Start.antt =====
-- The identity that `newSpan` gives a span: where its identifiers, its parent, its sampling decision
-- and its baggage come from.
use lightstep_tracer_go.Base.{
  ℕ, lookup, List, Text, if◌then◌else◌, Option, ◌≡◌, ltb, ◌∷◌, some, none, [], ◌≢◌, arith, length,
  refl, not, ◌==◌, ◌&&◌, lt→ltb,
}
use lightstep_tracer_go.RawSpan.{SpanContext, copy_items}
use lightstep_tracer_go.RawSpan.Baggage.{IsMap, copied}
use lightstep_tracer_go.Span.{
  references_loop, inherit, explicit_identity, fill_identity, new_span, Identity,
}
use lightstep_tracer_go.StartOptions.{
  Reference, child_of, follows_from, other_reference, StartSpanOptions, StartSpanOption,
  new_start_span_options,
}

-- The context of the first reference that names a parent, if it is this tracer's.
unfoldable pub parent_context : List Reference → Option SpanContext
parent_context [] = none
parent_context (ref ∷ refs) = elim ref.type [
  | child_of ↦ ref.referenced_context
  | follows_from ↦ ref.referenced_context
  | other_reference ↦ parent_context refs
]

references_loop-inherit :
    (refs : List Reference) (sp : Identity)
    → references_loop refs sp ≡ inherit (parent_context refs) sp
unfolding references_loop parent_context inherit
references_loop-inherit [] sp = refl
references_loop-inherit (ref ∷ refs) sp = ground (arith, references_loop-inherit refs sp)

copied_baggage :
    (items : List (Text × Text)) (k : Text)
    → IsMap items
    → lookup k (if ltb 0 (length items) then copy_items items [] else []) ≡ lookup k items
unfolding lookup
copied_baggage [] k h = refl
copied_baggage ((j, v) ∷ items) k h =
    rw (lt→ltb 0 (length ((j, v) ∷ items)) (omega arith)) (copied k ((j, v) ∷ items) h)

-- A span with a parent of this tracer joins its trace and takes over its sampling decision and its
-- baggage, whatever the explicit identifiers say. Its own identifier is the explicit one only if an
-- explicit trace identifier came with it, and else a random one. The upper half of a 128-bit trace
-- identifier is not handed down. This is for a parent whose trace identifier is not 0 and whose
-- baggage has distinct keys.
pub new_span_child :
    (operation : Text) (sso : List StartSpanOption) (now guid : ℕ) (guid2 : ℕ × ℕ)
    (parent : SpanContext) (k : Text)
    → let opts = new_start_span_options sso in
      let c = (new_span operation sso now guid guid2).raw.context in
      parent_context opts.options.references ≡ some parent
      → parent.trace_id ≢ 0
      → IsMap parent.baggage
      → (c.trace_id ≡ parent.trace_id)
        × ((new_span operation sso now guid guid2).raw.parent_span_id ≡ parent.span_id)
        × (c.sampled ≡ parent.sampled)
        × (lookup k c.baggage ≡ lookup k parent.baggage)
        × (c.span_id ≡ (
            if not (opts.set_trace_id == 0) && not (opts.set_span_id == 0)
            then opts.set_span_id
            else guid))
        × (c.trace_id_upper ≡ 0)
unfolding new_span inherit explicit_identity fill_identity
new_span_child operation sso now guid guid2 parent k e nz m = ground (
  arith,
  references_loop-inherit opts.options.references (explicit_identity opts),
  copied_baggage parent.baggage k m,
)
  where
    opts : StartSpanOptions
    opts = new_start_span_options sso
