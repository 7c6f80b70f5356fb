-- ===== src/Exporter/Exported.antt =====
-- lightstepoc/exporter.go: what `ExportSpan` records of a span.
use lightstep_tracer_go.RawSpan.Baggage.{IsMap, with_baggage_item_lem, with_baggage_item-IsMap}
use lightstep_tracer_go.Exporter.{set_baggage_items, set_baggage_item, set_tags, set_tag, Value}
use lightstep_tracer_go.RawSpan.{Value}
use lightstep_tracer_go.Span.{Span, set_baggage_item, set_tag}
use lightstep_tracer_go.Base.{
  ◌≡◌, Text, List, false, Option, ◌∷◌, lookup, [], if◌then◌else◌, text_eq, some, refl, ◌∙◌, ap,
  lookup-insert,
}

-- The last value that a list of items has for a key, or what was there before.
abbrev pub last_entry : {V : Type 0} → Text → List (Text × V) → Option V → Option V
last_entry k [] old = old
last_entry k ((j, v) ∷ items) old = last_entry k items (if text_eq j k then some v else old)

pub record Same (s s' : Span) : Type 0 where
  pub live : s'.finished ≡ s.finished
  pub operation : s'.raw.operation ≡ s.raw.operation
  pub start : s'.raw.start ≡ s.raw.start
  pub parent : s'.raw.parent_span_id ≡ s.raw.parent_span_id
  pub logs : s'.raw.logs ≡ s.raw.logs
  pub dropped : s'.num_dropped_logs ≡ s.num_dropped_logs
  pub trace_id : s'.raw.context.trace_id ≡ s.raw.context.trace_id
  pub span_id : s'.raw.context.span_id ≡ s.raw.context.span_id

set_baggage_item_frame :
    (s : Span) (j v k : Text)
    → s.finished ≡ false
    → IsMap s.raw.context.baggage
    → let s' = set_baggage_item s j v in
      Same s s'
      × (s'.raw.tags ≡ s.raw.tags)
      × (lookup k s'.raw.context.baggage
          ≡ (if text_eq j k then some v else lookup k s.raw.context.baggage))
      × IsMap s'.raw.context.baggage
unfolding set_baggage_item
set_baggage_item_frame s j v k live m =
    let (item, trace, upper, span, sampled) = with_baggage_item_lem s.raw.context j v k m in
    rw live (
      record {
        live = refl;
        operation = refl;
        start = refl;
        parent = refl;
        logs = refl;
        dropped = refl;
        trace_id = trace;
        span_id = span;
      },
      refl,
      item,
      with_baggage_item-IsMap s.raw.context j v,
    )

pub Same-trans : {s t u : Span} → Same s t → Same t u → Same s u
Same-trans p q = record {
  live = q.live ∙ p.live;
  operation = q.operation ∙ p.operation;
  start = q.start ∙ p.start;
  parent = q.parent ∙ p.parent;
  logs = q.logs ∙ p.logs;
  dropped = q.dropped ∙ p.dropped;
  trace_id = q.trace_id ∙ p.trace_id;
  span_id = q.span_id ∙ p.span_id;
}

Same-refl : (s : Span) → Same s s
Same-refl s = record {
  live = refl;
  operation = refl;
  start = refl;
  parent = refl;
  logs = refl;
  dropped = refl;
  trace_id = refl;
  span_id = refl;
}

pub set_baggage_items_lem :
    (s : Span) (entries : List (Text × Text)) (k : Text)
    → s.finished ≡ false
    → IsMap s.raw.context.baggage
    → let s' = set_baggage_items s entries in
      Same s s'
      × (s'.raw.tags ≡ s.raw.tags)
      × (lookup k s'.raw.context.baggage ≡ last_entry k entries (lookup k s.raw.context.baggage))
unfolding set_baggage_items
set_baggage_items_lem s [] k live m = (Same-refl s, refl, refl)
set_baggage_items_lem s ((j, v) ∷ entries) k live m =
    let (same, tags, item, m') = set_baggage_item_frame s j v k live m in
    let (same', tags', items) =
      set_baggage_items_lem (set_baggage_item s j v) entries k (same.live ∙ live) m' in
    (Same-trans same same', tags' ∙ tags, items ∙ ap (last_entry k entries) item)

pub set_tag_frame :
    (s : Span) (j : Text) (v : Value) (k : Text)
    → s.finished ≡ false
    → let s' = set_tag s j v in
      Same s s'
      × (s'.raw.context ≡ s.raw.context)
      × (lookup k s'.raw.tags ≡ (if text_eq j k then some v else lookup k s.raw.tags))
unfolding set_tag
set_tag_frame s j v k live = rw live (
  record {
    live = refl;
    operation = refl;
    start = refl;
    parent = refl;
    logs = refl;
    dropped = refl;
    trace_id = refl;
    span_id = refl;
  },
  refl,
  lookup-insert j k v s.raw.tags,
)

pub set_tags_lem :
    (s : Span) (attributes : List (Text × Value)) (k : Text)
    → s.finished ≡ false
    → let s' = set_tags s attributes in
      Same s s'
      × (s'.raw.context ≡ s.raw.context)
      × (lookup k s'.raw.tags ≡ last_entry k attributes (lookup k s.raw.tags))
unfolding set_tags
set_tags_lem s [] k live = (Same-refl s, refl, refl)
set_tags_lem s ((j, v) ∷ attributes) k live =
    let (same, context, tag) = set_tag_frame s j v k live in
    let (same', context', tags) = set_tags_lem (set_tag s j v) attributes k (same.live ∙ live) in
    (Same-trans same same', context' ∙ context, tags ∙ ap (last_entry k attributes) tag)
