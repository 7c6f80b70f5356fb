-- ===== src/RawSpan/Baggage.antt =====
-- The baggage of raw_span.go: what a copy and `WithBaggageItem` keep.
use lightstep_tracer_go.Base.{
  ◌≡◌, refl, arith, none, some, List, [], ◌∷◌, ◌++◌, if◌then◌else◌, Text, text_eq, text_eq_iff,
  lookup, insert, lookup-insert, ◌∙◌, ap, Bool-cases, inl, inr, Option, subst,
}
use lightstep_tracer_go.RawSpan.{SpanContext, copy_items, with_baggage_item}

-- The keys of a Go map are distinct.
abbrev pub Fresh : {V : Type 0} → Text → List (Text × V) → Type 0
Fresh k m = lookup k m ≡ none

abbrev pub IsMap : {V : Type 0} → List (Text × V) → Type 0
IsMap [] = Unit {0}
IsMap ((k, v) ∷ m) = Fresh k m × IsMap m

pub insert-Fresh :
    {V : Type 0} (k : Text) (v : V) (m : List (Text × V))
    → Fresh k m
    → insert k v m ≡ m ++ ((k, v) ∷ [])
unfolding insert lookup
insert-Fresh k v [] h = refl
insert-Fresh k v ((j, w) ∷ m) h = elim (Bool-cases (text_eq j k)) [
  | inl e ↦ absurd (ground (arith, h))
  | inr e ↦ rw e (ap (◌∷◌ (j, w)) (insert-Fresh k v m (ground (arith, h))))
]

pub lookup-append :
    {V : Type 0} (k : Text) (m n : List (Text × V)) → Fresh k m → lookup k (m ++ n) ≡ lookup k n
unfolding lookup
lookup-append k [] n h = refl
lookup-append k ((j, w) ∷ m) n h = elim (Bool-cases (text_eq j k)) [
  | inl e ↦ absurd (ground (arith, h))
  | inr e ↦ rw e (lookup-append k m n (ground (arith, h)))
]

-- An item of the copy comes from the source, or else from what was there.
pub lookup-copy_items :
    (k : Text) (m new : List (Text × Text))
    → IsMap m
    → lookup k (copy_items m new) ≡ elim (lookup k m) [ some v ↦ some v | none ↦ lookup k new ]
unfolding copy_items lookup
lookup-copy_items k [] new h = refl
lookup-copy_items k ((j, v) ∷ m) new h =
    ground
      (arith, lookup-copy_items k m (insert j v new) h.1, lookup-insert j k v new, text_eq_iff j k)

option_eta : (o : Option Text) → (elim o [ some v ↦ some v | none ↦ none ]) ≡ o
option_eta none = refl
option_eta (some v) = refl

-- A copy of a map gives every key its value.
pub copied :
    (k : Text) (items : List (Text × Text))
    → IsMap items
    → lookup k (copy_items items []) ≡ lookup k items
unfolding lookup
copied k items h = lookup-copy_items k items [] h ∙ option_eta (lookup k items)

pub insert-IsMap :
    {V : Type 0} (k : Text) (v : V) (m : List (Text × V)) → IsMap m → IsMap (insert k v m)
unfolding insert lookup
insert-IsMap k v [] h = (refl, tt)
insert-IsMap k v ((j, w) ∷ m) h = elim (Bool-cases (text_eq j k)) [
  | inl e ↦ rw e (subst (λ t. Fresh t m) ((text_eq_iff j k).0 e) h.0, h.1)
  | inr e ↦ rw e (
    lookup-insert k j v m ∙ ground (arith, text_eq_iff j k, text_eq_iff k j, h.0),
    insert-IsMap k v m h.1,
  )
]

pub copy_items-IsMap : (m new : List (Text × Text)) → IsMap new → IsMap (copy_items m new)
unfolding copy_items
copy_items-IsMap [] new h = h
copy_items-IsMap ((k, v) ∷ m) new h = copy_items-IsMap m (insert k v new) (insert-IsMap k v new h)

pub with_baggage_item-IsMap :
    (c : SpanContext) (key val : Text) → IsMap (with_baggage_item c key val).baggage
unfolding with_baggage_item
with_baggage_item-IsMap c key val =
    insert-IsMap key val (copy_items c.baggage []) (copy_items-IsMap c.baggage [] tt)

-- `WithBaggageItem` sets the one key, keeps every other item, and leaves the identifiers and the
-- sampling decision alone, for a context whose baggage has distinct keys.
pub with_baggage_item_lem :
    (c : SpanContext) (key val k : Text)
    → IsMap c.baggage
    → let c' = with_baggage_item c key val in
      (lookup k c'.baggage ≡ (if text_eq key k then some val else lookup k c.baggage))
      × (c'.trace_id ≡ c.trace_id)
      × (c'.trace_id_upper ≡ c.trace_id_upper)
      × (c'.span_id ≡ c.span_id)
      × (c'.sampled ≡ c.sampled)
unfolding with_baggage_item lookup
with_baggage_item_lem c key val k h = (
  lookup-insert key k val (copy_items c.baggage [])
      ∙ ground (arith, lookup-copy_items k c.baggage [] h),
  refl,
  refl,
  refl,
  refl,
)
