-- ===== src/Propagation/TextMap/Items.antt =====
-- propagation_text.go: the baggage in a text map, for a propagator that takes no baggage key for one of
-- its own.
use lightstep_tracer_go.Base.{
  lookup, text_eq, List, Text, ◌++◌, ◌∷◌, Bool-cases, ◌≡◌, [], inl, arith, append-nil, inr, refl,
  to_lower, false, some, ap, text_eq_iff, sym, ◌∙◌, insert, append_assoc, subst,
}
use lightstep_tracer_go.RawSpan.{copy_items}
use lightstep_tracer_go.RawSpan.Baggage.{IsMap, Fresh, insert-Fresh, lookup-append}
use lightstep_tracer_go.Propagation.{text_map}
use lightstep_tracer_go.Propagation.TextMap.{
  extract, finish_extract, nothing_decoded, TextMapPropagator, Decoded, decode_key, foreach_key,
  set_baggage, prefix_baggage,
}

abbrev pub prefixed : List (Text × Text) → List (Text × Text)
prefixed [] = []
prefixed ((k, v) ∷ items) = (prefix_baggage ++ k, v) ∷ prefixed items

text_eq-append : (p s t : Text) → text_eq (p ++ s) (p ++ t) ≡ text_eq s t
unfolding text_eq
text_eq-append [] s t = refl
text_eq-append (c ∷ p) s t = ground (arith, text_eq-append p s t)

-- No key of the carrier is a baggage key.
abbrev pub NoBaggage : List (Text × Text) → Type 0
NoBaggage carrier = (k : Text) → Fresh (prefix_baggage ++ k) carrier

Fresh-prefixed :
    (k : Text) (items : List (Text × Text))
    → Fresh k items
    → Fresh (prefix_baggage ++ k) (prefixed items)
unfolding lookup
Fresh-prefixed k [] h = refl
Fresh-prefixed k ((j, v) ∷ items) h = elim (Bool-cases (text_eq j k)) [
  | inl e ↦ absurd (ground (arith, h))
  | inr e ↦ rw (text_eq-append prefix_baggage j k, e) (Fresh-prefixed k items (ground (arith, h)))
]

prefixed-append : (xs ys : List (Text × Text)) → prefixed (xs ++ ys) ≡ prefixed xs ++ prefixed ys
prefixed-append [] ys = refl
prefixed-append ((k, v) ∷ xs) ys = ap (◌∷◌ (prefix_baggage ++ k, v)) (prefixed-append xs ys)

later_key_ne :
    (j k : Text) (v : Text) (done items : List (Text × Text))
    → Fresh j (done ++ ((k, v) ∷ items))
    → text_eq j k ≡ false
unfolding lookup
later_key_ne j k v [] items h = ground (arith, text_eq_iff k j, text_eq_iff j k)
later_key_ne j k v ((i, w) ∷ done) items h = later_key_ne j k v done items (ground (arith, h))

IsMap-Fresh :
    (k v : Text) (done items : List (Text × Text)) → IsMap (done ++ ((k, v) ∷ items)) → Fresh k done
unfolding lookup
IsMap-Fresh k v [] items m = refl
IsMap-Fresh k v ((j, w) ∷ done) items m =
    rw (later_key_ne j k v done items m.0) (IsMap-Fresh k v done items m.1)

set_baggage_from :
    (carrier done items : List (Text × Text))
    → NoBaggage carrier
    → IsMap (done ++ items)
    → set_baggage items (carrier ++ prefixed done) ≡ carrier ++ prefixed (done ++ items)
unfolding set_baggage
set_baggage_from carrier done [] h m = rw (append-nil done)
set_baggage_from carrier done ((k, v) ∷ items) h m =
    ap (set_baggage items) (
      insert-Fresh (prefix_baggage ++ k) v (carrier ++ prefixed done) (
        lookup-append (prefix_baggage ++ k) carrier (prefixed done) (h k)
        ∙ Fresh-prefixed k done (IsMap-Fresh k v done items m))
      ∙ append_assoc carrier (prefixed done) _
      ∙ ap (◌++◌ carrier) (sym (prefixed-append done ((k, v) ∷ []))))
    ∙ set_baggage_from carrier (done ++ ((k, v) ∷ [])) items h
        (subst IsMap (sym (append_assoc done ((k, v) ∷ []) items)) m)
    ∙ ap (λ t. carrier ++ prefixed t) (append_assoc done ((k, v) ∷ []) items)

-- Distinct baggage is appended to a carrier without baggage.
pub set_baggage_lem :
    (carrier items : List (Text × Text))
    → NoBaggage carrier
    → IsMap items
    → set_baggage items carrier ≡ carrier ++ prefixed items
set_baggage_lem carrier items h m =
    ap (set_baggage items) (sym (append-nil carrier)) ∙ set_baggage_from carrier [] items h m

-- The propagator takes no baggage key for one of its own three.
abbrev pub TakesBaggage : TextMapPropagator → Type 0
TakesBaggage p =
    (k v : Text) (d : Decoded)
    → to_lower k ≡ k
    → decode_key p (prefix_baggage ++ k) v d
      ≡ some (record d { decoded_baggage = insert k v d.decoded_baggage })

abbrev pub AllLower : List (Text × Text) → Type 0
AllLower [] = Unit {0}
AllLower ((k, v) ∷ items) = (to_lower k ≡ k) × AllLower items

pub foreach_key_step :
    (p : TextMapPropagator) (k v : Text) (carrier : List (Text × Text)) (d d' : Decoded)
    → decode_key p k v d ≡ some d'
    → foreach_key p ((k, v) ∷ carrier) d ≡ foreach_key p carrier d'
unfolding foreach_key
foreach_key_step p k v carrier d d' e = rw (e, foreach_key)

pub foreach_key-prefixed :
    (p : TextMapPropagator) (items : List (Text × Text)) (d : Decoded)
    → TakesBaggage p
    → AllLower items
    → foreach_key p (prefixed items) d
      ≡ some (record d { decoded_baggage = copy_items items d.decoded_baggage })
unfolding foreach_key copy_items
foreach_key-prefixed p [] d t l = refl
foreach_key-prefixed p ((k, v) ∷ items) d t l =
    foreach_key_step p (prefix_baggage ++ k) v (prefixed items) d
      (record d { decoded_baggage = insert k v d.decoded_baggage }) (t k v d l.0)
    ∙ foreach_key-prefixed p items (record d { decoded_baggage = insert k v d.decoded_baggage }) t
        l.1

pub extract_decoded :
    (p : TextMapPropagator) (carrier : List (Text × Text)) (d : Decoded)
    → foreach_key p carrier nothing_decoded ≡ some d
    → extract p (text_map carrier) ≡ finish_extract d
unfolding extract
extract_decoded p carrier d e = rw (e, extract)
