-- ===== src/Propagation/LightStep/RoundTrip.antt =====
-- propagation_lightstep.go: `Extract` after `Inject`.
use lightstep_tracer_go.Strconv.RoundTrip.{parse_uint-format_uint}
use lightstep_tracer_go.Propagation.{text_map, ok, Carrier}
use lightstep_tracer_go.Base.{
  lookup, text_eq, insert, Text, some, if◌then◌else◌, List, lower, strip_prefix, ltb, ◌∷◌, refl, [],
  length, ◌≡◌, codes, ◌++◌, none, ap, ◌<◌, word_mod, ℕ, ◌+◌, ◌∙◌, arith,
}
use lightstep_tracer_go.RawSpan.{SpanContext, empty_context, copy_items}
use lightstep_tracer_go.RawSpan.Baggage.{IsMap, copied, copy_items-IsMap}
use lightstep_tracer_go.Strconv.{format_uint, parse_uint}
use lightstep_tracer_go.Propagation.TextMap
use lightstep_tracer_go.Propagation.TextMap.{
  TextMapPropagator, Decoded, decode_key, foreach_key, set_baggage, prefix_baggage, nothing_decoded,
  finish_extract,
}
use lightstep_tracer_go.Propagation.TextMap.Items.{
  set_baggage_lem, TakesBaggage, NoBaggage, prefixed, AllLower, foreach_key_step,
  foreach_key-prefixed, extract_decoded,
}
use lightstep_tracer_go.Propagation.LightStep.{
  propagator, inject, extract, field_name_trace_id, field_name_span_id, field_name_sampled,
  trace_id_parser,
}

takes_baggage : (sc : SpanContext) → TakesBaggage (propagator sc)
unfolding decode_key propagator text_eq lower strip_prefix
takes_baggage sc k v d h = rw h

-- The three fields that `Inject` writes first.
abbrev fields : SpanContext → Text → List (Text × Text)
fields sc sampled =
    (field_name_trace_id, format_uint 16 sc.trace_id)
    ∷ (field_name_span_id, format_uint 16 sc.span_id)
    ∷ (field_name_sampled, sampled)
    ∷ []

no_baggage : (sc : SpanContext) (sampled : Text) → NoBaggage (fields sc sampled)
unfolding lookup text_eq
no_baggage sc sampled k = refl

abbrev pub sampled_or_true : SpanContext → Text
sampled_or_true sc = if ltb 0 (length sc.sampled) then sc.sampled else codes "true"

inject_fields :
    (sc : SpanContext)
    → IsMap sc.baggage
    → inject (some sc) (text_map [])
      ≡ (text_map (fields sc (sampled_or_true sc) ++ prefixed sc.baggage), none)
unfolding inject TextMap.inject propagator insert text_eq
inject_fields sc m =
    ap (λ t. (text_map t, none))
      (set_baggage_lem _ sc.baggage (no_baggage sc (sampled_or_true sc)) m)

module _ (sc : SpanContext) (trace_fits : sc.trace_id < word_mod)
    (span_fits : sc.span_id < word_mod) where
  reads_back : (n : ℕ) → n < word_mod → parse_uint 16 (format_uint 16 n) ≡ some n
  reads_back n h = parse_uint-format_uint 16 (omega arith) (omega arith) n h

  decode_trace_id :
      (d : Decoded)
      → decode_key (propagator empty_context) field_name_trace_id (format_uint 16 sc.trace_id) d
        ≡ some (record d {
          trace_id_lower = sc.trace_id;
          trace_id_upper = 0;
          required_field_count = d.required_field_count + 1;
        })
  unfolding decode_key propagator text_eq lower trace_id_parser
  decode_trace_id d = rw (reads_back sc.trace_id trace_fits)

  decode_span_id :
      (d : Decoded)
      → decode_key (propagator empty_context) field_name_span_id (format_uint 16 sc.span_id) d
        ≡ some
            (record d { span_id = sc.span_id; required_field_count = d.required_field_count + 1 })
  unfolding decode_key propagator text_eq lower
  decode_span_id d = rw (reads_back sc.span_id span_fits)

  decode_sampled :
      (s : Text) (d : Decoded)
      → decode_key (propagator empty_context) field_name_sampled s d
        ≡ some (record d { sampled = s; required_field_count = d.required_field_count + 1 })
  unfolding decode_key propagator text_eq lower
  decode_sampled s d = refl

  -- What all fields of the carrier decode to.
  abbrev decoded : Text → Decoded
  decoded s = record {
    required_field_count = 3;
    trace_id_lower = sc.trace_id;
    trace_id_upper = 0;
    span_id = sc.span_id;
    sampled = s;
    decoded_baggage = copy_items sc.baggage [];
  }

  foreach_key_fields :
      (s : Text)
      → AllLower sc.baggage
      → foreach_key (propagator empty_context) (fields sc s ++ prefixed sc.baggage) nothing_decoded
        ≡ some (decoded s)
  foreach_key_fields s l =
      foreach_key_step _ _ _ _ _ _ (decode_trace_id nothing_decoded)
      ∙ foreach_key_step _ _ _ _ _ _ (decode_span_id _)
      ∙ foreach_key_step _ _ _ _ _ _ (decode_sampled s _)
      ∙ foreach_key-prefixed _ sc.baggage _ (takes_baggage empty_context) l

  extract_fields :
      (s : Text)
      → AllLower sc.baggage
      → extract (text_map (fields sc s ++ prefixed sc.baggage))
        ≡ ok (record {
          trace_id_upper = 0;
          trace_id = sc.trace_id;
          span_id = sc.span_id;
          sampled = s;
          baggage = copy_items sc.baggage [];
        })
  unfolding extract finish_extract
  extract_fields s l =
      extract_decoded (propagator empty_context) _ (decoded s) (foreach_key_fields s l)

-- A context injected into an empty text map succeeds, and is extracted again with its trace and span
-- identifiers and the value of every baggage key, which are distinct; the sampling decision comes back as it was, or as
-- "true" if it was empty, and the upper half of the trace identifier is 0. This is for identifiers
-- of 64 bits and for baggage with distinct keys in lower case.
pub extract-inject :
    (sc : SpanContext) (k : Text)
    → sc.trace_id < word_mod
    → sc.span_id < word_mod
    → IsMap sc.baggage
    → AllLower sc.baggage
    → (carrier : Carrier) × (sc' : SpanContext) × (inject (some sc) (text_map []) ≡ (carrier, none))
      × (extract carrier ≡ ok sc')
      × (sc'.trace_id ≡ sc.trace_id)
      × (sc'.span_id ≡ sc.span_id)
      × (sc'.sampled ≡ sampled_or_true sc)
      × (sc'.trace_id_upper ≡ 0)
      × (lookup k sc'.baggage ≡ lookup k sc.baggage)
      × IsMap sc'.baggage
extract-inject sc k ht hs m l = (
  _,
  _,
  inject_fields sc m,
  extract_fields sc ht hs (sampled_or_true sc) l,
  refl,
  refl,
  refl,
  refl,
  copied k sc.baggage m,
  copy_items-IsMap sc.baggage [] tt,
)
