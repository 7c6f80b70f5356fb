-- ===== src/Exporter.antt =====
-- lightstepoc: the exporter of OpenCensus spans, with its options and its conversions. The data of
-- `go.opencensus.io/trace` is what the code reads of it.
pub mod Exported
pub mod Recorded
pub mod Settings
use lightstep_tracer_go.Options.{Options}
use lightstep_tracer_go.StartOptions.{
  StartSpanOption, opentracing, trace_id, span_id, parent_span_id, child_of,
}
use lightstep_tracer_go.RawSpan.{LogRecord, SpanContext, empty_context, Value, Field}
use lightstep_tracer_go.Span.{
  set_tag, Span, set_baggage_item, LogData, new_span, FinishOptions, finish_with_options,
}
use lightstep_tracer_go.Time.{Time}
use lightstep_tracer_go.Base.{
  ℕ, Text, List, take, ◌∷◌, insert, codes, ◌*◌, drop, [], ◌+◌, ◌++◌, Option, ◌%◌, some, ◌^◌, Bool,
  map,
}

-- An identifier is the list of its bytes: sixteen for a trace and eight for a span.
abbrev pub Bytes : Type 0
Bytes = List ℕ

-- `binary.BigEndian.Uint64` reads the first eight bytes.
unfoldable pub big_endian : ℕ → Bytes → ℕ
big_endian acc [] = acc
big_endian acc (b ∷ bytes) = big_endian (acc * 256 + b) bytes

unfoldable pub convert_trace_id : Bytes → ℕ
unfolding big_endian
convert_trace_id original = big_endian 0 (take 8 (drop 8 original))

unfoldable pub convert_span_id : Bytes → ℕ
unfolding big_endian
convert_span_id original = big_endian 0 (take 8 original)

pub data LinkType : Type 0 where
  unspecified child parent : LinkType

pub record Link : Type 0 where
  pub trace_id : Bytes
  pub span_id : Bytes
  pub type : LinkType
  pub attributes : List (Text × Value)

pub data SpanKind : Type 0 where
  unspecified server client : SpanKind

-- The attributes are a map in an `interface{}`.
pub record Annotation : Type 0 where
  pub time : Time
  pub message : Text
  pub attributes : Value

-- The status code is the pattern of an `int32`; the tracestate is its entries.
pub record SpanData : Type 0 where
  pub trace_id : Bytes
  pub span_id : Bytes
  pub tracestate : List (Text × Text)
  pub parent_span_id : Bytes
  pub span_kind : SpanKind
  pub name : Text
  pub start_time : Time
  pub end_time : Time
  pub attributes : List (Text × Value)
  pub annotations : List Annotation
  pub status_code : ℕ
  pub links : List Link

-- The loop of `ConvertLinkToSpanContext`: only the attributes that are strings become baggage.
unfoldable pub link_baggage : List (Text × Value) → List (Text × Text) → List (Text × Text)
unfolding insert
link_baggage [] baggage = baggage
link_baggage ((k, v) ∷ attributes) baggage =
    link_baggage attributes (elim v [ Value.string s ↦ insert k s baggage | _ ↦ baggage ])

unfoldable pub convert_link_to_span_context : Link → SpanContext
unfolding convert_trace_id convert_span_id link_baggage
convert_link_to_span_context link = record empty_context {
  trace_id = convert_trace_id link.trace_id;
  span_id = convert_span_id link.span_id;
  baggage = link_baggage link.attributes [];
}

-- The options of opentracing-go that the exporter uses: `StartTime`, `ChildOf` and `Tag`.
abbrev pub start_time_option : Time → StartSpanOption
start_time_option t = opentracing (λ o. record o { start_time = t })

abbrev pub child_of_option : SpanContext → StartSpanOption
child_of_option c = opentracing (λ o. record o {
  references = o.references ++ (record { type = child_of; referenced_context = some c } ∷ []);
})

abbrev pub tag_option : Text → Value → StartSpanOption
tag_option key value = opentracing (λ o. record o { tags = insert key value o.tags })

unfoldable pub link_options : List Link → List StartSpanOption
unfolding convert_link_to_span_context
link_options [] = []
link_options (link ∷ links) = elim (link.type) [
  | child ↦ child_of_option (convert_link_to_span_context link) ∷ link_options links
  | unspecified ↦ link_options links
  | parent ↦ link_options links
]

-- `kind_value` is what `ext` of opentracing-go makes of a span kind, a string of a type of its own.
module _ (kind_value : Text → Value) where
  unfoldable pub kind_options : SpanKind → List StartSpanOption
  unfolding insert
  kind_options server = tag_option (codes "span.kind") (kind_value (codes "server")) ∷ []
  kind_options client = tag_option (codes "span.kind") (kind_value (codes "client")) ∷ []
  kind_options unspecified = []

  unfoldable pub span_options : SpanData → List StartSpanOption
  unfolding link_options kind_options
  span_options sd =
      start_time_option sd.start_time
      ∷ trace_id (convert_trace_id sd.trace_id)
      ∷ span_id (convert_span_id sd.span_id)
      ∷ parent_span_id (convert_span_id sd.parent_span_id)
      ∷ (link_options sd.links ++ kind_options sd.span_kind)

unfoldable pub set_baggage_items : Span → List (Text × Text) → Span
set_baggage_items s [] = s
set_baggage_items s ((k, v) ∷ entries) = set_baggage_items (set_baggage_item s k v) entries

unfoldable pub set_tags : Span → List (Text × Value) → Span
unfolding set_tag
set_tags s [] = s
set_tags s ((k, v) ∷ attributes) = set_tags (set_tag s k v) attributes

-- `ext.HTTPStatusCode`, whose value is a `uint16`
abbrev pub status_code_key : Text
status_code_key = codes "http.status_code"

unfoldable pub annotation_record : Annotation → LogRecord
annotation_record a = record {
  timestamp = a.time;
  fields = Field.object a.message a.attributes ∷ [];
}

unfoldable pub finish_options : SpanData → FinishOptions
unfolding annotation_record
finish_options sd = record {
  finish_time = sd.end_time;
  log_records = map annotation_record sd.annotations;
  bulk_log_data = [];
}

module _ (kind_value : Text → Value) (to_log_record : LogData → LogRecord) where
  -- The span before its finish. The clock and the random identifiers are those of `newSpan`.
  unfoldable pub started_span : SpanData → Time → ℕ → ℕ × ℕ → Span
  unfolding set_baggage_items set_tags
  started_span sd now guid guid2 =
      let s = new_span sd.name (span_options kind_value sd) now guid guid2 in
      let s' = set_baggage_items s sd.tracestate in
      set_tags (set_tag s' status_code_key (Value.uint (sd.status_code % 2 ^ 16))) sd.attributes

  -- `ExportSpan` up to the record in the tracer: the finished span. `none` is a panic.
  unfoldable pub export_span : Options → SpanData → Time → ℕ → ℕ × ℕ → Time → Option (Span × Bool)
  unfolding started_span finish_options
  export_span opts sd now guid guid2 later =
      finish_with_options to_log_record opts (started_span sd now guid guid2) (finish_options sd)
        later
