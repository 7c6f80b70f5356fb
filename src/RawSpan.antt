-- ===== src/RawSpan.antt =====
-- raw_span.go: the finished span, its context and its baggage. The tags and log records are those
-- of opentracing-go, which the span only carries.
pub mod Baggage
use lightstep_tracer_go.Base.{
  ℕ, ◌+◌, ◌*◌, Bool, true, false, Option, none, some, List, [], ◌∷◌, length, Text, insert,
}
use lightstep_tracer_go.Base.Int.{ℤ}
use lightstep_tracer_go.Time.{Time, Duration}

-- An `interface{}` value, by what `reflect.Kind` and the type switches of the tracer tell apart.
-- A float is the bit pattern of the `float64` that it widens to; an unsigned number is below 2 ^ 64.
-- `other` is any further value, with what `fmt.Sprintf("%#v", …)` and `json.Marshal` make of it.
pub data Value : Type 0 where
  nil : Value
  string : Text → Value
  int : ℤ → Value
  uint : ℕ → Value
  float : ℕ → Value
  bool : Bool → Value
  stringer : Text → Value
  error : Text → Value
  other : Text → Option Text → Value

abbrev pub Tags : Type 0
Tags = List (Text × Value)

-- What a `log.Field` of opentracing-go passes to its encoder. A lazy logger calls the encoder
-- itself: it stands for the fields that it emits. A no-op field stands for none.
pub data Field : Type 0 where
  string : Text → Text → Field
  bool : Text → Bool → Field
  int : Text → ℤ → Field
  int32 : Text → ℤ → Field
  int64 : Text → ℤ → Field
  uint32 : Text → ℕ → Field
  uint64 : Text → ℕ → Field
  float32 : Text → ℕ → Field
  float64 : Text → ℕ → Field
  object : Text → Value → Field

pub record LogRecord : Type 0 where
  pub timestamp : Time
  pub fields : List Field

pub record SpanContext : Type 0 where
  pub trace_id : ℕ
  pub trace_id_upper : ℕ
  pub span_id : ℕ
  pub sampled : Text
  pub baggage : List (Text × Text)

pub record RawSpan : Type 0 where
  pub context : SpanContext
  pub parent_span_id : ℕ
  pub operation : Text
  pub start : Time
  pub duration : Duration
  pub tags : Tags
  pub logs : List LogRecord

abbrev pub empty_context : SpanContext
empty_context = record { trace_id = 0; trace_id_upper = 0; span_id = 0; sampled = []; baggage = [] }

-- The loop of `SpanContext.Len`.
unfoldable pub baggage_len : List (Text × Text) → ℕ → ℕ
baggage_len [] size = size
baggage_len ((k, v) ∷ items) size = baggage_len items (size + (length k + length v))

unfoldable pub context_len : SpanContext → ℕ
context_len c = baggage_len c.baggage (3 * 8 + length c.sampled)

-- The sizes that `unsafe.Sizeof` gives on a 64-bit machine.
abbrev pub sizeof_time : ℕ
sizeof_time = 24

abbrev pub sizeof_duration : ℕ
sizeof_duration = 8

abbrev pub sizeof_field : ℕ
sizeof_field = 64

unfoldable pub value_len : Value → ℕ
value_len (Value.string s) = length s
value_len _ = 0

unfoldable pub tags_len : Tags → ℕ → ℕ
unfolding value_len
tags_len [] size = size
tags_len ((k, v) ∷ tags) size = tags_len tags (size + length k + value_len v)

unfoldable pub fields_len : List Field → ℕ → ℕ
fields_len [] size = size
fields_len (f ∷ fields) size = fields_len fields (size + sizeof_field)

unfoldable pub logs_len : List LogRecord → ℕ → ℕ
unfolding fields_len
logs_len [] size = size
logs_len (lr ∷ logs) size = logs_len logs (fields_len lr.fields (size + sizeof_time))

-- `RawSpan.Len`
unfoldable pub raw_span_len : RawSpan → ℕ
unfolding baggage_len context_len tags_len logs_len
raw_span_len r = logs_len r.logs (
    tags_len r.tags
      (context_len r.context + 3 * 8 + length r.operation + sizeof_time + sizeof_duration))

-- The loop of `SpanContext.ForeachBaggageItem`: the handler sees the items in order and stops the
-- loop by `false`. A handler with state takes it along.
unfoldable pub foreach_baggage_item {ℓ} :
    {S : Type ℓ} → (S → Text → Text → S × Bool) → List (Text × Text) → S → S
foreach_baggage_item handler [] s = s
foreach_baggage_item handler ((k, v) ∷ items) s =
    let (s', more) = handler s k v in
    elim more [ true ↦ foreach_baggage_item handler items s' | false ↦ s' ]

-- The loop that copies a map.
unfoldable pub copy_items : List (Text × Text) → List (Text × Text) → List (Text × Text)
copy_items [] new = new
copy_items ((k, v) ∷ items) new = copy_items items (insert k v new)

-- `SpanContext.WithBaggageItem`
pub with_baggage_item : SpanContext → Text → Text → SpanContext
unfolding copy_items
with_baggage_item c key val = record c { baggage = insert key val (copy_items c.baggage []) }
