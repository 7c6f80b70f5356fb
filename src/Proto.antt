-- ===== src/Proto.antt =====
-- The messages of collectorpb, the generated protobuf package, as far as the tracer fills or reads them.
-- A pointer that is never nil is the message itself.
use lightstep_tracer_go.Base.{ℕ, Bool, List, Text}
use lightstep_tracer_go.Base.Int.{ℤ}

pub data KeyValueValue : Type 0 where
  string_value : Text → KeyValueValue
  int_value : ℤ → KeyValueValue
  double_value : ℕ → KeyValueValue
  bool_value : Bool → KeyValueValue
  json_value : Text → KeyValueValue

pub record KeyValue : Type 0 where
  pub key : Text
  pub value : KeyValueValue

pub record Timestamp : Type 0 where
  pub seconds : ℤ
  pub nanos : ℕ

pub record Log : Type 0 where
  pub timestamp : Timestamp
  pub fields : List KeyValue

pub record SpanContext : Type 0 where
  pub trace_id : ℕ
  pub span_id : ℕ
  pub baggage : List (Text × Text)

-- The relationship is always CHILD_OF.
pub record Reference : Type 0 where
  pub span_context : SpanContext

pub record Span : Type 0 where
  pub span_context : SpanContext
  pub operation_name : Text
  pub references : List Reference
  pub start_timestamp : Timestamp
  pub duration_micros : ℕ
  pub tags : List KeyValue
  pub logs : List Log

pub record MetricsSample : Type 0 where
  pub name : Text
  pub int_value : ℤ

pub record InternalMetrics : Type 0 where
  pub start_timestamp : Timestamp
  pub duration_micros : ℕ
  pub counts : List MetricsSample

pub record Reporter : Type 0 where
  pub reporter_id : ℕ
  pub tags : List KeyValue

pub record Auth : Type 0 where
  pub access_token : Text

pub record ReportRequest : Type 0 where
  pub reporter : Reporter
  pub auth : Auth
  pub spans : List Span
  pub internal_metrics : InternalMetrics

pub record Command : Type 0 where
  pub disable : Bool
  pub dev_mode : Bool

pub record ReportResponse : Type 0 where
  pub errors : List Text
  pub commands : List Command
