-- ===== src/Converter.antt =====
-- proto_converter.go: from raw spans to the messages of a report.
-- An event that is emitted on the way is part of the result.
pub mod Account
pub mod Unsupported
use lightstep_tracer_go.LogEncoder.{Library, ProtoConverter, marshal_fields}
use lightstep_tracer_go.Base.Int.{ℤ, pos, negsuc}
use lightstep_tracer_go.Time.{Time, Duration, sub, unix, nanosecond}
use lightstep_tracer_go.Base.{
  ℕ, Bool, List, Text, codes, take, ltb, ◌⊎◌, inl, [], ◌∷◌, if◌then◌else◌, ◌++◌, ◌-◌, ◌==◌, ◌&&◌,
  some, int_max, ◌/◌, add64, length, none, word_mod, inr, ◌+◌, ◌%◌,
}
use lightstep_tracer_go.RawSpan.{RawSpan, Field, Value, LogRecord, Tags}
use lightstep_tracer_go.RawSpan
use lightstep_tracer_go.Proto
use lightstep_tracer_go.Proto.{
  KeyValue, KeyValueValue, Timestamp, ReportRequest, InternalMetrics, MetricsSample, bool_value,
  int_value, string_value, double_value, json_value,
}
use lightstep_tracer_go.Events.{Event, new_event_unsupported_value}
use lightstep_tracer_go.Strconv.{format_uint, to_int64}
use lightstep_tracer_go.ReportBuffer.{ReportBuffer}
use lightstep_tracer_go.Options.{Options}

pub to_timestamp : Time → Timestamp
to_timestamp t = record { seconds = unix t; nanos = nanosecond t }

-- The division of `int64` rounds towards zero, and the conversion to `uint64` wraps.
pub from_duration : Duration → ℕ
from_duration (pos n) = n / 1000
from_duration (negsuc n) = (word_mod - (n + 1) / 1000) % word_mod

pub from_time_range : Time → Time → ℕ
unfolding from_duration
from_time_range oldest_time youngest_time = from_duration (sub youngest_time oldest_time)

unfoldable pub to_reference : ℕ → List Proto.Reference
to_reference parent_span_id =
    if parent_span_id == 0
    then []
    else record { span_context = record { trace_id = 0; span_id = parent_span_id; baggage = [] } }
      ∷ []

unfoldable pub to_span_context : RawSpan.SpanContext → Proto.SpanContext
to_span_context sc = record { trace_id = sc.trace_id; span_id = sc.span_id; baggage = sc.baggage }

unfoldable pub to_metrics_sample : ReportBuffer → List MetricsSample
unfolding to_int64
to_metrics_sample buffer =
    record { name = codes "spans.dropped"; int_value = to_int64 buffer.dropped_span_count }
    ∷ record {
      name = codes "log_encoder.errors";
      int_value = to_int64 buffer.log_encoder_error_count;
    }
    ∷ []

unfoldable pub to_internal_metrics : ReportBuffer → InternalMetrics
unfolding to_timestamp from_time_range to_metrics_sample
to_internal_metrics buffer = record {
  start_timestamp = to_timestamp buffer.report_start;
  duration_micros = from_time_range buffer.report_start buffer.report_end;
  counts = to_metrics_sample buffer;
}

module _ (lib : Library) (c : ProtoConverter) where
  unfoldable pub to_log : LogRecord → ReportBuffer → Proto.Log × ReportBuffer × List Event
  to_log lr buffer =
      let lfe =
        marshal_fields lib c lr.fields (record { buffer = buffer; key_values = []; events = [] }) in
      (
        record { timestamp = to_timestamp lr.timestamp; fields = lfe.key_values },
        lfe.buffer,
        lfe.events,
      )

  unfoldable pub to_logs :
      List LogRecord → ReportBuffer → List Proto.Log × ReportBuffer × List Event
  to_logs [] buffer = ([], buffer, [])
  to_logs (lr ∷ records) buffer =
      let (log, buffer', events) = to_log lr buffer in
      let (logs, buffer'', events') = to_logs records buffer' in
      (log ∷ logs, buffer'', events ++ events')

  unfoldable pub to_field : Text → Value → KeyValue × List Event
  unfolding to_int64
  to_field key (Value.string s) = (record { key = key; value = string_value s }, [])
  to_field key (Value.int i) = (record { key = key; value = int_value i }, [])
  to_field key (Value.uint n) = (record { key = key; value = int_value (to_int64 n) }, [])
  to_field key (Value.float f) = (record { key = key; value = double_value f }, [])
  to_field key (Value.bool b) = (record { key = key; value = bool_value b }, [])
  to_field key (Value.stringer s) = (record { key = key; value = string_value s }, [])
  to_field key (Value.error s) = (record { key = key; value = string_value s }, [])
  to_field key Value.nil = (
    record { key = key; value = string_value (codes "<nil>") },
    new_event_unsupported_value (lib.unsupported_text) key Value.nil none ∷ [],
  )
  to_field key (Value.other s json) = (
    record { key = key; value = string_value s },
    new_event_unsupported_value (lib.unsupported_text) key (Value.other s json) none ∷ [],
  )

  unfoldable pub from_tags : Tags → List KeyValue × List Event
  from_tags [] = ([], [])
  from_tags ((k, v) ∷ tags) =
      let (field, events) = to_field k v in
      let (fields, events') = from_tags tags in (field ∷ fields, events ++ events')

  -- The attributes are texts.
  unfoldable pub to_fields : List (Text × Text) → List KeyValue
  to_fields [] = []
  to_fields ((k, v) ∷ attributes) =
      record { key = k; value = string_value v } ∷ to_fields attributes

  unfoldable pub to_span : RawSpan → ReportBuffer → Proto.Span × ReportBuffer × List Event
  to_span span buffer =
      let (tags, events) = from_tags span.tags in
      let (logs, buffer', events') = to_logs span.logs buffer in
      (
        record {
          span_context = to_span_context span.context;
          operation_name = span.operation;
          references = to_reference span.parent_span_id;
          start_timestamp = to_timestamp span.start;
          duration_micros = from_duration span.duration;
          tags = tags;
          logs = logs;
        },
        buffer',
        events ++ events',
      )

  unfoldable pub to_spans :
      List RawSpan → ReportBuffer → List Proto.Span × ReportBuffer × List Event
  to_spans [] buffer = ([], buffer, [])
  to_spans (span ∷ raw_spans) buffer =
      let (s, buffer', events) = to_span span buffer in
      let (spans, buffer'', events') = to_spans raw_spans buffer' in
      (s ∷ spans, buffer'', events ++ events')

  -- The metrics are made after the spans, and see the errors of their logs.
  unfoldable pub to_report_request :
      ℕ → List (Text × Text) → Text → ReportBuffer → ReportRequest × ReportBuffer × List Event
  to_report_request reporter_id attributes access_token buffer =
      let (spans, buffer', events) = to_spans buffer.raw_spans buffer in
      (
        record {
          reporter = record { reporter_id = reporter_id; tags = to_fields attributes };
          auth = record { access_token = access_token };
          spans = spans;
          internal_metrics = to_internal_metrics buffer';
        },
        buffer',
        events,
      )
