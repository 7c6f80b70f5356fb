-- ===== src/Tests/Reports.antt =====
-- Runs of the theorems on the converter and on the split of a report.
use lightstep_tracer_go.Proto.{string_value, json_value}
use lightstep_tracer_go.Converter.Account.{with_errors, bump, to_spans_lem, spans_failures}
use lightstep_tracer_go.Collector.Split.{copies, with_spans, split_by_parts_lem}
use lightstep_tracer_go.Base.Int.{pos}
use lightstep_tracer_go.RawSpan.{RawSpan, Field, Value}
use lightstep_tracer_go.LogEncoder.Truncation.{Limited, set_safe_lem}
use lightstep_tracer_go.Collector.{max_part_size, grpc_translate, Store, split_by_parts}
use lightstep_tracer_go.Converter.{to_spans}
use lightstep_tracer_go.LogEncoder.{
  Library, ProtoConverter, set_safe_key, set_safe_string_value, set_safe_json_value,
}
use lightstep_tracer_go.Base.{
  ℕ, [], ◌∷◌, false, codes, ◌≡◌, length, refl, true, Text, map, ◌<◌, inl, inr, arith, ◌⊎◌,
}
use lightstep_tracer_go.Proto
use lightstep_tracer_go.Tests.{test_span, test_buffer, RawSpan, pos}

-- A JSON encoder that fails for `nil`.
abbrev pub test_library : Library
test_library = record {
  unsupported_text = λ key value. key;
  json_marshal = λ value. elim value [ Value.nil ↦ inl (codes "no") | _ ↦ inr (codes "{}") ];
}

abbrev logging_span : RawSpan
logging_span = record test_span {
  logs =
      record {
        timestamp = 1;
        fields =
            Field.object (codes "a") Value.nil ∷ Field.object (codes "b") (Value.bool true) ∷ [];
      }
      ∷ [];
}

abbrev test_converter : ProtoConverter
test_converter = record { verbose = false; max_log_key_len = 4; max_log_value_len = 4 }

to_spans_lem_example :
    let (messages, buffer', events) =
      to_spans test_library test_converter (logging_span ∷ test_span ∷ []) test_buffer in
    (length messages ≡ 2)
    × (map (λ m. m.operation_name) messages ≡ codes "work" ∷ codes "work" ∷ [])
    × (map (λ m. length m.logs) messages ≡ 1 ∷ 0 ∷ [])
    × (buffer' ≡ with_errors test_buffer (bump 1 2))
unfolding spans_failures
to_spans_lem_example =
    to_spans_lem test_library test_converter (logging_span ∷ test_span ∷ []) test_buffer

-- A limit of 4 bytes shows 3 bytes and the 3 of the ellipsis.
set_safe_lem_example :
    Limited 4 (codes "key") (set_safe_key test_converter (codes "key"))
    × ((shown : Text) × (set_safe_string_value test_converter (codes "value") ≡ string_value shown)
        × Limited 4 (codes "value") shown)
    × ((shown : Text) × Limited 4 (codes "value") shown
        × (((set_safe_json_value test_converter (codes "value") ≡ json_value shown)
              × (shown ≡ codes "value"))
            ⊎ ((set_safe_json_value test_converter (codes "value") ≡ string_value shown)
                × (4 < 5))))
set_safe_lem_example = set_safe_lem test_converter (codes "key") (codes "value")

abbrev pub test_message : ℕ → Proto.Span
test_message n = record {
  span_context = record { trace_id = 1; span_id = n; baggage = [] };
  operation_name = [];
  references = [];
  start_timestamp = record { seconds = pos 0; nanos = 0 };
  duration_micros = 0;
  tags = [];
  logs = [];
}

-- A request with five spans.
abbrev pub test_request : Proto.ReportRequest
test_request = record {
  reporter = record { reporter_id = 1; tags = [] };
  auth = record { access_token = [] };
  spans = test_message 1 ∷ test_message 2 ∷ test_message 3 ∷ test_message 4 ∷ test_message 5 ∷ [];
  internal_metrics = record {
    start_timestamp = record { seconds = pos 0; nanos = 0 };
    duration_micros = 0;
    counts = [];
  };
}

abbrev pub test_store : Store
test_store p = test_request

max_part_size_of_five : max_part_size 5 2 ≡ 3
unfolding max_part_size
max_part_size_of_five = refl

-- Five spans in two parts: two requests for the last two spans, and none for the first three.
split_by_parts_lem_example :
    let (rrs, store') = split_by_parts (grpc_translate 0) 2 test_store in
    (rrs ≡ grpc_translate 0 ∷ grpc_translate 0 ∷ [])
    × (1 < 2)
    × (store' 0 ≡ with_spans test_request (test_message 4 ∷ test_message 5 ∷ []))
unfolding grpc_translate max_part_size copies
split_by_parts_lem_example =
    split_by_parts_lem (grpc_translate 0) 0 2 1 test_store refl (omega arith) (omega arith)
      (omega arith)
