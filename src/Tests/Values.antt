-- ===== src/Tests/Values.antt =====
-- Small runs of the definitions on concrete values.
use lightstep_tracer_go.Strconv.{to_int64}
use lightstep_tracer_go.Options.Initialize
use lightstep_tracer_go.Proto.{string_value}
use lightstep_tracer_go.Propagation.B3.{b3_propagator}
use lightstep_tracer_go.Base.Int.{pos, negsuc}
use lightstep_tracer_go.StartOptions.{new_start_span_options, apply_options}
use lightstep_tracer_go.RawSpan.{raw_span_len, Field, Value, foreach_baggage_item}
use lightstep_tracer_go.Propagation.Stack.{push_propagator}
use lightstep_tracer_go.Collector.{response_dev_mode, new_collector_client, any_dev_mode, http}
use lightstep_tracer_go.Collector.Clients.{connect_client, grpc_report, dial_error, GrpcClient}
use lightstep_tracer_go.Metrics.{attributes_to_tags, get_labels, label_of}
use lightstep_tracer_go.LogEncoder.{Library, ProtoConverter}
use lightstep_tracer_go.Span.{
  is_meta, dropped_record, baggage_item, Span, log_kv, new_span, set_tag, log_fields,
}
use lightstep_tracer_go.Events.{
  event_state, state_text, flush_error, new_event_unsupported_value, tracer_closed,
  unsupported_value, report_duration,
}
use lightstep_tracer_go.Converter.{
  to_fields, to_field, from_tags, to_reference, to_internal_metrics, to_span_context,
  to_metrics_sample,
}
use lightstep_tracer_go.Base.{
  lookup, length, false, true, inl, ◌≡◌, none, codes, [], text_eq, refl, ◌∷◌, some, insert, map,
  List, ◌^◌, ◌-◌, Text,
}
use lightstep_tracer_go.Tests.{
  test_options, test_context, test_span, test_buffer, test_endpoint, pos,
}

abbrev plain_span : Span
plain_span = new_span (codes "work") [] 1 3 (5, 6)

meta_span_found :
    is_meta (set_tag plain_span (codes "lightstep.meta_event") (Value.bool true)) ≡ true
unfolding is_meta set_tag new_span new_start_span_options apply_options lookup insert text_eq
meta_span_found = refl

baggage_found : baggage_item (record plain_span { raw = test_span }) (codes "user") ≡ codes "ada"
unfolding baggage_item lookup text_eq
baggage_found = refl

-- Keys and values that do not pair up are logged as an error.
odd_key_values :
    log_kv test_options plain_span (inl (Field.string (codes "error") (codes "odd"))) 7
    ≡ log_fields test_options plain_span
        (Field.string (codes "error") (codes "odd")
          ∷ Field.string (codes "function") (codes "LogKV")
          ∷ [])
        7
unfolding log_kv
odd_key_values = refl

dropped_time : (dropped_record 5 3).timestamp ≡ 5
unfolding dropped_record
dropped_time = refl

span_size : raw_span_len test_span ≡ 91
unfolding raw_span_len
span_size = refl

labels :
    map
      (λ l. l.key)
      (get_labels (
        (codes "zone", codes "a")
        ∷ (codes "service.version", codes "1")
        ∷ (codes "lightstep.hostname", [])
        ∷ []))
    ≡ codes "service.version" ∷ []
unfolding get_labels label_of text_eq
labels = refl

one_tag : length (attributes_to_tags ((codes "zone", codes "a") ∷ [])) ≡ 1
unfolding attributes_to_tags
one_tag = refl

dev_mode :
    response_dev_mode
      (record { errors = []; commands = record { disable = false; dev_mode = true } ∷ [] })
    ≡ true
unfolding response_dev_mode any_dev_mode
dev_mode = refl

default_client : new_collector_client (record test_options { use_grpc = false }) ≡ http
unfolding new_collector_client
default_client = refl

no_parent : to_reference 0 ≡ []
unfolding to_reference
no_parent = refl

context_sent : (to_span_context test_context).span_id ≡ 9
unfolding to_span_context
context_sent = refl

-- A count with the high bit is negative.
negative_count :
    map
      (λ c. c.int_value)
      (to_internal_metrics (record test_buffer { dropped_span_count = 2 ^ 64 - 1 })).counts
    ≡ negsuc 0 ∷ pos 2 ∷ []
unfolding to_internal_metrics to_metrics_sample to_int64
negative_count = refl

abbrev plain_library : Library
plain_library = record { unsupported_text = λ key value. key; json_marshal = λ value. inl [] }

abbrev plain_converter : ProtoConverter
plain_converter = record { verbose = false; max_log_key_len = 0; max_log_value_len = 0 }

nil_field : to_field plain_library plain_converter (codes "k") Value.nil ≡ (
  record { key = codes "k"; value = string_value (codes "<nil>") },
  unsupported_value (codes "k") Value.nil (codes "k") ∷ [],
)
unfolding to_field new_event_unsupported_value
nil_field = refl

one_event :
    length
      (from_tags plain_library plain_converter
        ((codes "a", Value.nil) ∷ (codes "b", Value.bool true) ∷ [])).1
    ≡ 1
unfolding from_tags to_field
one_event = refl

one_field : length (to_fields plain_library plain_converter ((codes "zone", codes "a") ∷ [])) ≡ 1
unfolding to_fields
one_field = refl

closed_state :
    event_state (flush_error (record { err = state_text tracer_closed; state = tracer_closed }))
    ≡ some tracer_closed
unfolding event_state
closed_state = refl

closed_words : length (state_text tracer_closed) ≡ 35
unfolding state_text
closed_words = refl

plain_scheme : Initialize.scheme test_endpoint ≡ codes "http"
unfolding Initialize.scheme
plain_scheme = refl

pushed : length (push_propagator (record { propagators = [] }) b3_propagator).propagators ≡ 1
unfolding push_propagator
pushed = refl

no_request :
    grpc_report (record { proto_request = none; http_request = none }) (inl [])
    ≡ inl (codes "protoRequest cannot be null")
unfolding grpc_report
no_request = refl

-- A dial that fails keeps the old client.
failed_dial :
    let c : GrpcClient = record {
      connected = true;
      conn_timestamp = 5;
      reconnect_period = pos 3;
    } in
    connect_client c 9 (dial_error []) ≡ (some [], c)
unfolding connect_client
failed_dial = refl

-- The handler ends the loop.
first_item :
    foreach_baggage_item {S = List Text}
      (λ seen k v. (k ∷ seen, false))
      ((codes "a", []) ∷ (codes "b", []) ∷ [])
      []
    ≡ codes "a" ∷ []
unfolding foreach_baggage_item
first_item = refl

report_time :
    report_duration (record {
      start_time = 3;
      finish_time = 8;
      sent_spans = 0;
      dropped_spans = 0;
      encoding_errors = 0;
      flush_duration = pos 0;
    })
    ≡ pos 5
unfolding report_duration
report_time = refl
