-- ===== src/Tests.antt =====
-- Data for the runs of the theorems on concrete inputs, which are in the child modules.
mod Buffers
mod Spans
mod Propagators
mod Reports
mod Tracing
mod Values
mod Clients
mod Settings
mod Remote
mod Exports
mod Starting
mod Running
mod Certificates
use lightstep_tracer_go.Base.Int.{pos}
use lightstep_tracer_go.ReportBuffer.{ReportBuffer}
use lightstep_tracer_go.Tracer.{Tracer, create_tracer}
use lightstep_tracer_go.RawSpan.{RawSpan, SpanContext}
use lightstep_tracer_go.Options.{Options, Endpoint}
use lightstep_tracer_go.Base.{ℕ, ◌∷◌, [], codes, true, false}

abbrev pub test_endpoint : Endpoint
test_endpoint = record {
  scheme = [];
  host = codes "localhost";
  port = pos 8360;
  plaintext = true;
  custom_ca_cert_file = [];
}

-- Two spans in the buffer and three logs in a span.
abbrev pub test_options : Options
test_options = record {
  access_token = codes "token";
  collector = test_endpoint;
  tags = [];
  max_buffered_spans = pos 2;
  max_log_key_len = pos 4;
  max_log_value_len = pos 4;
  max_logs_per_span = pos 3;
  grpc_max_call_send_msg_size_bytes = pos 1_000;
  reporting_period = pos 2_500_000_000;
  min_reporting_period = pos 500_000_000;
  report_timeout = pos 30_000_000_000;
  drop_span_logs = false;
  verbose = false;
  use_http = false;
  use_grpc = true;
  custom_collector = false;
  reconnect_period = pos 300_000_000_000;
  recorder = false;
  meta_event_reporting_enabled = false;
  system_metrics = record {
    disabled = true;
    endpoint = test_endpoint;
    measurement_frequency = pos 0;
    timeout = pos 0;
  };
}

abbrev pub test_context : SpanContext
test_context = record {
  trace_id = 7;
  trace_id_upper = 0;
  span_id = 9;
  sampled = [];
  baggage = (codes "user", codes "ada") ∷ [];
}

abbrev pub test_span : RawSpan
test_span = record {
  context = test_context;
  parent_span_id = 0;
  operation = codes "work";
  start = 1;
  duration = pos 2;
  tags = [];
  logs = [];
}

abbrev pub test_buffer : ReportBuffer
test_buffer = record {
  raw_spans = test_span ∷ [];
  capacity = 2;
  dropped_span_count = 3;
  reported_dropped_span_count = 1;
  log_encoder_error_count = 2;
  reported_log_encoder_error_count = 2;
  report_start = 4;
  report_end = 5;
}

abbrev pub test_tracer : Tracer
test_tracer = create_tracer test_options 11 [] 5
