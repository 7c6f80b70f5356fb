-- ===== src/Exporter/Settings.antt =====
-- lightstepoc/options.go and `NewExporter` of lightstepoc/exporter.go.
use lightstep_tracer_go.Tracer.{Tracer}
use lightstep_tracer_go.RawSpan.{Tags, Value}
use lightstep_tracer_go.Base.Int.{ℤ, pos}
use lightstep_tracer_go.Options.{Options, Endpoint}
use lightstep_tracer_go.Options.Initialize.{validate, Environment, component_name_key}
use lightstep_tracer_go.Base.{
  Text, List, insert, codes, ◌∷◌, [], Bool, Option, false, true, ◌⊎◌, some, inr, inl, none,
}

-- The `With…` options. A Go map given to an option is a list of items.
pub data ExporterOption : Type 0 where
  with_access_token : Text → ExporterOption
  with_satellite_host : Text → ExporterOption
  with_satellite_port : ℤ → ExporterOption
  with_insecure : Bool → ExporterOption
  with_meta_event_reporting_enabled : Bool → ExporterOption
  with_component_name : Text → ExporterOption
  with_default_attributes : List (Text × Value) → ExporterOption
  with_max_buffered_spans : ℤ → ExporterOption

abbrev pub zero_endpoint : Endpoint
zero_endpoint = record {
  scheme = [];
  host = [];
  port = pos 0;
  plaintext = false;
  custom_ca_cert_file = [];
}

-- `defaultConfig`; the fields that it does not name are zero.
abbrev pub default_config : Options
default_config = record {
  access_token = [];
  collector = record zero_endpoint { host = codes "localhost"; port = pos 8360 };
  tags = [];
  max_buffered_spans = pos 0;
  max_log_key_len = pos 0;
  max_log_value_len = pos 0;
  max_logs_per_span = pos 0;
  grpc_max_call_send_msg_size_bytes = pos 0;
  reporting_period = pos 0;
  min_reporting_period = pos 0;
  report_timeout = pos 0;
  drop_span_logs = false;
  verbose = false;
  use_http = true;
  use_grpc = false;
  custom_collector = false;
  reconnect_period = pos 0;
  recorder = false;
  meta_event_reporting_enabled = false;
  system_metrics = record {
    disabled = false;
    endpoint = zero_endpoint;
    measurement_frequency = pos 0;
    timeout = pos 0;
  };
}

unfoldable pub add_tags : Tags → List (Text × Value) → Tags
unfolding insert
add_tags tags [] = tags
add_tags tags ((k, v) ∷ attributes) = add_tags (insert k v tags) attributes

unfoldable pub apply_exporter_option : ExporterOption → Options → Options
unfolding add_tags insert
apply_exporter_option (with_access_token s) c = record c { access_token = s }
apply_exporter_option (with_satellite_host s) c = record c {
  collector = record (c.collector) { host = s };
}
apply_exporter_option (with_satellite_port n) c = record c {
  collector = record (c.collector) { port = n };
}
apply_exporter_option (with_insecure b) c = record c {
  collector = record (c.collector) { plaintext = b };
}
apply_exporter_option (with_meta_event_reporting_enabled b) c = record c {
  meta_event_reporting_enabled = b;
}
apply_exporter_option (with_component_name []) c = c
apply_exporter_option (with_component_name (b ∷ name)) c = record c {
  tags = insert component_name_key (Value.string (b ∷ name)) c.tags;
}
apply_exporter_option (with_default_attributes attributes) c = record c {
  tags = add_tags c.tags attributes;
}
apply_exporter_option (with_max_buffered_spans n) c = record c { max_buffered_spans = n }

unfoldable pub apply_exporter_options : List ExporterOption → Options → Options
unfolding apply_exporter_option
apply_exporter_options [] c = c
apply_exporter_options (o ∷ opts) c = apply_exporter_options opts (apply_exporter_option o c)

-- `ErrFailedToCreateExporter`
abbrev pub failed_to_create_exporter : Text
failed_to_create_exporter = codes "lightstepoc: failed to create exporter"

-- `NewExporter`; `new_tracer` is `NewTracer`, which returns nil on an error.
unfoldable pub new_exporter :
    Environment → (Options → Option Tracer) → List ExporterOption → Text ⊎ Tracer
unfolding apply_exporter_options validate
new_exporter env new_tracer opts =
    let c = apply_exporter_options opts default_config in
    elim (new_tracer c) [
      | some tracer ↦ inr tracer
      | none ↦ elim (validate env c) [ some err ↦ inl err | none ↦ inl failed_to_create_exporter ]
    ]
