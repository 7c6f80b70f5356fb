-- ===== src/Options.antt =====
-- options.go: the options of a tracer, their defaults and validation, and the span options.
pub mod Initialize
pub mod Defaults
pub mod Addresses
use lightstep_tracer_go.Base.{ℕ, Bool, Text}
use lightstep_tracer_go.Base.Int.{ℤ}
use lightstep_tracer_go.Time.{Duration}
use lightstep_tracer_go.RawSpan.{Tags}

pub record Endpoint : Type 0 where
  pub scheme : Text
  pub host : Text
  pub port : ℤ
  pub plaintext : Bool
  pub custom_ca_cert_file : Text

pub record SystemMetricsOptions : Type 0 where
  pub disabled : Bool
  pub endpoint : Endpoint
  pub measurement_frequency : Duration
  pub timeout : Duration

-- `Propagators`, `DialOptions`, `Recorder`, `CustomCollector` and `ConnFactory` are values of other
-- packages or of the user: what the tracer does with them is said where it uses them. The first
-- three flags say whether a custom collector, a connector factory and a recorder are set.
-- Sizes and limits are integers, which may be negative.
pub record Options : Type 0 where
  pub access_token : Text
  pub collector : Endpoint
  pub tags : Tags
  pub max_buffered_spans : ℤ
  pub max_log_key_len : ℤ
  pub max_log_value_len : ℤ
  pub max_logs_per_span : ℤ
  pub grpc_max_call_send_msg_size_bytes : ℤ
  pub reporting_period : Duration
  pub min_reporting_period : Duration
  pub report_timeout : Duration
  pub drop_span_logs : Bool
  pub verbose : Bool
  pub use_http : Bool
  pub use_grpc : Bool
  pub custom_collector : Bool
  pub reconnect_period : Duration
  pub recorder : Bool
  pub meta_event_reporting_enabled : Bool
  pub system_metrics : SystemMetricsOptions
