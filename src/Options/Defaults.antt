-- ===== src/Options/Defaults.antt =====
-- options.go: the options after `Initialize`, and its errors.
use lightstep_tracer_go.RawSpan.{Value, Tags}
use lightstep_tracer_go.Options.Initialize.{
  default_options, default_endpoint, Environment, or_positive, or_default,
}
use lightstep_tracer_go.Options.{Options, Tags}
use lightstep_tracer_go.Base.Int.{ℤ, pos_part, pos, negsuc}
use lightstep_tracer_go.Base.{
  ℕ, Text, ◌<◌, lookup, Bool, ◌≡◌, true, some, if◌then◌else◌, arith, false, ◌⊎◌, suc, zero,
}

abbrev pub NotZero : ℤ → Type 0
NotZero (pos n) = 0 < n
NotZero (negsuc n) = Unit

-- Options with all defaults: no size or limit is 0, though one may be negative.
pub record IsReady (o : Options) : Type 0 where
  pub spans : NotZero o.max_buffered_spans
  pub log_keys : NotZero o.max_log_key_len
  pub log_values : NotZero o.max_log_value_len
  pub logs : NotZero o.max_logs_per_span
  pub message_size : NotZero o.grpc_max_call_send_msg_size_bytes
  pub collector_port : 0 < pos_part o.collector.port
  pub metrics_port : 0 < pos_part o.system_metrics.endpoint.port
  pub frequency : 0 < pos_part o.system_metrics.measurement_frequency
  pub timeout : 0 < pos_part o.system_metrics.timeout

or_default-NotZero : (n : ℤ) (value : ℕ) → 0 < value → NotZero (or_default n value)
or_default-NotZero (pos zero) value h = h
or_default-NotZero (pos (suc n)) value h = ground arith
or_default-NotZero (negsuc n) value h = tt

or_positive-pos : (n : ℤ) (value : ℕ) → 0 < value → 0 < pos_part (or_positive n value)
or_positive-pos (pos n) value h = ground arith
or_positive-pos (negsuc n) value h = h

pub default_options-IsReady :
    (env : Environment) (opts : Options) → IsReady (default_options env opts)
unfolding default_options default_endpoint
default_options-IsReady env opts = record {
  spans = or_default-NotZero opts.max_buffered_spans _ (omega arith);
  log_keys = or_default-NotZero opts.max_log_key_len _ (omega arith);
  log_values = or_default-NotZero opts.max_log_value_len _ (omega arith);
  logs = or_default-NotZero opts.max_logs_per_span _ (omega arith);
  message_size = or_default-NotZero opts.grpc_max_call_send_msg_size_bytes _ (omega arith);
  collector_port = or_positive-pos opts.collector.port _ (port_pos opts.collector.plaintext);
  metrics_port =
      or_positive-pos opts.system_metrics.endpoint.port _
        (port_pos opts.system_metrics.endpoint.plaintext);
  frequency = or_positive-pos opts.system_metrics.measurement_frequency _ (omega arith);
  timeout = or_positive-pos opts.system_metrics.timeout _ (omega arith);
}
  where
    port_pos : (plaintext : Bool) → 0 < (if plaintext then 80 else 443)
    port_pos true = omega arith
    port_pos false = omega arith

-- A limit that is as it was, unless it was 0.
abbrev pub Kept : ℤ → ℤ → Type 0
Kept z z' = (z ≡ pos 0) ⊎ (z' ≡ z)

pub record LimitsKept (o o' : Options) : Type 0 where
  pub spans : Kept o.max_buffered_spans o'.max_buffered_spans
  pub log_keys : Kept o.max_log_key_len o'.max_log_key_len
  pub log_values : Kept o.max_log_value_len o'.max_log_value_len
  pub logs : Kept o.max_logs_per_span o'.max_logs_per_span
  pub message_size : Kept o.grpc_max_call_send_msg_size_bytes o'.grpc_max_call_send_msg_size_bytes

abbrev pub Tagged : Text → Tags → Type 0
Tagged k tags = (v : Value) × (lookup k tags ≡ some v)
