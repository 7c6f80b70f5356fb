-- ===== src/Options/Initialize.antt =====
-- options.go: `Initialize` with its defaults, and `Validate`.
use lightstep_tracer_go.Events.{Event, missing_service}
use lightstep_tracer_go.Base.Int.{ℤ, pos, negsuc}
use lightstep_tracer_go.RawSpan.{Tags, Value}
use lightstep_tracer_go.Time.{Duration, second}
use lightstep_tracer_go.Options.{Options, Endpoint}
use lightstep_tracer_go.Base.{
  ℕ, if◌then◌else◌, Text, ◌^◌, ◌==◌, Option, ◌∷◌, Bool, insert, codes, ◌⊎◌, some, lookup, List, ◌-◌,
  none, [], false, ◌*◌, inl, true, inr,
}

-- What the functions ask the system: the error of `os.Stat` for a file that does not exist, the name of
-- the program, the host and the command line; and what the random factor makes of the reconnect period.
pub record Environment : Type 0 where
  pub stat_error : Text → Option Text
  pub program : Text
  pub hostname : Text
  pub command_line : Text
  pub jittered : Duration → Duration

abbrev pub guid_key : Text
guid_key = codes "lightstep.guid"

abbrev pub component_name_key : Text
component_name_key = codes "lightstep.component_name"

abbrev pub hostname_key : Text
hostname_key = codes "lightstep.hostname"

abbrev pub command_line_key : Text
command_line_key = codes "lightstep.command_line"

-- `errInvalidGUIDKey`
abbrev pub invalid_guid_key : Text
invalid_guid_key = codes "Options invalid: setting the lightstep.guid tag is no longer supported"

-- The check of a file for certificates, where one is named.
unfoldable pub check_file : Environment → Text → Option Text
check_file env [] = none
check_file env (c ∷ file) = env.stat_error (c ∷ file)

abbrev pub has_tag : Text → Tags → Bool
has_tag k tags = elim (lookup k tags) [ none ↦ false | some v ↦ true ]

-- `Validate`
unfoldable pub validate : Environment → Options → Option Text
unfolding check_file
validate env opts =
    if has_tag guid_key opts.tags
    then some invalid_guid_key
    else elim (check_file env opts.collector.custom_ca_cert_file) [
      | some err ↦ some err
      | none ↦
          if opts.system_metrics.disabled
          then none
          else check_file env opts.system_metrics.endpoint.custom_ca_cert_file
    ]

-- What is negative stays.
abbrev pub or_default : ℤ → ℕ → ℤ
or_default (pos n) value = if n == 0 then pos value else pos n
or_default (negsuc n) value = negsuc n

-- The default also takes the place of what is negative.
abbrev pub or_positive : ℤ → ℕ → ℤ
or_positive (pos n) value = if n == 0 then pos value else pos n
or_positive (negsuc n) value = pos value

abbrev pub or_text : Text → Text → Text
or_text [] value = value
or_text (c ∷ s) value = c ∷ s

abbrev pub or_tag : Text → Text → Tags → Tags
or_tag k value tags = if has_tag k tags then tags else insert k (Value.string value) tags

abbrev pub millisecond : ℕ
millisecond = 1_000_000

-- A default for the host and the port of an endpoint.
unfoldable pub default_endpoint : Text → Endpoint → Endpoint
default_endpoint host e = record e {
  host = or_text e.host host;
  port = or_positive e.port (if e.plaintext then 80 else 443);
}

unfoldable pub default_tags : Environment → Tags → Tags
default_tags env tags =
    or_tag command_line_key env.command_line
      (or_tag hostname_key env.hostname (or_tag component_name_key env.program tags))

unfoldable pub default_options : Environment → Options → Options
unfolding default_endpoint default_tags
default_options env opts = record opts {
  max_buffered_spans = or_default opts.max_buffered_spans 1000;
  max_log_key_len = or_default opts.max_log_key_len 256;
  max_log_value_len = or_default opts.max_log_value_len 1024;
  max_logs_per_span = or_default opts.max_logs_per_span 500;
  grpc_max_call_send_msg_size_bytes =
      or_default opts.grpc_max_call_send_msg_size_bytes (2 ^ 31 - 1);
  reporting_period = or_default opts.reporting_period (2500 * millisecond);
  min_reporting_period = or_default opts.min_reporting_period (500 * millisecond);
  report_timeout = or_default opts.report_timeout (30 * second);
  reconnect_period = env.jittered (or_default opts.reconnect_period (300 * second));
  tags = default_tags env opts.tags;
  collector = default_endpoint (codes "collector-grpc.lightstep.com") opts.collector;
  system_metrics = record (opts.system_metrics) {
    endpoint = default_endpoint (codes "ingest.lightstep.com") opts.system_metrics.endpoint;
    measurement_frequency = or_positive opts.system_metrics.measurement_frequency (30 * second);
    timeout = or_positive opts.system_metrics.timeout (5 * second);
  };
}

-- `Initialize`: an error, or the options and the event of a missing service name.
unfoldable pub initialize : Environment → Options → Text ⊎ (Options × List Event)
unfolding validate default_options
initialize env opts = elim (validate env opts) [
  | some err ↦ inl err
  | none ↦ inr (
    default_options env opts,
    if has_tag component_name_key opts.tags then [] else missing_service env.program ∷ [],
  )
]

-- `SocketAddress` and `URL`; `scheme` is the first text of the latter.
unfoldable pub scheme : Endpoint → Text
scheme e = or_text e.scheme (if e.plaintext then codes "http" else codes "https")
