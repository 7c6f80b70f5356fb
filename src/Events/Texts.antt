-- ===== src/Events/Texts.antt =====
-- events.go: the texts of the events. What `fmt` prints for a time is the parameter `time_text`.
use lightstep_tracer_go.RawSpan.{Value}
use lightstep_tracer_go.Events.{
  Event, StatusReport, start_error, flush_error, connection_error, status_report,
  unsupported_tracer, unsupported_value, system_metrics_measurement_failed,
  system_metrics_status_report, missing_service, tracer_disabled, FlushError, Value,
}
use lightstep_tracer_go.Strconv.{decimal, to_int64}
use lightstep_tracer_go.Time.{Time}
use lightstep_tracer_go.Base.{ℕ, Text, codes, ◌++◌}

-- `newEventUnsupportedTracer`, with the type of the tracer.
unfoldable pub unsupported_tracer_text : Text → Text
unsupported_tracer_text type_name = codes "unsupported tracer type: " ++ type_name

-- `String`, `Error` and `Err` of the events that are an error: the text of the error.
abbrev start_error_text : Text → Text
start_error_text err = err

abbrev flush_error_text : FlushError → Text
flush_error_text e = e.err

abbrev connection_error_text : Text → Text
connection_error_text err = err

abbrev unsupported_tracer_error : Text → Text
unsupported_tracer_error err = err

abbrev unsupported_value_error : Text → Value → Text → Text
unsupported_value_error key value err = err

abbrev measurement_failed_text : Text → Text
measurement_failed_text err = err

-- `eventTracerDisabled.String`
abbrev tracer_disabled_text : Text
tracer_disabled_text = codes "the tracer has been disabled"

abbrev integer_text : ℕ → Text
integer_text n = decimal (to_int64 n)

-- `eventMissingService.String`
unfoldable pub missing_service_text : Text → Text
missing_service_text service =
    codes "Warning: Service name not specified in initialization of Lightstep tracer."
    ++ codes "Using default service {"
    ++ service
    ++ codes "} instead."

module _ (time_text : Time → Text) where
  unfoldable pub status_text : StatusReport → Text
  unfolding to_int64
  status_text s =
      codes "STATUS REPORT start: "
      ++ time_text s.start_time
      ++ codes ", end: "
      ++ time_text s.finish_time
      ++ codes ", send spans: "
      ++ integer_text s.sent_spans
      ++ codes ", dropped spans: "
      ++ integer_text s.dropped_spans
      ++ codes ", encoding errors: "
      ++ integer_text s.encoding_errors

  -- `eventSystemMetricsStatusReport.String`
  unfoldable pub metrics_status_text : Time → Time → ℕ → Text
  unfolding to_int64
  metrics_status_text start finish sent =
      codes "METRICS STATUS REPORT start: "
      ++ time_text start
      ++ codes ", end: "
      ++ time_text finish
      ++ codes ", sent metrics: "
      ++ integer_text sent

  -- `String`
  unfoldable pub event_text : Event → Text
  unfolding status_text metrics_status_text missing_service_text
  event_text (start_error err) = start_error_text err
  event_text (flush_error e) = flush_error_text e
  event_text (connection_error err) = connection_error_text err
  event_text (status_report s) = status_text s
  event_text (unsupported_tracer err) = unsupported_tracer_error err
  event_text (unsupported_value key value err) = unsupported_value_error key value err
  event_text tracer_disabled = tracer_disabled_text
  event_text (system_metrics_measurement_failed err) = measurement_failed_text err
  event_text (system_metrics_status_report start finish sent) =
      metrics_status_text start finish sent
  event_text (missing_service service) = missing_service_text service
