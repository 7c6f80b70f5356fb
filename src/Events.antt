-- ===== src/Events.antt =====
-- events.go: the events of the tracer.
-- An `error` is its text.
pub mod Handlers
pub mod Texts
pub mod Global
use lightstep_tracer_go.Base.{ℕ, Bool, true, false, Option, none, some, Text, codes}
use lightstep_tracer_go.Time.{Time, Duration, sub}
use lightstep_tracer_go.RawSpan.{Value}

pub data FlushErrorState : Type 0 where
  tracer_closed tracer_is_disabled transport report translate : FlushErrorState

-- The string behind each state.
unfoldable pub state_text : FlushErrorState → Text
state_text tracer_closed = codes "flush failed, the tracer is closed."
state_text tracer_is_disabled = codes "flush failed, the tracer is disabled."
state_text transport = codes "flush failed, could not send report to Collector"
state_text report = codes "flush failed, report contained errors"
state_text translate = codes "flush failed, could not translate report"

pub record FlushError : Type 0 where
  pub err : Text
  pub state : FlushErrorState

pub record StatusReport : Type 0 where
  pub start_time : Time
  pub finish_time : Time
  pub sent_spans : ℕ
  pub dropped_spans : ℕ
  pub encoding_errors : ℕ
  pub flush_duration : Duration

-- `eventStatusReport.Duration`
unfoldable pub report_duration : StatusReport → Duration
report_duration s = sub s.finish_time s.start_time

pub data Event : Type 0 where
  start_error : Text → Event
  flush_error : FlushError → Event
  connection_error : Text → Event
  status_report : StatusReport → Event
  unsupported_tracer : Text → Event
  unsupported_value : Text → Value → Text → Event
  tracer_disabled : Event
  system_metrics_measurement_failed : Text → Event
  system_metrics_status_report : Time → Time → ℕ → Event
  missing_service : Text → Event

-- `Err` of the events that are an `ErrorEvent`, and `none` for the others.
unfoldable pub event_err : Event → Option Text
event_err (start_error err) = some err
event_err (flush_error e) = some e.err
event_err (connection_error err) = some err
event_err (status_report s) = none
event_err (unsupported_tracer err) = some err
event_err (unsupported_value key value err) = some err
event_err tracer_disabled = none
event_err (system_metrics_measurement_failed err) = some err
event_err (system_metrics_status_report start end sent) = none
event_err (missing_service service) = none

-- `State`
unfoldable pub event_state : Event → Option FlushErrorState
event_state (flush_error e) = some e.state
event_state e = none

-- `newEventUnsupportedValue` makes an error of its own, with `fmt.Errorf`, where it is given none.
module _ (unsupported_text : Text → Value → Text) where
  unfoldable pub new_event_unsupported_value : Text → Value → Option Text → Event
  new_event_unsupported_value key value none =
      unsupported_value key value (unsupported_text key value)
  new_event_unsupported_value key value (some err) = unsupported_value key value err
