-- ===== src/Tracer.antt =====
-- tracer.go: the tracer, its two buffers, the flush and the report loop. The locks are not part of the
-- state: each function below is what one locked section does, or the sequence of them that the code runs.
-- What the code hands to other packages on the way is the list of outputs, oldest first.
pub mod Flush
pub mod Loop
pub mod Parts
pub mod Ledger
pub mod Sections
pub mod Sending
pub mod Once
pub mod Disabled
pub mod Shutdown
pub mod SystemMetrics
pub mod Propagate
pub mod Create
pub mod Helpers
pub mod Observed
pub mod Balance
use lightstep_tracer_go.Base.Int.{ltb_ℤ, pos_part}
use lightstep_tracer_go.LogEncoder.{new_proto_converter, ProtoConverter}
use lightstep_tracer_go.RawSpan.{RawSpan}
use lightstep_tracer_go.Time.{Time, Duration, zero_time, sub, add}
use lightstep_tracer_go.Events.{
  Event, FlushErrorState, FlushError, StatusReport, tracer_disabled, tracer_is_disabled, translate,
  tracer_closed, state_text, connection_error,
}
use lightstep_tracer_go.Options.{Options}
use lightstep_tracer_go.ReportBuffer.{
  report_dropped_span_count, add_span, new_spans_buffer, clear, set_flushing, merge_from,
  set_current, report_log_encoder_error_count, ReportBuffer, is_half_full,
}
use lightstep_tracer_go.Proto
use lightstep_tracer_go.Base.{
  ℕ, Text, List, Option, codes, if◌then◌else◌, Bool, length, ◌||◌, true, [], some, false, text_eq,
  ◌∷◌, not, none,
}

-- What the tracer does to the outside: `emitEvent`, a span that it starts on the global tracer and
-- finishes at once, a call of the user's recorder, a report that its client sends (the message behind the
-- pointer and the HTTP body), and the close of the connection.
pub data Output : Type 0 where
  emit : Event → Output
  meta_span : Text → Output
  record_to : RawSpan → Output
  send : Option Proto.ReportRequest → Option Text → Output
  close_connection : Output

-- The report loop runs, or it has returned because the tracer is disabled, or it has returned and closed
-- `reportLoopClosedChannel`.
pub data ReportLoop : Type 0 where
  running left closed : ReportLoop

-- `connection` says whether it is not nil; `close_called` is the `sync.Once` of `Close`.
pub record Tracer : Type 0 where
  pub opts : Options
  pub reporter_id : ℕ
  pub attributes : List (Text × Text)
  pub converter : ProtoConverter
  pub connection : Bool
  pub buffer : ReportBuffer
  pub flushing : ReportBuffer
  pub report_in_flight : Bool
  pub last_report_attempt : Time
  pub meta_event_reporting_enabled : Bool
  pub first_report_has_run : Bool
  pub disabled : Bool
  pub report_loop : ReportLoop
  pub close_called : Bool

-- `CreateTracer` after `Initialize`, once the client is connected. `lastReportAttempt` is the zero time.
unfoldable pub create_tracer : Options → ℕ → List (Text × Text) → Time → Tracer
unfolding new_spans_buffer set_current new_proto_converter
create_tracer opts tracer_id attributes now = record {
  opts = opts;
  reporter_id = tracer_id;
  attributes = attributes;
  converter = new_proto_converter opts;
  connection = true;
  buffer = set_current (new_spans_buffer (pos_part opts.max_buffered_spans)) now;
  flushing = new_spans_buffer (pos_part opts.max_buffered_spans);
  report_in_flight = false;
  last_report_attempt = zero_time;
  meta_event_reporting_enabled = opts.meta_event_reporting_enabled;
  first_report_has_run = false;
  disabled = false;
  report_loop = running;
  close_called = false;
}

-- `RecordSpan`
unfoldable pub record_span : Tracer → RawSpan → Tracer × List Output
unfolding add_span
record_span t raw = if t.disabled || text_eq raw.context.sampled (codes "false") then (t, []) else (
  record t { buffer = add_span t.buffer raw },
  if t.opts.recorder then record_to raw ∷ [] else [],
)

unfoldable pub disable : Tracer → Tracer × List Output
unfolding clear
disable t =
    if t.disabled
    then (t, [])
    else (record t { disabled = true; buffer = clear t.buffer }, emit tracer_disabled ∷ [])

-- `errFlushFailedTracerClosed`
abbrev pub closed_text : Text
closed_text = state_text tracer_closed

-- `preFlush`
unfoldable pub pre_flush : Tracer → Time → Option FlushError × Tracer
unfolding set_flushing set_current
pre_flush t now =
    if t.disabled
    then (some (record { err = closed_text; state = tracer_is_disabled }), t)
    else if not t.connection
    then (some (record { err = closed_text; state = tracer_closed }), t)
    else (
      none,
      record t {
        buffer = set_current t.flushing now;
        flushing = set_flushing t.buffer now;
        report_in_flight = true;
        last_report_attempt = now;
      },
    )

abbrev pub status_event : Time → Time → ℕ → ℕ → ℕ → Duration → StatusReport
status_event start finish sent dropped errors duration = record {
  start_time = start;
  finish_time = finish;
  sent_spans = sent;
  dropped_spans = dropped;
  encoding_errors = errors;
  flush_duration = duration;
}

-- The branch of `postFlush` without an error.
unfoldable pub post_flush_sent : Tracer → Duration → StatusReport × Tracer
unfolding report_dropped_span_count report_log_encoder_error_count clear
post_flush_sent t duration =
    let (dropped, flushing') = report_dropped_span_count t.flushing in
    let (errors, flushing'') = report_log_encoder_error_count flushing' in
    (
      status_event t.flushing.report_start t.flushing.report_end (length t.flushing.raw_spans)
          dropped errors duration,
      record t { flushing = clear flushing'' },
    )

-- The `switch` of `postFlush`.
unfoldable pub restore : Tracer → FlushErrorState → Tracer
unfolding clear merge_from
restore t translate = record t { flushing = clear t.flushing }
restore t state =
    let (buffer', flushing') = merge_from t.buffer t.flushing in
    record t { buffer = buffer'; flushing = flushing' }

-- The branch of `postFlush` with an error.
unfoldable pub post_flush_failed : Tracer → FlushErrorState → Duration → StatusReport × Tracer
unfolding restore report_dropped_span_count report_log_encoder_error_count
post_flush_failed t state duration =
    let t' = restore t state in
    let (dropped, buffer') = report_dropped_span_count t'.buffer in
    let (errors, buffer'') = report_log_encoder_error_count buffer' in
    (
      status_event t.flushing.report_start t.flushing.report_end 0 dropped errors duration,
      record t' { buffer = buffer'' },
    )

-- `postFlush`
unfoldable pub post_flush : Tracer → Time → Time → Option FlushError → StatusReport × Tracer
unfolding post_flush_sent post_flush_failed
post_flush t flush_start flush_end none =
    post_flush_sent (record t { report_in_flight = false }) (sub flush_end flush_start)
post_flush t flush_start flush_end (some e) =
    post_flush_failed (record t { report_in_flight = false }) e.state (sub flush_end flush_start)

-- `shouldFlushLocked`
unfoldable pub should_flush_locked : Tracer → Time → Bool
unfolding is_half_full
should_flush_locked t now =
    if ltb_ℤ t.opts.reporting_period
      (sub (add now t.opts.min_reporting_period) t.last_report_attempt)
    then true
    else is_half_full t.buffer

-- `reconnectClient` with what `ConnectClient` returned: an error or a new connection, for which the
-- old one is closed.
unfoldable pub reconnect_client : Tracer → Option Text → Tracer × List Output
reconnect_client t (some err) = (t, emit (connection_error err) ∷ [])
reconnect_client t none = (record t { connection = true }, close_connection ∷ [])
