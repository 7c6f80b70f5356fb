-- ===== src/ReportBuffer.antt =====
-- report_buffer.go: the bounded buffer of finished spans and its counters.
-- The slice `rawSpans` is its elements and its capacity; the counters are `int64` patterns.
pub mod Merge
pub mod Counts
use lightstep_tracer_go.Base.{
  ℕ, ◌+◌, ◌-◌, ◌/◌, ◌≤◌, ◌<◌, Bool, List, [], ◌∷◌, ◌++◌, length, take, ltb, ◌==◌, if◌then◌else◌,
  add64, sub64, int_max,
}
use lightstep_tracer_go.Time.{Time, zero_time, before, after}
use lightstep_tracer_go.RawSpan.{RawSpan}

pub record ReportBuffer : Type 0 where
  pub raw_spans : List RawSpan
  pub capacity : ℕ
  pub dropped_span_count : ℕ
  pub reported_dropped_span_count : ℕ
  pub log_encoder_error_count : ℕ
  pub reported_log_encoder_error_count : ℕ
  pub report_start : Time
  pub report_end : Time

unfoldable pub new_spans_buffer : ℕ → ReportBuffer
new_spans_buffer size = record {
  raw_spans = [];
  capacity = size;
  dropped_span_count = 0;
  reported_dropped_span_count = 0;
  log_encoder_error_count = 0;
  reported_log_encoder_error_count = 0;
  report_start = zero_time;
  report_end = zero_time;
}

unfoldable pub is_half_full : ReportBuffer → Bool
is_half_full b = ltb (b.capacity / 2) (length b.raw_spans)

unfoldable pub set_current : ReportBuffer → Time → ReportBuffer
set_current b now = record b { report_start = now; report_end = now }

unfoldable pub set_flushing : ReportBuffer → Time → ReportBuffer
set_flushing b now = record b { report_end = now }

unfoldable pub clear : ReportBuffer → ReportBuffer
clear b = record b {
  raw_spans = [];
  report_start = zero_time;
  report_end = zero_time;
  dropped_span_count = 0;
  reported_dropped_span_count = 0;
  log_encoder_error_count = 0;
  reported_log_encoder_error_count = 0;
}

unfoldable pub add_span : ReportBuffer → RawSpan → ReportBuffer
add_span b span =
    if length b.raw_spans == b.capacity
    then record b { dropped_span_count = add64 b.dropped_span_count 1 }
    else record b { raw_spans = b.raw_spans ++ (span ∷ []) }

-- `space` of `mergeFrom`: how many of the spans of `from` fit.
abbrev pub merge_space : ReportBuffer → ReportBuffer → ℕ
merge_space b from =
    let space = b.capacity - length b.raw_spans in
    let unreported = length from.raw_spans in if ltb unreported space then unreported else space

-- The receiver and `from` after the call.
unfoldable pub merge_from : ReportBuffer → ReportBuffer → ReportBuffer × ReportBuffer
unfolding clear
merge_from b from =
    let space = merge_space b from in
    let unreported = length from.raw_spans in
    let dropped = add64 b.dropped_span_count from.dropped_span_count in
    (
      record b {
        dropped_span_count =
            if ltb space unreported then add64 dropped (unreported - space) else dropped;
        reported_dropped_span_count =
            add64 b.reported_dropped_span_count from.reported_dropped_span_count;
        log_encoder_error_count = add64 b.log_encoder_error_count from.log_encoder_error_count;
        reported_log_encoder_error_count =
            add64 b.reported_log_encoder_error_count from.reported_log_encoder_error_count;
        report_start =
            if before from.report_start b.report_start then from.report_start else b.report_start;
        report_end = if after from.report_end b.report_end then from.report_end else b.report_end;
        raw_spans = b.raw_spans ++ take space from.raw_spans;
      },
      clear from,
    )

unfoldable pub report_dropped_span_count : ReportBuffer → ℕ × ReportBuffer
report_dropped_span_count b = (
  sub64 b.dropped_span_count b.reported_dropped_span_count,
  record b { reported_dropped_span_count = b.dropped_span_count },
)

unfoldable pub report_log_encoder_error_count : ReportBuffer → ℕ × ReportBuffer
report_log_encoder_error_count b = (
  sub64 b.log_encoder_error_count b.reported_log_encoder_error_count,
  record b { reported_log_encoder_error_count = b.log_encoder_error_count },
)

-- A slice is no longer than its capacity. The reported counts are at most the totals, which the
-- comments of the struct promise, and no total has wrapped.
pub record IsValid (b : ReportBuffer) : Type 0 where
  pub bounded : length b.raw_spans ≤ b.capacity
  pub dropped_reported : b.reported_dropped_span_count ≤ b.dropped_span_count
  pub errors_reported : b.reported_log_encoder_error_count ≤ b.log_encoder_error_count
  pub dropped_fits : b.dropped_span_count < int_max
  pub errors_fit : b.log_encoder_error_count < int_max
