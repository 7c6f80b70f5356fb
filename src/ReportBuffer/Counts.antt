-- ===== src/ReportBuffer/Counts.antt =====
-- The counters of report_buffer.go: the invariant, and what the two report functions hand out.
use lightstep_tracer_go.Base.{
  ℕ, ◌+◌, ◌-◌, ◌<◌, ◌≡◌, arith, length, length-append, length-take, take, int_max, [], ◌∷◌,
}
use lightstep_tracer_go.RawSpan.{RawSpan}
use lightstep_tracer_go.ReportBuffer.{
  ReportBuffer, IsValid, new_spans_buffer, add_span, merge_space, merge_from, clear,
  report_dropped_span_count, report_log_encoder_error_count,
}

pub new_spans_buffer-IsValid : (size : ℕ) → IsValid (new_spans_buffer size)
unfolding new_spans_buffer
new_spans_buffer-IsValid size = omega arith

pub clear-IsValid : (b : ReportBuffer) → IsValid (clear b)
unfolding clear
clear-IsValid b = omega arith

pub add_span-IsValid :
    (b : ReportBuffer) (span : RawSpan)
    → b.dropped_span_count + 1 < int_max
    → IsValid b
    → IsValid (add_span b span)
unfolding add_span
add_span-IsValid b span h v = ground (arith, length-append b.raw_spans (span ∷ []))

-- `mergeFrom` keeps both buffers valid while the totals fit in an `int64`.
pub merge_from-IsValid :
    (b from : ReportBuffer)
    → IsValid b
    → IsValid from
    → b.dropped_span_count + from.dropped_span_count + length from.raw_spans < int_max
    → b.log_encoder_error_count + from.log_encoder_error_count < int_max
    → IsValid (merge_from b from).0 × IsValid (merge_from b from).1
unfolding merge_from clear
merge_from-IsValid b from v w h k = ground (
  arith,
  length-append b.raw_spans (take (merge_space b from) from.raw_spans),
  length-take (merge_space b from) from.raw_spans,
)

-- The drops that no status report has named yet.
abbrev pub unreported_drops : ReportBuffer → ℕ
unreported_drops b = b.dropped_span_count - b.reported_dropped_span_count

-- The encoding errors that no status report has named yet.
abbrev pub unreported_errors : ReportBuffer → ℕ
unreported_errors b = b.log_encoder_error_count - b.reported_log_encoder_error_count

-- A report of either counter hands out exactly what was not reported before, leaves nothing to
-- report, changes neither the total nor the other counter, and keeps the buffer valid: no drop and
-- no error is reported twice. This is for a valid buffer.
pub report_counts_lem :
    (b : ReportBuffer)
    → IsValid b
    → let (drops, b') = report_dropped_span_count b in
      let (errors, b'') = report_log_encoder_error_count b' in
      (drops ≡ unreported_drops b)
      × (errors ≡ unreported_errors b)
      × (unreported_drops b'' ≡ 0)
      × (unreported_errors b'' ≡ 0)
      × (b''.dropped_span_count ≡ b.dropped_span_count)
      × (b''.log_encoder_error_count ≡ b.log_encoder_error_count)
      × IsValid b''
unfolding report_dropped_span_count report_log_encoder_error_count
report_counts_lem b v = ground arith

-- What both buffers have to report survives a merge, with the spans that the merge drops.
pub merge_from-unreported :
    (b from : ReportBuffer)
    → IsValid b
    → IsValid from
    → b.dropped_span_count + from.dropped_span_count + length from.raw_spans < int_max
    → b.log_encoder_error_count + from.log_encoder_error_count < int_max
    → let b' = (merge_from b from).0 in
      (unreported_drops b'
        ≡ unreported_drops b + unreported_drops from + (length from.raw_spans - merge_space b from))
      × (unreported_errors b' ≡ unreported_errors b + unreported_errors from)
unfolding merge_from
merge_from-unreported b from v w h k = ground arith
