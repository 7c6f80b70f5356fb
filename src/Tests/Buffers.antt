-- ===== src/Tests/Buffers.antt =====
-- Runs of the theorems on the report buffer.
use lightstep_tracer_go.ReportBuffer.Merge.{merge_from_lem}
use lightstep_tracer_go.ReportBuffer.Counts.{
  unreported_drops, merge_from-IsValid, unreported_errors, merge_from-unreported, report_counts_lem,
}
use lightstep_tracer_go.ReportBuffer.{
  ReportBuffer, is_half_full, report_dropped_span_count, add_span, IsValid, merge_from,
  report_log_encoder_error_count, clear,
}
use lightstep_tracer_go.Base.{◌≡◌, arith, refl, ◌∷◌, take, true, ◌+◌, [], length, ◌%◌, word_mod}
use lightstep_tracer_go.Tests.{test_buffer, test_span, ReportBuffer}

full_buffer : ReportBuffer
full_buffer = record test_buffer { raw_spans = test_span ∷ test_span ∷ [] }

test_buffer-IsValid : IsValid test_buffer
test_buffer-IsValid = omega arith

abbrev merged : ReportBuffer × ReportBuffer
merged = merge_from test_buffer test_buffer

merge_from_lem_example :
    (merged.0.raw_spans ≡ take 2 (test_span ∷ test_span ∷ []))
    × (merged.0.capacity ≡ 2)
    × (merged.1 ≡ clear test_buffer)
    × ((length merged.0.raw_spans + merged.0.dropped_span_count) % word_mod
        ≡ (1 + 1 + 3 + 3) % word_mod)
merge_from_lem_example = merge_from_lem test_buffer test_buffer (omega arith)

merge_from-IsValid_example : IsValid merged.0 × IsValid merged.1
merge_from-IsValid_example =
    merge_from-IsValid test_buffer test_buffer test_buffer-IsValid test_buffer-IsValid (omega arith)
      (omega arith)

merge_from-unreported_example :
    (unreported_drops merged.0 ≡ 2 + 2 + 0) × (unreported_errors merged.0 ≡ 0 + 0)
merge_from-unreported_example =
    merge_from-unreported test_buffer test_buffer test_buffer-IsValid test_buffer-IsValid
      (omega arith) (omega arith)

abbrev reported : ReportBuffer
reported = (report_log_encoder_error_count (report_dropped_span_count test_buffer).1).1

report_counts_lem_example :
    ((report_dropped_span_count test_buffer).0 ≡ 2)
    × ((report_log_encoder_error_count (report_dropped_span_count test_buffer).1).0 ≡ 0)
    × (unreported_drops reported ≡ 0)
    × (unreported_errors reported ≡ 0)
    × (reported.dropped_span_count ≡ 3)
    × (reported.log_encoder_error_count ≡ 2)
    × IsValid reported
report_counts_lem_example = report_counts_lem test_buffer test_buffer-IsValid

-- A full buffer drops the next span.
add_span_full : (add_span full_buffer test_span).dropped_span_count ≡ 4
unfolding add_span full_buffer
add_span_full = refl

half_full : is_half_full (add_span test_buffer test_span) ≡ true
unfolding is_half_full add_span
half_full = refl
