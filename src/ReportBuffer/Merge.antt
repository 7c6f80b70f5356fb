-- ===== src/ReportBuffer/Merge.antt =====
-- What `addSpan` and `mergeFrom` keep and what they count, against the capacity.
use lightstep_tracer_go.Base.{
  ◌+◌, ◌-◌, ◌%◌, ◌≤◌, ◌≡◌, refl, arith, [], ◌∷◌, ◌++◌, length, take, take-append, take_of_length-le,
  length-append, length-take, take-append_exact, min, max, word_mod,
}
use lightstep_tracer_go.RawSpan.{RawSpan}
use lightstep_tracer_go.ReportBuffer.{ReportBuffer, add_span, merge_space, merge_from, clear}

-- `addSpan` keeps the spans in order of arrival up to the capacity: either the span is appended, or
-- the buffer is full, nothing is stored and the drop is counted.
pub add_span_lem :
    (b : ReportBuffer) (span : RawSpan)
    → length b.raw_spans ≤ b.capacity
    → let b' = add_span b span in
      (b'.raw_spans ≡ take b.capacity (b.raw_spans ++ (span ∷ [])))
      × ((length b'.raw_spans + b'.dropped_span_count) % word_mod
          ≡ (length b.raw_spans + b.dropped_span_count + 1) % word_mod)
      × (length b'.raw_spans ≤ b'.capacity)
unfolding add_span
add_span_lem b span h = ground (
  arith,
  length-append b.raw_spans (span ∷ []),
  take-append_exact b.capacity b.raw_spans (span ∷ []),
  take_of_length-le b.capacity (b.raw_spans ++ (span ∷ [])),
)

merge_space-min :
    (b from : ReportBuffer)
    → merge_space b from ≡ min (b.capacity - length b.raw_spans) (length from.raw_spans)
merge_space-min b from = ground arith

take-merge_space :
    (b from : ReportBuffer)
    → take (merge_space b from) from.raw_spans
      ≡ take (b.capacity - length b.raw_spans) from.raw_spans
take-merge_space b from = ground (
  arith,
  take_of_length-le (merge_space b from) from.raw_spans,
  take_of_length-le (b.capacity - length b.raw_spans) from.raw_spans,
)

-- `mergeFrom` keeps the spans of the receiver and then those of `from`, in order, up to the
-- capacity of the receiver, which stays, and empties `from`; every span that does not fit is added
-- to the dropped ones, so that spans and drops together stay the same (in `int64` arithmetic). This
-- is for a receiver that is within its capacity.
pub merge_from_lem :
    (b from : ReportBuffer)
    → length b.raw_spans ≤ b.capacity
    → let (b', from') = merge_from b from in
      (b'.raw_spans ≡ take b.capacity (b.raw_spans ++ from.raw_spans))
      × (b'.capacity ≡ b.capacity)
      × (from' ≡ clear from)
      × ((length b'.raw_spans + b'.dropped_span_count) % word_mod
          ≡ (length b.raw_spans
              + length from.raw_spans
              + b.dropped_span_count
              + from.dropped_span_count)
            % word_mod)
unfolding merge_from
merge_from_lem b from h = (
  ground (arith, take-merge_space b from, take-append b.capacity b.raw_spans from.raw_spans),
  refl,
  refl,
  ground (
    arith,
    length-append b.raw_spans (take (merge_space b from) from.raw_spans),
    length-take (merge_space b from) from.raw_spans,
  ),
)

-- `mergeFrom` widens the reported time range to cover both buffers.
pub merge_from_range :
    (b from : ReportBuffer)
    → let b' = (merge_from b from).0 in
      (b'.report_start ≡ min b.report_start from.report_start)
      × (b'.report_end ≡ max b.report_end from.report_end)
unfolding merge_from
merge_from_range b from = ground arith
