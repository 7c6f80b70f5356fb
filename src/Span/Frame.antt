-- ===== src/Span/Frame.antt =====
-- span.go: what the logs and the finish of a span leave alone.
use lightstep_tracer_go.Time.{Time, sub, is_zero}
use lightstep_tracer_go.Options.{Options}
use lightstep_tracer_go.RawSpan.{LogRecord}
use lightstep_tracer_go.Span.{
  append_logs, finish_with_options, LogData, append_log, LogRecord, Options, Span, FinishOptions,
  Time, sub, is_zero,
}
use lightstep_tracer_go.Base.{
  List, ◌≡◌, false, ◌∷◌, some, arith, true, [], refl, if◌then◌else◌, map,
}

pub append_logs_frame :
    (opts : Options) (s : Span) (records : List LogRecord)
    → let s' = append_logs opts s records in
      (s'.finished ≡ s.finished)
      × (s'.raw.context ≡ s.raw.context)
      × (s'.raw.start ≡ s.raw.start)
      × (s'.raw.tags ≡ s.raw.tags)
      × (s'.raw.operation ≡ s.raw.operation)
      × (s'.raw.parent_span_id ≡ s.raw.parent_span_id)
unfolding append_logs append_log
append_logs_frame opts s [] = (refl, refl, refl, refl, refl, refl)
append_logs_frame opts s (lr ∷ records) =
    ground (arith, append_logs_frame opts (append_log opts s lr) records)

-- A finish sets the duration and the logs, and nothing else of the raw span.
pub finish_frame :
    (to_log_record : LogData → LogRecord) (opts : Options) (s : Span) (fin : FinishOptions)
    (now : Time) {s' : Span}
    → s.finished ≡ false
    → finish_with_options to_log_record opts s fin now ≡ some (s', true)
    → (s'.raw.context ≡ s.raw.context)
      × (s'.raw.start ≡ s.raw.start)
      × (s'.raw.tags ≡ s.raw.tags)
      × (s'.raw.operation ≡ s.raw.operation)
      × (s'.raw.parent_span_id ≡ s.raw.parent_span_id)
      × (s'.raw.duration
          ≡ sub (if is_zero fin.finish_time then now else fin.finish_time) s.raw.start)
unfolding finish_with_options
finish_frame to_log_record opts s fin now live e = ground (
  arith,
  append_logs_frame opts (record s { finished = true }) fin.log_records,
  append_logs_frame opts (append_logs opts (record s { finished = true }) fin.log_records)
      (map to_log_record fin.bulk_log_data),
)
