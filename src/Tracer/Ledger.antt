-- ===== src/Tracer/Ledger.antt =====
-- tracer.go: what becomes of the spans that the tracer takes, over any sequence of its locked sections.
use lightstep_tracer_go.Tracer.Flush.{first_report}
use lightstep_tracer_go.Time.{Time}
use lightstep_tracer_go.RawSpan.{RawSpan}
use lightstep_tracer_go.Tracer.{Tracer, record_span, Time, disable, pre_flush, post_flush}
use lightstep_tracer_go.ReportBuffer.{ReportBuffer}
use lightstep_tracer_go.Events.{
  StatusReport, FlushError, translate, tracer_closed, tracer_is_disabled, transport, report,
}
use lightstep_tracer_go.Base.{
  ℕ, List, ◌+◌, Option, length, add64, ◌∷◌, ◌-◌, some, [], if◌then◌else◌, ◌||◌, none, text_eq,
  codes, Bool,
}

-- The steps that change the tracer, in the order in which goroutines get its locks: a finished span,
-- `Disable`, the start of a flush, its meta event, an error that the conversion counts, the mode in an answer
-- of the collector, the end of a flush.
pub data Action : Type 0 where
  recording : RawSpan → Action
  disabling : Action
  starting : Time → Action
  announcing : Action
  encoding : Action
  switching : Bool → Action
  ending : Time → Time → Option FlushError → Action

-- An error that `EmitObject` counts in the buffer that is flushed.
unfoldable pub count_error : Tracer → Tracer
count_error t = record t {
  flushing = record (t.flushing) {
    log_encoder_error_count = add64 t.flushing.log_encoder_error_count 1;
  };
}

-- Spans that got to `addSpan`; those that status reports call sent, and dropped; and those that a failed
-- translation or `Disable` threw away, with the drops that were not reported by then.
pub record Ledger : Type 0 where
  pub taken : ℕ
  pub sent_spans : ℕ
  pub dropped_spans : ℕ
  pub thrown_away : ℕ

abbrev pub empty_ledger : Ledger
empty_ledger = record { taken = 0; sent_spans = 0; dropped_spans = 0; thrown_away = 0 }

-- The spans and the unreported drops of a buffer.
unfoldable pub load : ReportBuffer → ℕ
load b = length b.raw_spans + (b.dropped_span_count - b.reported_dropped_span_count)

unfoldable pub enter_status : Ledger → StatusReport → Ledger
enter_status l s = record l {
  sent_spans = l.sent_spans + s.sent_spans;
  dropped_spans = l.dropped_spans + s.dropped_spans;
}

-- The flushing buffer is thrown away when the request could not be translated.
unfoldable pub thrown_by : Tracer → Option FlushError → ℕ
thrown_by t none = 0
thrown_by t (some e) = elim (e.state) [
  | translate ↦ load t.flushing
  | tracer_closed ↦ 0
  | tracer_is_disabled ↦ 0
  | transport ↦ 0
  | report ↦ 0
]

unfoldable pub act : Action → Tracer × Ledger → Tracer × Ledger
unfolding record_span disable pre_flush post_flush first_report count_error enter_status thrown_by
act (recording raw) (t, l) = (
  (record_span t raw).0,
  if t.disabled || text_eq raw.context.sampled (codes "false")
      then l
      else record l { taken = l.taken + 1 },
)
act disabling (t, l) = (
  (disable t).0,
  if t.disabled then l else record l { thrown_away = l.thrown_away + load t.buffer },
)
act (starting now) (t, l) = ((pre_flush t now).1, l)
act announcing (t, l) = ((first_report t).0, l)
act encoding (t, l) = (count_error t, l)
act (switching mode) (t, l) = (record t { meta_event_reporting_enabled = mode }, l)
act (ending start end failed) (t, l) =
    let (status, t') = post_flush t start end failed in
    (t', enter_status (record l { thrown_away = l.thrown_away + thrown_by t failed }) status)

unfoldable pub run_actions : List Action → Tracer × Ledger → Tracer × Ledger
unfolding act
run_actions [] s = s
run_actions (a ∷ actions) s = run_actions actions (act a s)
