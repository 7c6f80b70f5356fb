-- ===== src/Tracer/Observed/Steps.antt =====
-- tracer.go: what the events of the steps of a flush tell of the spans.
use lightstep_tracer_go.ReportBuffer.{clear}
use lightstep_tracer_go.Time.{Time}
use lightstep_tracer_go.Events.{
  FlushError, status_report, flush_error, tracer_disabled, translate, tracer_closed,
  tracer_is_disabled, transport, report, FlushErrorState,
}
use lightstep_tracer_go.Tracer.Observed.{
  event_sent, event_dropped, event_loss, emitted, Tells, quiet-Tells,
}
use lightstep_tracer_go.Converter.Unsupported.{total}
use lightstep_tracer_go.Tracer.{
  Tracer, Output, emit, disable, pre_flush, post_flush, Time, post_flush_sent, post_flush_failed,
  restore, clear,
}
use lightstep_tracer_go.Tracer.Flush.{error_output, first_report}
use lightstep_tracer_go.Tracer.Balance.{act-Balanced, pre_flush-Balanced, post_flush-Balanced}
use lightstep_tracer_go.Tracer.Ledger.{act, load, enter_status, thrown_by, ending}
use lightstep_tracer_go.Base.{
  ◌≡◌, List, ◌+◌, ◌∷◌, ◌++◌, [], arith, refl, Option, some, none, Bool, if◌then◌else◌, true, false,
  Text, ap,
}

pub stay-Tells : (t : Tracer) → Tells t (t, [])
unfolding total emitted
stay-Tells t = quiet-Tells t t [] (λ l b. b) refl refl refl

pub pick-Tells :
    (b : Bool) (t : Tracer) (r r' : Tracer × List Output)
    → Tells t r
    → Tells t r'
    → Tells t (if b then r else r')
pick-Tells true t r r' h h' = h
pick-Tells false t r r' h h' = h'

turned_off-Tells :
    (t : Tracer)
    → Tells t (record t { disabled = true; buffer = clear t.buffer }, emit tracer_disabled ∷ [])
unfolding total emitted event_sent event_dropped event_loss clear load
turned_off-Tells t l b few = (
  record l { thrown_away = l.thrown_away + load t.buffer },
  record {
    balanced = ground arith;
    taken = refl;
    sent_spans = omega arith;
    dropped_spans = omega arith;
    thrown_away = λ none_lost. absurd (omega arith);
    disabled = λ none_lost. absurd (omega arith);
  },
)

pub disable-Tells : (t : Tracer) → Tells t (disable t)
unfolding disable
disable-Tells t =
    pick-Tells t.disabled t (t, [])
      (record t { disabled = true; buffer = clear t.buffer }, emit tracer_disabled ∷ [])
      (stay-Tells t) (turned_off-Tells t)

pub pre_flush-Tells : (t : Tracer) (now : Time) → Tells t ((pre_flush t now).1, [])
unfolding pre_flush act total emitted
pre_flush-Tells t now =
    quiet-Tells t (pre_flush t now).1 [] (λ l b. pre_flush-Balanced t l now b) (ground arith) refl
      refl

pub first_report-Tells : (t : Tracer) → Tells t (first_report t)
unfolding first_report total emitted
first_report-Tells t =
    quiet-Tells t (first_report t).0 (first_report t).1 (λ l b. ground arith) (ground arith)
      (ground arith) (ground arith)

disabled-restore : (t : Tracer) (state : FlushErrorState) → (restore t state).disabled ≡ t.disabled
unfolding restore
disabled-restore t translate = refl
disabled-restore t tracer_closed = refl
disabled-restore t tracer_is_disabled = refl
disabled-restore t transport = refl
disabled-restore t report = refl

thrown_by-loss :
    (t : Tracer) (err : Text) (state : FlushErrorState)
    → event_loss (flush_error (record { err = err; state = state })) ≡ 0
    → thrown_by t (some (record { err = err; state = state })) ≡ 0
unfolding event_loss thrown_by
thrown_by-loss t err translate h = absurd (omega arith)
thrown_by-loss t err tracer_closed h = refl
thrown_by-loss t err tracer_is_disabled h = refl
thrown_by-loss t err transport h = refl
thrown_by-loss t err report h = refl

-- The end of a flush.
unfoldable pub landed : Tracer → Time → Time → Option FlushError → Tracer × List Output
landed t start end failed =
    let (status, t') = post_flush t start end failed in
    (t', error_output failed ++ (emit (status_report status) ∷ []))

pub landed-Tells :
    (t : Tracer) (start end : Time) (failed : Option FlushError)
    → Tells t (landed t start end failed)
unfolding landed act total emitted event_sent event_dropped event_loss enter_status thrown_by
    post_flush post_flush_sent post_flush_failed restore
landed-Tells t start end none l b few = (
  (act (ending start end none) (t, l)).1,
  record {
    balanced = act-Balanced (ending start end none) t l b few;
    taken = refl;
    sent_spans = omega arith;
    dropped_spans = omega arith;
    thrown_away = λ none_lost. omega arith;
    disabled = λ none_lost. refl;
  },
)
landed-Tells t start end (some e) l b few = (
  (act (ending start end (some e)) (t, l)).1,
  record {
    balanced = post_flush-Balanced t l start end (some e) b few;
    taken = refl;
    sent_spans = omega arith;
    dropped_spans = omega arith;
    thrown_away = λ none_lost. omega (arith, thrown_by-loss t e.err e.state (omega arith));
    disabled = λ none_lost. disabled-restore (record t { report_in_flight = false }) e.state;
  },
)

-- Outputs with the same events tell the same.
pub same_events-Tells :
    (t t' : Tracer) (out out' : List Output)
    → emitted out' ≡ emitted out
    → Tells t (t', out)
    → Tells t (t', out')
same_events-Tells t t' out out' e h l b few =
    let (l', told) = h l b few in
    let sent_of = ap (total event_sent) e in
    let dropped_of = ap (total event_dropped) e in
    let loss_of = ap (total event_loss) e in
    (
      l',
      record {
        balanced = told.balanced;
        taken = told.taken;
        sent_spans = omega arith;
        dropped_spans = omega arith;
        thrown_away = λ none_lost. told.thrown_away (omega arith);
        disabled = λ none_lost. told.disabled (omega arith);
      },
    )

pub mode-Tells :
    (t : Tracer) (mode : Bool) → Tells t (record t { meta_event_reporting_enabled = mode }, [])
unfolding total emitted
mode-Tells t mode =
    quiet-Tells t (record t { meta_event_reporting_enabled = mode }) [] (λ l b. ground arith) refl
      refl refl
