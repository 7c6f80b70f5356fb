-- ===== src/Tracer/Balance.antt =====
-- tracer.go: the account of the spans that the tracer takes.
use lightstep_tracer_go.Tracer.Flush.{first_report}
use lightstep_tracer_go.Options.{Options}
use lightstep_tracer_go.Events.{
  FlushError, FlushErrorState, translate, tracer_closed, tracer_is_disabled, transport, report,
}
use lightstep_tracer_go.Time.{Time, Duration, sub}
use lightstep_tracer_go.RawSpan.{RawSpan}
use lightstep_tracer_go.ReportBuffer.{
  add_span, clear, set_current, report_dropped_span_count, set_flushing,
  report_log_encoder_error_count, merge_from, merge_space, new_spans_buffer,
}
use lightstep_tracer_go.Tracer.Ledger.{
  act, Ledger, load, disabling, enter_status, recording, starting, thrown_by, ending, run_actions,
  Action, encoding, empty_ledger, count_error, switching, announcing,
}
use lightstep_tracer_go.Tracer.{
  Tracer, post_flush, pre_flush, record_span, disable, add_span, clear, set_current,
  post_flush_sent, Time, RawSpan, FlushError, post_flush_failed, restore, status_event, Options,
  create_tracer,
}
use lightstep_tracer_go.Base.{
  ℕ, ◌≤◌, ◌+◌, length, arith, ◌≡◌, ◌<◌, Option, int_max, length-append, ◌∷◌, [], some, none, Text,
  take, length-take, false, List, Bool,
}

-- No more drops are called reported than there are, the totals of the counters and the spans are within the
-- spans taken, and each span taken is counted at one place.
pub record Balanced (t : Tracer) (l : Ledger) : Type 0 where
  pub buffer_reported : t.buffer.reported_dropped_span_count ≤ t.buffer.dropped_span_count
  pub flushing_reported : t.flushing.reported_dropped_span_count ≤ t.flushing.dropped_span_count
  pub few :
      t.buffer.dropped_span_count
        + t.flushing.dropped_span_count
        + length t.buffer.raw_spans
        + length t.flushing.raw_spans
      ≤ l.taken
  pub balance :
      l.taken ≡ l.sent_spans + l.dropped_spans + l.thrown_away + load t.buffer + load t.flushing

record_span-Balanced :
    (t : Tracer) (l : Ledger) (raw : RawSpan)
    → Balanced t l
    → let (t', l') = act (recording raw) (t, l) in l'.taken < int_max → Balanced t' l'
unfolding act record_span add_span load
record_span-Balanced t l raw b h = ground (arith, length-append t.buffer.raw_spans (raw ∷ []))

disable-Balanced :
    (t : Tracer) (l : Ledger) → Balanced t l → let (t', l') = act disabling (t, l) in Balanced t' l'
unfolding act disable clear load
disable-Balanced t l b = ground arith

pub pre_flush-Balanced :
    (t : Tracer) (l : Ledger) (now : Time)
    → Balanced t l
    → let (t', l') = act (starting now) (t, l) in Balanced t' l'
unfolding act pre_flush set_current set_flushing load
pre_flush-Balanced t l now b = ground arith

post_flush_sent-Balanced :
    (t : Tracer) (l : Ledger) (duration : Duration)
    → Balanced t l
    → l.taken < int_max
    → let (status, t') = post_flush_sent t duration in Balanced t' (enter_status l status)
unfolding post_flush_sent report_dropped_span_count report_log_encoder_error_count clear load
    enter_status
post_flush_sent-Balanced t l duration b h = ground arith

merged-Balanced :
    (t : Tracer) (l : Ledger)
    → Balanced t l
    → l.taken < int_max
    → let (buffer', flushing') = merge_from t.buffer t.flushing in
      Balanced (record t { buffer = buffer'; flushing = flushing' }) l
unfolding merge_from clear load
merged-Balanced t l b h = ground (
  arith,
  length-append t.buffer.raw_spans (take (merge_space t.buffer t.flushing) t.flushing.raw_spans),
  length-take (merge_space t.buffer t.flushing) t.flushing.raw_spans,
)

dropped-Balanced :
    (t : Tracer) (l : Ledger)
    → Balanced t l
    → Balanced
        (record t { flushing = clear t.flushing })
        (record l { thrown_away = l.thrown_away + load t.flushing })
unfolding clear load
dropped-Balanced t l b = ground arith

-- The status report of a failed flush.
failed_status-Balanced :
    (t : Tracer) (l : Ledger) (start end : Time) (duration : Duration)
    → Balanced t l
    → l.taken < int_max
    → let (dropped, buffer') = report_dropped_span_count t.buffer in
      let (errors, buffer'') = report_log_encoder_error_count buffer' in
      Balanced
        (record t { buffer = buffer'' })
        (enter_status l (status_event start end 0 dropped errors duration))
unfolding report_dropped_span_count report_log_encoder_error_count load enter_status
failed_status-Balanced t l start end duration b h = ground arith

same-Balanced :
    (t : Tracer) (l : Ledger)
    → Balanced t l
    → Balanced t (record l { thrown_away = l.thrown_away + 0 })
same-Balanced t l b = ground arith

landed-Balanced :
    (t : Tracer) (l : Ledger) → Balanced t l → Balanced (record t { report_in_flight = false }) l
landed-Balanced t l b = ground arith

restore-Balanced :
    (t : Tracer) (l : Ledger) (err : Text) (state : FlushErrorState)
    → Balanced t l
    → l.taken < int_max
    → Balanced (restore t state) (record l {
      thrown_away = l.thrown_away + thrown_by t (some (record { err = err; state = state }));
    })
unfolding restore thrown_by
restore-Balanced t l err translate b h = dropped-Balanced t l b
restore-Balanced t l err tracer_closed b h = same-Balanced _ l (merged-Balanced t l b h)
restore-Balanced t l err tracer_is_disabled b h = same-Balanced _ l (merged-Balanced t l b h)
restore-Balanced t l err transport b h = same-Balanced _ l (merged-Balanced t l b h)
restore-Balanced t l err report b h = same-Balanced _ l (merged-Balanced t l b h)

pub post_flush-Balanced :
    (t : Tracer) (l : Ledger) (start end : Time) (failed : Option FlushError)
    → Balanced t l
    → l.taken < int_max
    → let (t', l') = act (ending start end failed) (t, l) in Balanced t' l'
unfolding act post_flush post_flush_failed thrown_by
post_flush-Balanced t l start end none b h =
    post_flush_sent-Balanced (record t { report_in_flight = false })
      (record l { thrown_away = l.thrown_away + 0 }) (sub end start)
      (same-Balanced _ l (landed-Balanced t l b)) h
post_flush-Balanced t l start end (some e) b h =
    let t' = record t { report_in_flight = false } in
    failed_status-Balanced (restore t' e.state)
      (record l { thrown_away = l.thrown_away + thrown_by t (some e) }) t.flushing.report_start
      t.flushing.report_end (sub end start)
      (restore-Balanced t' l e.err e.state (landed-Balanced t l b) h) h

act_grows : (a : Action) (t : Tracer) (l : Ledger) → l.taken ≤ (act a (t, l)).1.taken
unfolding act enter_status
act_grows (recording raw) t l = ground arith
act_grows disabling t l = ground arith
act_grows (starting now) t l = omega arith
act_grows announcing t l = omega arith
act_grows encoding t l = omega arith
act_grows (switching mode) t l = omega arith
act_grows (ending start end failed) t l = omega arith

-- No action takes spans back.
taken_grows :
    (actions : List Action) (t : Tracer) (l : Ledger)
    → l.taken ≤ (run_actions actions (t, l)).1.taken
unfolding run_actions
taken_grows [] t l = omega arith
taken_grows (a ∷ actions) t l =
    let (t', l') = act a (t, l) in omega (arith, act_grows a t l, taken_grows actions t' l')

encoding-Balanced :
    (t : Tracer) (l : Ledger) → Balanced t l → let (t', l') = act encoding (t, l) in Balanced t' l'
unfolding act count_error load
encoding-Balanced t l b = ground arith

announcing-Balanced :
    (t : Tracer) (l : Ledger)
    → Balanced t l
    → let (t', l') = act announcing (t, l) in Balanced t' l'
unfolding act first_report load
announcing-Balanced t l b = ground arith

switching-Balanced :
    (mode : Bool) (t : Tracer) (l : Ledger)
    → Balanced t l
    → let (t', l') = act (switching mode) (t, l) in Balanced t' l'
unfolding act
switching-Balanced mode t l b = ground arith

pub act-Balanced :
    (a : Action) (t : Tracer) (l : Ledger)
    → Balanced t l
    → let (t', l') = act a (t, l) in l'.taken < int_max → Balanced t' l'
act-Balanced (recording raw) t l b h = record_span-Balanced t l raw b h
act-Balanced disabling t l b h = disable-Balanced t l b
act-Balanced (starting now) t l b h = pre_flush-Balanced t l now b
act-Balanced announcing t l b h = announcing-Balanced t l b
act-Balanced encoding t l b h = encoding-Balanced t l b
act-Balanced (switching mode) t l b h = switching-Balanced mode t l b
act-Balanced (ending start end failed) t l b h =
    post_flush-Balanced t l start end failed b
      (omega (arith, act_grows (ending start end failed) t l))

run_actions-Balanced :
    (actions : List Action) (t : Tracer) (l : Ledger)
    → Balanced t l
    → let (t', l') = run_actions actions (t, l) in l'.taken < int_max → Balanced t' l'
unfolding run_actions
run_actions-Balanced [] t l b h = b
run_actions-Balanced (a ∷ actions) t l b h =
    let (t', l') = act a (t, l) in
    run_actions-Balanced actions t' l'
      (act-Balanced a t l b (omega (arith, taken_grows actions t' l', h))) h

pub create_tracer-Balanced :
    (opts : Options) (guid : ℕ) (attributes : List (Text × Text)) (now : Time)
    → Balanced (create_tracer opts guid attributes now) empty_ledger
unfolding create_tracer new_spans_buffer set_current load
create_tracer-Balanced opts guid attributes now = omega arith

-- From a new tracer on, after any sequence of spans, `Disable` calls, starts and ends of flushes with any
-- outcome, each span that got to a buffer is counted once: as sent in a status report, as dropped in a
-- status report, as thrown away by `Disable` or by a failed translation, or in one of the two buffers, as
-- a span or as a drop that is not reported yet. This is as long as the count of them fits in an `int64`.
pub spans_accounted :
    (opts : Options) (guid : ℕ) (attributes : List (Text × Text)) (now : Time)
    (actions : List Action)
    → let (t, l) = run_actions actions (create_tracer opts guid attributes now, empty_ledger) in
      l.taken < int_max
      → l.taken ≡ l.sent_spans + l.dropped_spans + l.thrown_away + load t.buffer + load t.flushing
spans_accounted opts guid attributes now actions h =
    let b =
      run_actions-Balanced actions (create_tracer opts guid attributes now) empty_ledger
        (create_tracer-Balanced opts guid attributes now) h in
    b.balance
