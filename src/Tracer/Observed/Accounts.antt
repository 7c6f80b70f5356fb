-- ===== src/Tracer/Observed/Accounts.antt =====
-- tracer.go: the account of the spans that its events give, over the calls of a program.
use lightstep_tracer_go.Options.{Options}
use lightstep_tracer_go.Events.{Event}
use lightstep_tracer_go.Time.{Time}
use lightstep_tracer_go.RawSpan.{RawSpan}
use lightstep_tracer_go.Tracer.Observed.{
  event_sent, event_dropped, event_loss, emitted, tally, tally-append, Tells,
}
use lightstep_tracer_go.Tracer.Observed.Calls.{
  Call, recorded_spans, run_call, run_calls, tick-Tells, close-Tells, recorded, disabled_by_user,
  flushed, ticked, closed_by_user,
}
use lightstep_tracer_go.Tracer.Observed.Flushes.{flush-Tells}
use lightstep_tracer_go.Tracer.Observed.Steps.{disable-Tells}
use lightstep_tracer_go.Converter.Unsupported.{total}
use lightstep_tracer_go.Tracer.{Tracer, record_span, create_tracer, RawSpan, Time, Options}
use lightstep_tracer_go.Tracer.Balance.{Balanced, act-Balanced, create_tracer-Balanced}
use lightstep_tracer_go.Tracer.Ledger.{Ledger, act, load, recording, empty_ledger}
use lightstep_tracer_go.Collector.{Store, Pointer, ReportRequest}
use lightstep_tracer_go.LogEncoder.{Library}
use lightstep_tracer_go.Base.{
  ℕ, ◌≡◌, List, ◌+◌, ◌∷◌, [], arith, refl, Text, ◌⊎◌, false, ◌∙◌, ◌<◌, int_max,
}

module _ (lib : Library) (translate_request : Store → Pointer → Text ⊎ ReportRequest) where
  -- What the ledger has after a call of `RecordSpan`, of an enabled tracer.
  recorded_lem :
      (raw : RawSpan) (t : Tracer) (l : Ledger)
      → t.disabled ≡ false
      → let l' = (act (recording raw) (t, l)).1 in
        let (t', out) = record_span t raw in
        (t'.disabled ≡ false)
        × (l'.taken ≡ l.taken + recorded_spans (recorded raw ∷ []))
        × (l'.sent_spans ≡ l.sent_spans)
        × (l'.dropped_spans ≡ l.dropped_spans)
        × (l'.thrown_away ≡ l.thrown_away)
        × ((f : Event → ℕ) → tally f out ≡ 0)
  unfolding act record_span emitted total recorded_spans
  recorded_lem raw t l h =
      (ground arith, ground arith, ground arith, ground arith, ground arith, λ f. ground arith)

  recorded_first :
      (raw : RawSpan) (calls : List Call)
      → recorded_spans (recorded raw ∷ calls)
        ≡ recorded_spans (recorded raw ∷ []) + recorded_spans calls
  unfolding recorded_spans
  recorded_first raw calls = ground arith

  -- After the calls.
  pub record Accounted (t : Tracer) (l : Ledger) (calls : List Call) (l' : Ledger) : Type 0 where
    pub balanced : Balanced (run_calls lib translate_request calls t).0 l'
    pub taken : l'.taken ≡ l.taken + recorded_spans calls
    pub sent_spans :
        l'.sent_spans ≡ l.sent_spans + tally event_sent (run_calls lib translate_request calls t).1
    pub dropped_spans :
        l'.dropped_spans
        ≡ l.dropped_spans + tally event_dropped (run_calls lib translate_request calls t).1
    pub thrown_away : l'.thrown_away ≡ l.thrown_away

  Accounts : List Call → Type 0
  Accounts calls =
      (t : Tracer) (l : Ledger)
      → Balanced t l
      → t.disabled ≡ false
      → l.taken + recorded_spans calls < int_max
      → tally event_loss (run_calls lib translate_request calls t).1 ≡ 0
      → (l' : Ledger) × Accounted t l calls l'

  -- A call that records no span.
  told-Accounts :
      (c : Call) (calls : List Call)
      → recorded_spans (c ∷ calls) ≡ recorded_spans calls
      → ((t : Tracer) → Tells t (run_call lib translate_request c t))
      → Accounts calls
      → Accounts (c ∷ calls)
  unfolding Accounts run_calls
  told-Accounts c calls none_recorded tells rest t l b on few none_lost =
      let (t', out) = run_call lib translate_request c t in
      let (t'', out') = run_calls lib translate_request calls t' in
      let sent_of = tally-append event_sent out out' in
      let dropped_of = tally-append event_dropped out out' in
      let loss_of = tally-append event_loss out out' in
      let (l', told) = tells t l b (omega arith) in
      let (l'', a) =
        rest t' l' told.balanced (told.disabled (omega arith) ∙ on) (omega arith) (omega arith) in
      (
        l'',
        record {
          balanced = a.balanced;
          taken = omega arith;
          sent_spans = omega arith;
          dropped_spans = omega arith;
          thrown_away = a.thrown_away ∙ told.thrown_away (omega arith);
        },
      )

  recorded-Accounts :
      (raw : RawSpan) (calls : List Call) → Accounts calls → Accounts (recorded raw ∷ calls)
  unfolding Accounts run_calls run_call act
  recorded-Accounts raw calls rest t l b on few none_lost =
      let (t', out) = record_span t raw in
      let (t'', out') = run_calls lib translate_request calls t' in
      let l' = (act (recording raw) (t, l)).1 in
      let (on', took, same_sent, same_dropped, same_thrown, no_events) = recorded_lem raw t l on in
      let first = recorded_first raw calls in
      let sent_of = tally-append event_sent out out' in
      let dropped_of = tally-append event_dropped out out' in
      let loss_of = tally-append event_loss out out' in
      let no_sent = no_events event_sent in
      let no_dropped = no_events event_dropped in
      let balanced' = act-Balanced (recording raw) t l b (omega arith) in
      let (l'', a) = rest t' l' balanced' on' (omega arith) (omega arith) in
      (
        l'',
        record {
          balanced = a.balanced;
          taken = omega arith;
          sent_spans = omega arith;
          dropped_spans = omega arith;
          thrown_away = a.thrown_away ∙ same_thrown;
        },
      )

  no_calls-Accounts : Accounts []
  unfolding Accounts run_calls recorded_spans total emitted
  no_calls-Accounts t l b on few none_lost = (
    l,
    record {
      balanced = b;
      taken = omega arith;
      sent_spans = omega arith;
      dropped_spans = omega arith;
      thrown_away = refl;
    },
  )

  calls-Accounts : (calls : List Call) → Accounts calls
  unfolding recorded_spans run_call
  calls-Accounts [] = no_calls-Accounts
  calls-Accounts (recorded raw ∷ calls) = recorded-Accounts raw calls (calls-Accounts calls)
  calls-Accounts (disabled_by_user ∷ calls) =
      told-Accounts disabled_by_user calls refl disable-Tells (calls-Accounts calls)
  calls-Accounts (flushed run store ∷ calls) =
      told-Accounts (flushed run store) calls refl
        (λ t. flush-Tells lib translate_request t run store) (calls-Accounts calls)
  calls-Accounts (ticked now should_reconnect connected run store ∷ calls) =
      told-Accounts (ticked now should_reconnect connected run store) calls refl
        (λ t. tick-Tells lib translate_request t now should_reconnect connected run store)
        (calls-Accounts calls)
  calls-Accounts (closed_by_user cancelled failed run store ∷ calls) =
      told-Accounts (closed_by_user cancelled failed run store) calls refl
        (λ t. close-Tells lib translate_request t cancelled failed run store) (calls-Accounts calls)

  -- From a new tracer on, over any calls of `RecordSpan`, `Flush`, `Disable` and `Close` and any ticks of the
  -- report loop, one after the other, with any answers of the collector: as long as no event tells that the
  -- tracer was disabled or that a report could not be translated, each span that was recorded and not sampled
  -- out is called sent by a status report, or called dropped by one, or still in a buffer, as a span or as a
  -- drop that no report has called so. This is for as many spans as an `int64` counts.
  pub calls_accounted :
      (opts : Options) (guid : ℕ) (attributes : List (Text × Text)) (created : Time)
      (calls : List Call)
      → recorded_spans calls < int_max
      → tally event_loss
          (run_calls lib translate_request calls (create_tracer opts guid attributes created)).1
        ≡ 0
      → let (t, out) =
          run_calls lib translate_request calls (create_tracer opts guid attributes created) in
        recorded_spans calls
        ≡ tally event_sent out + tally event_dropped out + load t.buffer + load t.flushing
  unfolding Accounts create_tracer
  calls_accounted opts guid attributes created calls few none_lost =
      let t = create_tracer opts guid attributes created in
      let (l', a) =
        calls-Accounts calls t empty_ledger (create_tracer-Balanced opts guid attributes created)
          refl (omega arith) none_lost in
      omega (arith, a.balanced.balance, a.taken, a.sent_spans, a.dropped_spans, a.thrown_away)
