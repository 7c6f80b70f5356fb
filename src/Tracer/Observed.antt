-- ===== src/Tracer/Observed.antt =====
-- tracer.go: what the events of a tracer tell of the spans it takes.
pub mod Steps
pub mod Flushes
pub mod Calls
pub mod Accounts
pub mod Idle
pub mod Delivered
use lightstep_tracer_go.Events.{
  Event, status_report, flush_error, tracer_disabled, translate, tracer_closed, tracer_is_disabled,
  transport, report,
}
use lightstep_tracer_go.Converter.Unsupported.{total, total-append}
use lightstep_tracer_go.Tracer.{Tracer, Output, emit}
use lightstep_tracer_go.Tracer.Balance.{Balanced}
use lightstep_tracer_go.Tracer.Ledger.{Ledger}
use lightstep_tracer_go.Base.{ℕ, ◌≡◌, List, ◌+◌, ◌∷◌, ◌++◌, [], arith, refl, ap, ◌<◌, ◌∙◌, int_max}

-- The spans that an event calls sent, and those that it calls dropped.
unfoldable pub event_sent : Event → ℕ
event_sent (status_report s) = s.sent_spans
event_sent e = 0

unfoldable pub event_dropped : Event → ℕ
event_dropped (status_report s) = s.dropped_spans
event_dropped e = 0

-- Does the event tell that the tracer was disabled or that spans could not be translated?
unfoldable pub event_loss : Event → ℕ
event_loss tracer_disabled = 1
event_loss (flush_error e) = elim (e.state) [
  | translate ↦ 1
  | tracer_closed ↦ 0
  | tracer_is_disabled ↦ 0
  | transport ↦ 0
  | report ↦ 0
]
event_loss e = 0

-- The events among the outputs.
unfoldable pub emitted : List Output → List Event
emitted [] = []
emitted (emit e ∷ out) = e ∷ emitted out
emitted (o ∷ out) = emitted out

emitted-append : (out out' : List Output) → emitted (out ++ out') ≡ emitted out ++ emitted out'
unfolding emitted
emitted-append [] out' = refl
emitted-append (emit e ∷ out) out' = ap (λ es. e ∷ es) (emitted-append out out')
emitted-append (o ∷ out) out' = emitted-append out out'

abbrev pub tally : (Event → ℕ) → List Output → ℕ
tally f out = total f (emitted out)

pub tally-append :
    (f : Event → ℕ) (out out' : List Output) → tally f (out ++ out') ≡ tally f out + tally f out'
tally-append f out out' =
    ap (total f) (emitted-append out out') ∙ total-append f (emitted out) (emitted out')

-- The outputs account for what becomes of a ledger; without a loss nothing is thrown away and the tracer is not
-- disabled.
pub record Told (t : Tracer) (l : Ledger) (t' : Tracer) (out : List Output) (l' : Ledger)
    : Type 0 where
  pub balanced : Balanced t' l'
  pub taken : l'.taken ≡ l.taken
  pub sent_spans : l'.sent_spans ≡ l.sent_spans + tally event_sent out
  pub dropped_spans : l'.dropped_spans ≡ l.dropped_spans + tally event_dropped out
  pub thrown_away : tally event_loss out ≡ 0 → l'.thrown_away ≡ l.thrown_away
  pub disabled : tally event_loss out ≡ 0 → t'.disabled ≡ t.disabled

abbrev pub Tells : Tracer → Tracer × List Output → Type 0
Tells t (t', out) =
    (l : Ledger) → Balanced t l → l.taken < int_max → (l' : Ledger) × Told t l t' out l'

pub then-Tells :
    (t t' t'' : Tracer) (out out' : List Output)
    → Tells t (t', out)
    → Tells t' (t'', out')
    → Tells t (t'', out ++ out')
then-Tells t t' t'' out out' h h' l b few =
    let (l', told) = h l b few in
    let (l'', told') = h' l' told.balanced (omega arith) in
    let sent_of = tally-append event_sent out out' in
    let dropped_of = tally-append event_dropped out out' in
    let loss_of = tally-append event_loss out out' in
    (
      l'',
      record {
        balanced = told'.balanced;
        taken = omega arith;
        sent_spans = omega arith;
        dropped_spans = omega arith;
        thrown_away = λ none_lost. told'.thrown_away (omega arith) ∙ told.thrown_away (omega arith);
        disabled = λ none_lost. told'.disabled (omega arith) ∙ told.disabled (omega arith);
      },
    )

-- Outputs without a status report, from a step that keeps the loads of the buffers.
pub quiet-Tells :
    (t t' : Tracer) (out : List Output)
    → ((l : Ledger) → Balanced t l → Balanced t' l)
    → t'.disabled ≡ t.disabled
    → tally event_sent out ≡ 0
    → tally event_dropped out ≡ 0
    → Tells t (t', out)
quiet-Tells t t' out keeps same no_sent no_dropped l b few = (
  l,
  record {
    balanced = keeps l b;
    taken = refl;
    sent_spans = omega arith;
    dropped_spans = omega arith;
    thrown_away = λ none_lost. refl;
    disabled = λ none_lost. same;
  },
)
