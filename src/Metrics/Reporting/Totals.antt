-- ===== src/Metrics/Reporting/Totals.antt =====
-- internal/metrics/reporter.go: what one `Measure` reports, and from where the next one measures.
use lightstep_tracer_go.Metrics.{SendError}
use lightstep_tracer_go.Metrics.Retries.{send_lem}
use lightstep_tracer_go.Propagation.Binary.{other_error}
use lightstep_tracer_go.Metrics.System.{Floats, Metrics, measure}
use lightstep_tracer_go.Metrics.Reporting.{
  Reporter, Floats, IngestRequest, points_of, SendError, Metrics, measure, covered,
}
use lightstep_tracer_go.Metrics.Reporting.Measuring.{
  send_body, Surroundings, Outcome, failed, MeasureError, delivered, withheld, other_error,
  not_sent, after_send, send_message, sent_result, measure_and_send, report_metrics, report_request,
  skip_initial, report_prepared, in_time, prepare_request, remember,
}
use lightstep_tracer_go.Base.{
  ℕ, ◌≡◌, true, Option, Text, some, inr, inl, none, ◌⊎◌, refl, ap, ◌∙◌, Bool-cases, Sum-cases,
  false,
}

-- `send` ends, since its retries do.
send_body_ends :
    (r : Reporter) (s : Surroundings) (body : Text) (created : Option Text)
    → (e : Option MeasureError) × (send_body r s body created ≡ some e)
unfolding send_body
send_body_ends r s body (some err) = (some (other_error err), refl)
send_body_ends r s body none =
    let (n, result, done, decided, bound) = send_lem r.timeout s.random (s.answer body) in
    let (e, ends) = sent_result_ends n result in (e, ap sent_result done ∙ ends)
  where
    sent_result_ends :
        (n : ℕ) (result : Option SendError)
        → (e : Option MeasureError) × (sent_result (some (n, result)) ≡ some e)
    sent_result_ends n none = (none, refl)
    sent_result_ends n (some err) = (some (not_sent err), refl)

send_message_ends :
    (r : Reporter) (s : Surroundings) (message : Text ⊎ Text)
    → (e : Option MeasureError) × (send_message r s message ≡ some e)
unfolding send_message
send_message_ends r s (inl err) = (some (other_error err), refl)
send_message_ends r s (inr body) = send_body_ends r s body (s.new_request r.address body)

-- The request is the account of an interval from the metrics stored before to those stored after.
abbrev pub Accounts : Floats → Reporter → Reporter → ℕ → IngestRequest → Type 0
Accounts float r r' intervals request = request.points ≡ points_of float r r'.stored intervals

-- What an outcome says of the reporter before and after, by the snapshot that was taken.
abbrev pub Measured : Floats → Text ⊎ Metrics → Reporter → Reporter → ℕ → Outcome → Type 0
Measured float m r r' intervals (failed err) = r'.stored ≡ r.stored
Measured float m r r' intervals (delivered request) =
    (m ≡ inr r'.stored) × Accounts float r r' intervals request
Measured float m r r' intervals (withheld request) =
    (m ≡ inr r'.stored) × Accounts float r r' intervals request

-- The settings of a reporter that has skipped its initial report.
pub record Continues (r r' : Reporter) : Type 0 where
  pub skipped : r'.skipped_initial_report ≡ true
  pub same_duration : r'.measurement_duration ≡ r.measurement_duration
  pub same_labels : r'.labels ≡ r.labels

-- `Measure` ends, with one of its outcomes.
abbrev pub Ends : Floats → Text ⊎ Metrics → Reporter → ℕ → Option (Reporter × Outcome) → Type 0
Ends float m r intervals result =
    (r' : Reporter) × (o : Outcome) × (result ≡ some (r', o))
    × Measured float m r r' intervals o
    × Continues r r'

module _ (float : Floats) (r : Reporter) (s : Surroundings)
    (skipped : r.skipped_initial_report ≡ true) where
  continues : Continues r r
  continues = record { skipped = skipped; same_duration = refl; same_labels = refl }

  remembers : (m : Metrics) (request : IngestRequest) → Continues r (remember r s.later m request)
  remembers m request = record { skipped = skipped; same_duration = refl; same_labels = refl }

  after_send-Ends :
      (m : Metrics) (intervals : ℕ) (request : IngestRequest) (result : Option MeasureError)
      → request.points ≡ points_of float r m intervals
      → Ends float (inr m) r intervals (after_send r s.later m request (some result))
  unfolding after_send
  after_send-Ends m intervals request none e = (_, _, refl, (refl, e), remembers m request)
  after_send-Ends m intervals request (some err) e = (_, _, refl, refl, continues)

  report_request-Ends :
      (m : Metrics) (intervals : ℕ) (request : IngestRequest)
      → request.points ≡ points_of float r m intervals
      → Ends float (inr m) r intervals (report_request r s m intervals request)
  unfolding report_request
  report_request-Ends m intervals request e = elim (Bool-cases (in_time (covered r intervals))) [
    | inl short ↦ rw short (
        let (result, ends) = send_message_ends r s (s.marshal request) in
        rw ends (after_send-Ends m intervals request result e))
    | inr long ↦ rw long (_, _, refl, (refl, e), remembers m request)
  ]

  report_metrics-Ends :
      (intervals : ℕ) (m : Text ⊎ Metrics)
      → Ends float m r intervals (report_metrics float r s intervals m)
  unfolding report_metrics report_prepared prepare_request
  report_metrics-Ends intervals (inl err) = (_, _, refl, refl, continues)
  report_metrics-Ends intervals (inr m) = elim (Sum-cases s.idempotency_key) [
    | inl (err, e) ↦ rw e (_, _, refl, refl, continues)
    | inr (key, e) ↦ rw e (report_request-Ends m intervals _ refl)
  ]

  skip_initial_skipped : (m again : Text ⊎ Metrics) → skip_initial r m again ≡ (r, m)
  unfolding skip_initial
  skip_initial_skipped (inl err) again = refl
  skip_initial_skipped (inr m) again = rw skipped refl

-- The first `Measure` of a reporter: without a snapshot it fails, and else it measures from that snapshot to a
-- second one.
abbrev pub Begins :
    Floats → Text ⊎ Metrics → Text ⊎ Metrics → Reporter → ℕ → Option (Reporter × Outcome) → Type 0
Begins float (inl err) again r intervals result = result ≡ some (r, failed (other_error err))
Begins float (inr m) again r intervals result =
    Ends float again (record r { stored = m; skipped_initial_report = true }) intervals result

report_skipped-Begins :
    (float : Floats) (r : Reporter) (s : Surroundings) (intervals : ℕ) (m again : Text ⊎ Metrics)
    → r.skipped_initial_report ≡ false
    → Begins float m again r intervals
        (let (r', m') = skip_initial r m again in report_metrics float r' s intervals m')
unfolding skip_initial report_metrics
report_skipped-Begins float r s intervals (inl err) again first = refl
report_skipped-Begins float r s intervals (inr m) again first = rw first (
    report_metrics-Ends float (record r { stored = m; skipped_initial_report = true }) s refl
      intervals again)

pub first_measure_lem :
    (float : Floats) (r : Reporter) (s : Surroundings) (intervals : ℕ)
    → r.skipped_initial_report ≡ false
    → Begins float
        (measure float s.first)
        (measure float s.second_try)
        (record r { start = s.now })
        intervals
        (measure_and_send float r s intervals)
unfolding measure_and_send
first_measure_lem float r s intervals first =
    report_skipped-Begins float (record r { start = s.now }) s intervals (measure float s.first)
      (measure float s.second_try) first

-- A reporter that has skipped its initial report: `Measure` fails and measures from the same metrics again,
-- or it makes a request that accounts for all from there to the new ones.
pub measure_and_send_lem :
    (float : Floats) (r : Reporter) (s : Surroundings) (intervals : ℕ)
    → r.skipped_initial_report ≡ true
    → Ends float
        (measure float s.first)
        (record r { start = s.now })
        intervals
        (measure_and_send float r s intervals)
unfolding measure_and_send
measure_and_send_lem float r s intervals skipped =
    rw
      (skip_initial_skipped float (record r { start = s.now }) s skipped (measure float s.first)
        (measure float s.second_try))
      (report_metrics-Ends float (record r { start = s.now }) s skipped intervals
        (measure float s.first))
