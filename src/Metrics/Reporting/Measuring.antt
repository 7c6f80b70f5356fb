-- ===== src/Metrics/Reporting/Measuring.antt =====
-- internal/metrics/reporter.go: `Measure`. The context is not part of the model: what it cancels is an error
-- among the readings or the answers.
use lightstep_tracer_go.Metrics.Reporting.{Reporter, IngestRequest, covered, points_of}
use lightstep_tracer_go.Metrics.System.{Floats, Metrics, Readings, measure}
use lightstep_tracer_go.Time.{Time}
use lightstep_tracer_go.Metrics.{send, SendError}
use lightstep_tracer_go.Base.{
  ℕ, Option, Text, Bool, length, some, ◌⊎◌, ltb, inl, if◌then◌else◌, none, ◌||◌, inr, leb, true,
  int_max,
}

pub data MeasureError : Type 0 where
  other_error : Text → MeasureError
  not_sent : SendError → MeasureError

-- What one `Measure` finds: the clock at its start and its end, the readings of the first snapshot and of
-- the second one, the random key, and the server, with protobuf and net/http on the way to it: `answer` is
-- what it says to each request with the body.
pub record Surroundings : Type 0 where
  pub now : Time
  pub later : Time
  pub first : Readings
  pub second_try : Readings
  pub idempotency_key : Text ⊎ Text
  pub marshal : IngestRequest → Text ⊎ Text
  pub new_request : Text → Text → Option Text
  pub random : ℕ → ℕ
  pub answer : Text → ℕ → Text ⊎ ℕ

-- The result of the loop of `send`: `none` is the end of its fuel.
abbrev pub sent_result : Option (ℕ × Option SendError) → Option (Option MeasureError)
sent_result none = none
sent_result (some (requests, none)) = some none
sent_result (some (requests, some err)) = some (some (not_sent err))

-- `send` after `http.NewRequest`, and after `proto.Marshal`.
unfoldable pub send_body :
    Reporter → Surroundings → Text → Option Text → Option (Option MeasureError)
unfolding send
send_body r s body (some err) = some (some (other_error err))
send_body r s body none = sent_result (send r.timeout s.random (s.answer body))

unfoldable pub send_message : Reporter → Surroundings → Text ⊎ Text → Option (Option MeasureError)
unfolding send_body
send_message r s (inl err) = some (some (other_error err))
send_message r s (inr body) = send_body r s body (s.new_request r.address body)

-- `send`
unfoldable pub send_request : Reporter → Surroundings → IngestRequest → Option (Option MeasureError)
unfolding send_message
send_request r s request = send_message r s (s.marshal request)

-- What a call of `Measure` comes to: its error, or the request that it has sent, or the one that it has
-- left unsent because it covers more than ten minutes, without an error.
pub data Outcome : Type 0 where
  failed : MeasureError → Outcome
  delivered withheld : IngestRequest → Outcome

-- The test of the time covered is one of signed words.
abbrev pub in_time : ℕ → Bool
in_time seconds = ltb seconds 601 || leb int_max seconds

-- The end of `Measure`.
abbrev pub remember : Reporter → Time → Metrics → IngestRequest → Reporter
remember r later m request = record r {
  stored = m;
  metrics_count = length request.points;
  end = later;
}

-- `Measure` after its `send`.
unfoldable pub after_send :
    Reporter
    → Time
    → Metrics
    → IngestRequest
    → Option (Option MeasureError)
    → Option (Reporter × Outcome)
after_send r later m request none = none
after_send r later m request (some none) = some (remember r later m request, delivered request)
after_send r later m request (some (some err)) = some (r, failed err)

unfoldable pub report_request :
    Reporter → Surroundings → Metrics → ℕ → IngestRequest → Option (Reporter × Outcome)
unfolding send_request after_send
report_request r s m intervals request =
    if in_time (covered r intervals)
    then after_send r s.later m request (send_request r s request)
    else some (remember r s.later m request, withheld request)

-- The initial snapshot is kept as the one to measure from, and a second one is taken.
unfoldable pub skip_initial :
    Reporter → Text ⊎ Metrics → Text ⊎ Metrics → Reporter × (Text ⊎ Metrics)
skip_initial r (inl err) again = (r, inl err)
skip_initial r (inr m) again =
    if r.skipped_initial_report
    then (r, inr m)
    else (record r { skipped_initial_report = true; stored = m }, again)

module _ (float : Floats) where
  -- `prepareRequest` with the points of `Measure`, by what `generateIdempotencyKey` returns.
  unfoldable pub prepare_request : Reporter → Metrics → ℕ → Text ⊎ Text → Text ⊎ IngestRequest
  unfolding points_of
  prepare_request r m intervals (inl err) = inl err
  prepare_request r m intervals (inr key) = inr (record {
    idempotency_key = key;
    reporter = r.collector_reporter;
    points = points_of float r m intervals;
  })

  unfoldable pub report_prepared :
      Reporter → Surroundings → Metrics → ℕ → Text ⊎ IngestRequest → Option (Reporter × Outcome)
  unfolding report_request
  report_prepared r s m intervals (inl err) = some (r, failed (other_error err))
  report_prepared r s m intervals (inr request) = report_request r s m intervals request

  unfoldable pub report_metrics :
      Reporter → Surroundings → ℕ → Text ⊎ Metrics → Option (Reporter × Outcome)
  unfolding prepare_request report_prepared
  report_metrics r s intervals (inl err) = some (r, failed (other_error err))
  report_metrics r s intervals (inr m) =
      report_prepared r s m intervals (prepare_request r m intervals s.idempotency_key)

  -- `Reporter.Measure`
  unfoldable pub measure_and_send : Reporter → Surroundings → ℕ → Option (Reporter × Outcome)
  unfolding measure skip_initial report_metrics
  measure_and_send r s intervals =
      let (r', m) =
        skip_initial (record r { start = s.now }) (measure float s.first)
          (measure float s.second_try) in
      report_metrics r' s intervals m
