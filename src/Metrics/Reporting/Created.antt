-- ===== src/Metrics/Reporting/Created.antt =====
-- internal/metrics/reporter.go: the reporter that the tracer makes.
use lightstep_tracer_go.Time.{Duration}
use lightstep_tracer_go.Metrics.{
  new_config, apply_reporter_options, apply_reporter_option, Duration, positive, with_tracer_id,
  with_access_token, with_timeout, with_address, with_attributes, with_measurement_duration,
}
use lightstep_tracer_go.Metrics.Reporting.{new_reporter, new_config}
use lightstep_tracer_go.Base.{ℕ, Text, List, ◌≡◌, true, ◌∷◌, [], ◌++◌, codes, false, arith}

-- The settings that the tracer gives to its reporter are taken over, if its times are positive.
pub new_reporter_lem :
    (id : ℕ) (token address : Text) (timeout duration : Duration) (attributes : List (Text × Text))
    → positive timeout ≡ true
    → positive duration ≡ true
    → let r = new_reporter (
        with_tracer_id id
        ∷ with_access_token token
        ∷ with_timeout timeout
        ∷ with_address address
        ∷ with_attributes attributes
        ∷ with_measurement_duration duration
        ∷ []) in
      (r.timeout ≡ timeout)
      × (r.measurement_duration ≡ duration)
      × (r.address ≡ address ++ codes "/metrics")
      × (r.access_token ≡ token)
      × (r.skipped_initial_report ≡ false)
unfolding new_reporter new_config apply_reporter_options apply_reporter_option
new_reporter_lem id token address timeout duration attributes t d = ground arith
