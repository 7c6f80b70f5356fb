-- ===== src/Tests/Settings.antt =====
-- Runs of the theorems on the options, the parts of a flush and the reporter of the system metrics.
use lightstep_tracer_go.RawSpan.{Value}
use lightstep_tracer_go.Metrics.Settings.{new_config_times}
use lightstep_tracer_go.Time.{second}
use lightstep_tracer_go.Tracer.Parts.{number_of_parts_lem}
use lightstep_tracer_go.Metrics.Retries.{Decided, send_lem}
use lightstep_tracer_go.Base.Int.{pos, pos_part}
use lightstep_tracer_go.Options.Initialize.{Environment}
use lightstep_tracer_go.Options.{Options}
use lightstep_tracer_go.Tracer.Flush.{number_of_parts}
use lightstep_tracer_go.Metrics.{
  new_config, send, send_loop, with_timeout, SendError, judge, retryable, with_measurement_duration,
  calculate_backoff,
}
use lightstep_tracer_go.Base.{
  ℕ, Option, ◌≤◌, Text, ◌≡◌, some, codes, ◌*◌, ◌⊎◌, ◌-◌, if◌then◌else◌, none, refl, inr, ◌<◌, ◌∷◌,
  ltb, ◌/◌, arith, [], ◌+◌,
}
use lightstep_tracer_go.Tests.{test_options, Options, pos}

-- No file exists.
abbrev test_environment : Environment
test_environment = record {
  stat_error = λ file. some file;
  program = codes "server";
  hostname = codes "host";
  command_line = codes "server -v";
  jittered = λ d. d;
}

abbrev tagged_options : Options
tagged_options = record test_options { tags = (codes "zone", Value.int (pos 1)) ∷ [] }

-- Two answers that call for a retry, and then success.
abbrev third_time : ℕ → Text ⊎ ℕ
third_time i = if ltb i 2 then inr 503 else inr 200

send_lem_example :
    (n : ℕ) × (r : Option SendError) × (send (pos 5_000_000_000) (λ i. 0) third_time ≡ some (n, r))
    × Decided third_time 0 n r
    × (n ≤ 5_000_000_000 / 1_000_000_000 + 2)
send_lem_example = send_lem (pos 5_000_000_000) (λ i. 0) third_time

send_third : send (pos 5_000_000_000) (λ i. 0) third_time ≡ some (3, none)
unfolding send send_loop judge retryable calculate_backoff
send_third = refl

new_config_times_example :
    let c =
      new_config
        (with_timeout (pos 3) ∷ with_timeout (pos 0) ∷ with_measurement_duration (pos 0) ∷ []) in
    (c.timeout ≡ pos 3)
    × (c.measurement_duration ≡ pos (30 * second))
    × (0 < pos_part c.timeout)
    × (0 < pos_part c.measurement_duration)
new_config_times_example =
    new_config_times
      (with_timeout (pos 3) ∷ with_timeout (pos 0) ∷ with_measurement_duration (pos 0) ∷ [])

number_of_parts_lem_example :
    (1 ≤ number_of_parts 2_500 1_000)
    × (2_500 ≤ number_of_parts 2_500 1_000 * 1_000)
    × ((number_of_parts 2_500 1_000 ≡ 1) ⊎ ((number_of_parts 2_500 1_000 - 1) * 1_000 < 2_500))
number_of_parts_lem_example = number_of_parts_lem 2_500 1_000 (omega arith)

three_parts : number_of_parts 2_500 1_000 ≡ 3
unfolding number_of_parts
three_parts = refl
