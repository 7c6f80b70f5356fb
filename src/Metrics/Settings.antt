-- ===== src/Metrics/Settings.antt =====
-- internal/metrics/reporter.go: the times of a configuration.
use lightstep_tracer_go.Time.{second}
use lightstep_tracer_go.RawSpan.{copy_items}
use lightstep_tracer_go.Time.{Duration}
use lightstep_tracer_go.Base.Int.{pos_part, pos}
use lightstep_tracer_go.Metrics.{
  new_config, apply_reporter_options, apply_reporter_option, ReporterOption, Config, pos_part,
  positive, zero_config, with_tracer_id, with_attributes, copy_items, with_address, with_timeout,
  with_measurement_duration, with_access_token, second,
}
use lightstep_tracer_go.Base.{
  List, ◌<◌, ◌≡◌, true, ◌∷◌, [], if◌then◌else◌, arith, codes, refl, ◌*◌, ◌∙◌, Bool, Option, false,
  ap, none, some, otherwise,
}

apply_reporter_options-positive :
    (opts : List ReporterOption) (c : Config)
    → positive c.timeout ≡ true
    → positive c.measurement_duration ≡ true
    → let c' = apply_reporter_options opts c in
      (positive c'.timeout ≡ true) × (positive c'.measurement_duration ≡ true)
unfolding apply_reporter_options apply_reporter_option
apply_reporter_options-positive [] c h k = (h, k)
apply_reporter_options-positive (with_tracer_id n ∷ opts) c h k =
    apply_reporter_options-positive opts (record c { tracer_id = n }) h k
apply_reporter_options-positive (with_attributes m ∷ opts) c h k =
    apply_reporter_options-positive opts (record c { attributes = copy_items m [] }) h k
apply_reporter_options-positive (with_address s ∷ opts) c h k =
    apply_reporter_options-positive opts (record c { address = s }) h k
apply_reporter_options-positive (with_timeout d ∷ opts) c h k =
    apply_reporter_options-positive opts (if positive d then record c { timeout = d } else c)
      (ground arith) (ground arith)
apply_reporter_options-positive (with_measurement_duration d ∷ opts) c h k =
    apply_reporter_options-positive opts
      (if positive d then record c { measurement_duration = d } else c) (ground arith)
      (ground arith)
apply_reporter_options-positive (with_access_token s ∷ opts) c h k =
    apply_reporter_options-positive opts (record c { access_token = s }) h k

abbrev started : Config
started = record zero_config {
  address = codes "https://ingest.lightstep.com:443";
  timeout = pos (5 * second);
  measurement_duration = pos (30 * second);
}

after_defaults :
    (opts : List ReporterOption) → new_config opts ≡ apply_reporter_options opts started
unfolding new_config apply_reporter_options apply_reporter_option copy_items
after_defaults opts = refl

-- The last option for the timeout that is positive.
abbrev pub last_timeout : List ReporterOption → Option Duration
last_timeout [] = none
last_timeout (with_timeout d ∷ opts) =
    otherwise (last_timeout opts) (if positive d then some d else none)
last_timeout (o ∷ opts) = last_timeout opts

-- The last option for the measurement duration that is positive.
abbrev pub last_duration : List ReporterOption → Option Duration
last_duration [] = none
last_duration (with_measurement_duration d ∷ opts) =
    otherwise (last_duration opts) (if positive d then some d else none)
last_duration (o ∷ opts) = last_duration opts

abbrev pub given_or : Option Duration → Duration → Duration
given_or none d = d
given_or (some d) default = d

given_or-otherwise :
    (later : Option Duration) (b : Bool) (d before : Duration)
    → given_or later (if b then d else before)
      ≡ given_or (otherwise later (if b then some d else none)) before
given_or-otherwise none true d before = refl
given_or-otherwise none false d before = refl
given_or-otherwise (some e) b d before = refl

timeout_if :
    (b : Bool) (c : Config) (d : Duration)
    → (if b then record c { timeout = d } else c).timeout ≡ (if b then d else c.timeout)
timeout_if true c d = refl
timeout_if false c d = refl

timeout_if_duration :
    (b : Bool) (c : Config) (d : Duration)
    → (if b then record c { measurement_duration = d } else c).timeout ≡ c.timeout
timeout_if_duration true c d = refl
timeout_if_duration false c d = refl

duration_if :
    (b : Bool) (c : Config) (d : Duration)
    → (if b then record c { measurement_duration = d } else c).measurement_duration
      ≡ (if b then d else c.measurement_duration)
duration_if true c d = refl
duration_if false c d = refl

duration_if_timeout :
    (b : Bool) (c : Config) (d : Duration)
    → (if b then record c { timeout = d } else c).measurement_duration ≡ c.measurement_duration
duration_if_timeout true c d = refl
duration_if_timeout false c d = refl

timeout-apply :
    (opts : List ReporterOption) (c : Config)
    → (apply_reporter_options opts c).timeout ≡ given_or (last_timeout opts) c.timeout
unfolding apply_reporter_options apply_reporter_option
timeout-apply [] c = refl
timeout-apply (with_tracer_id n ∷ opts) c = timeout-apply opts (record c { tracer_id = n })
timeout-apply (with_attributes m ∷ opts) c =
    timeout-apply opts (record c { attributes = copy_items m [] })
timeout-apply (with_address s ∷ opts) c = timeout-apply opts (record c { address = s })
timeout-apply (with_timeout d ∷ opts) c =
    timeout-apply opts (if positive d then record c { timeout = d } else c)
    ∙ ap (given_or (last_timeout opts)) (timeout_if (positive d) c d)
    ∙ given_or-otherwise (last_timeout opts) (positive d) d c.timeout
timeout-apply (with_measurement_duration d ∷ opts) c =
    timeout-apply opts (if positive d then record c { measurement_duration = d } else c)
    ∙ ap (given_or (last_timeout opts)) (timeout_if_duration (positive d) c d)
timeout-apply (with_access_token s ∷ opts) c = timeout-apply opts (record c { access_token = s })

duration-apply :
    (opts : List ReporterOption) (c : Config)
    → (apply_reporter_options opts c).measurement_duration
      ≡ given_or (last_duration opts) c.measurement_duration
unfolding apply_reporter_options apply_reporter_option
duration-apply [] c = refl
duration-apply (with_tracer_id n ∷ opts) c = duration-apply opts (record c { tracer_id = n })
duration-apply (with_attributes m ∷ opts) c =
    duration-apply opts (record c { attributes = copy_items m [] })
duration-apply (with_address s ∷ opts) c = duration-apply opts (record c { address = s })
duration-apply (with_timeout d ∷ opts) c =
    duration-apply opts (if positive d then record c { timeout = d } else c)
    ∙ ap (given_or (last_duration opts)) (duration_if_timeout (positive d) c d)
duration-apply (with_measurement_duration d ∷ opts) c =
    duration-apply opts (if positive d then record c { measurement_duration = d } else c)
    ∙ ap (given_or (last_duration opts)) (duration_if (positive d) c d)
    ∙ given_or-otherwise (last_duration opts) (positive d) d c.measurement_duration
duration-apply (with_access_token s ∷ opts) c = duration-apply opts (record c { access_token = s })

-- Whatever options are given to `NewReporter`, the timeout of its configuration is that of the last option for
-- it which is positive, and 5 seconds if there is none; so is the measurement duration, with 30 seconds. Both
-- are positive.
pub new_config_times :
    (opts : List ReporterOption)
    → let c = new_config opts in
      (c.timeout ≡ given_or (last_timeout opts) (pos (5 * second)))
      × (c.measurement_duration ≡ given_or (last_duration opts) (pos (30 * second)))
      × (0 < pos_part c.timeout)
      × (0 < pos_part c.measurement_duration)
new_config_times opts =
    let (h, k) = apply_reporter_options-positive opts started refl refl in
    rw (after_defaults opts)
      (timeout-apply opts started, duration-apply opts started, ground arith, ground arith)
