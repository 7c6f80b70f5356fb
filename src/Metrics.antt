-- ===== src/Metrics.antt =====
-- internal/metrics/reporter.go: the configuration of the reporter, its labels, and the retries of `send`.
pub mod Retries
pub mod Reporting
pub mod Settings
pub mod System
use lightstep_tracer_go.Proto.{KeyValue, string_value}
use lightstep_tracer_go.Base.Int.{pos_part, pos}
use lightstep_tracer_go.Time.{Duration, second}
use lightstep_tracer_go.RawSpan.{copy_items}
use lightstep_tracer_go.Base.{
  ℕ, ◌^◌, [], Bool, Text, List, if◌then◌else◌, ◌⊎◌, ltb, ◌==◌, ◌-◌, codes, ◌++◌, ◌∷◌, text_eq, ◌||◌,
  Option, ◌*◌, ◌/◌, inl, none, length, ◌+◌, suc, some, true, inr, not, zero, false,
}

pub record Config : Type 0 where
  pub tracer_id : ℕ
  pub attributes : List (Text × Text)
  pub address : Text
  pub timeout : Duration
  pub measurement_duration : Duration
  pub access_token : Text

-- The `WithReporter…` options.
pub data ReporterOption : Type 0 where
  with_tracer_id : ℕ → ReporterOption
  with_attributes : List (Text × Text) → ReporterOption
  with_address : Text → ReporterOption
  with_timeout : Duration → ReporterOption
  with_measurement_duration : Duration → ReporterOption
  with_access_token : Text → ReporterOption

abbrev pub positive : Duration → Bool
positive d = ltb 0 (pos_part d)

pub apply_reporter_option : ReporterOption → Config → Config
apply_reporter_option (with_tracer_id n) c = record c { tracer_id = n }
apply_reporter_option (with_attributes m) c = record c { attributes = copy_items m [] }
apply_reporter_option (with_address s) c = record c { address = s }
apply_reporter_option (with_timeout d) c = if positive d then record c { timeout = d } else c
apply_reporter_option (with_measurement_duration d) c =
    if positive d then record c { measurement_duration = d } else c
apply_reporter_option (with_access_token s) c = record c { access_token = s }

pub apply_reporter_options : List ReporterOption → Config → Config
unfolding apply_reporter_option
apply_reporter_options [] c = c
apply_reporter_options (o ∷ opts) c = apply_reporter_options opts (apply_reporter_option o c)

abbrev pub zero_config : Config
zero_config = record {
  tracer_id = 0;
  attributes = [];
  address = [];
  timeout = pos 0;
  measurement_duration = pos 0;
  access_token = [];
}

abbrev pub default_opts : List ReporterOption
default_opts =
    with_attributes []
    ∷ with_address (codes "https://ingest.lightstep.com:443")
    ∷ with_timeout (pos (5 * second))
    ∷ with_measurement_duration (pos (30 * second))
    ∷ []

-- `newConfig`
pub new_config : List ReporterOption → Config
unfolding apply_reporter_options
new_config opts = apply_reporter_options (default_opts ++ opts) zero_config

unfoldable pub attributes_to_tags : List (Text × Text) → List KeyValue
attributes_to_tags [] = []
attributes_to_tags ((k, v) ∷ items) =
    record { key = k; value = string_value v } ∷ attributes_to_tags items

abbrev pub filters : List Text
filters =
    codes "lightstep.component_name" ∷ codes "service.version" ∷ codes "lightstep.hostname" ∷ []

-- The inner loop of `getLabels`, for one attribute.
unfoldable pub label_of : List Text → Text → Text → List KeyValue
label_of [] k v = []
label_of (l ∷ ls) k v =
    if text_eq k l
    then (if ltb 0 (length v) then record { key = k; value = string_value v } ∷ [] else [])
    else label_of ls k v

unfoldable pub get_labels : List (Text × Text) → List KeyValue
unfolding label_of
get_labels [] = []
get_labels ((k, v) ∷ items) = label_of filters k v ++ get_labels items

unfoldable pub retryable : ℕ → Bool
retryable code = code == 429 || code == 502 || code == 504 || code == 503 || code == 408

-- `random` is what `mathrand.Intn` returns.
unfoldable pub calculate_backoff : ℕ → ℕ → ℕ
calculate_backoff random retries =
    let multiplier = 2 ^ (retries - 1) in multiplier * random + multiplier * 1000

pub data SendError : Type 0 where
  transport_error : Text → SendError
  request_failed : ℕ → SendError
  too_many_retries : SendError

-- What one answer decides: an error of the client, or the status code, which may call for a retry.
unfoldable pub judge : Text ⊎ ℕ → Option (Option SendError)
unfolding retryable
judge (inl err) = some (some (transport_error err))
judge (inr code) =
    if code == 200
    then some none
    else if not (retryable code)
    then some (some (request_failed code))
    else none

-- The time after which `send` gives up, in milliseconds.
abbrev pub expired : Duration → ℕ → Bool
expired timeout waited = ltb (pos_part timeout) (waited * 1_000_000)

-- The loop of `send`, on fuel: the number of requests made and the error. `answer` is what the server
-- says to each request, and `random` what each retry draws. Integers stay in their range for timeouts
-- below a hundred years; the timeout is positive.
unfoldable pub send_loop :
    ℕ → Duration → (ℕ → ℕ) → (ℕ → Text ⊎ ℕ) → ℕ → ℕ → Option (ℕ × Option SendError)
unfolding judge calculate_backoff
send_loop zero timeout random answer retries waited = none
send_loop (suc fuel) timeout random answer retries waited = elim (judge (answer retries)) [
  | some result ↦ some (retries + 1, result)
  | none ↦ elim (expired timeout waited) [
    | true ↦ some (retries + 1, some too_many_retries)
    | false ↦
        send_loop fuel timeout random answer (retries + 1)
          (waited + calculate_backoff (random retries) (retries + 1))
  ]
]

-- Each retry waits for a second at least.
abbrev pub enough_tries : Duration → ℕ
enough_tries timeout = pos_part timeout / second + 2

-- `send`, once the request is made.
unfoldable pub send : Duration → (ℕ → ℕ) → (ℕ → Text ⊎ ℕ) → Option (ℕ × Option SendError)
unfolding send_loop
send timeout random answer = send_loop (enough_tries timeout) timeout random answer 0 0
