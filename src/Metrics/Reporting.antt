-- ===== src/Metrics/Reporting.antt =====
-- internal/metrics/reporter.go: the reporter and its points.
pub mod Measuring
pub mod Totals
pub mod Created
pub mod Points
use Prim.Native.String.{String}
use lightstep_tracer_go.Metrics.System.{Floats, Metrics, Nic, Readings, Float, Cpu, measure}
use lightstep_tracer_go.Base.Int.{pos_part}
use lightstep_tracer_go.Time.{Time, Duration, second, zero_time, unix, nanosecond}
use lightstep_tracer_go.Metrics.{
  new_config, send, attributes_to_tags, SendError, Duration, get_labels, second, ReporterOption,
}
use lightstep_tracer_go.Proto
use lightstep_tracer_go.Base.{
  ℕ, List, Option, Text, Bool, ◌*◌, sub64, length, ◌%◌, ◌/◌, lookup, some, ◌⊎◌, ltb, [], inl,
  if◌then◌else◌, none, ◌||◌, inr, ◌∷◌, word_mod, leb, ◌++◌, true, int_max, codes, false,
}

pub data MetricKind : Type 0 where
  counter gauge : MetricKind

-- `metricspb.MetricPoint`; its duration is in seconds.
pub record MetricPoint : Type 0 where
  pub kind : MetricKind
  pub metric_name : Text
  pub labels : List Proto.KeyValue
  pub value : Float
  pub start : Proto.Timestamp
  pub duration : ℕ

pub record IngestRequest : Type 0 where
  pub idempotency_key : Text
  pub reporter : Proto.Reporter
  pub points : List MetricPoint

pub record Reporter : Type 0 where
  pub tracer_id : ℕ
  pub attributes : List (Text × Text)
  pub address : Text
  pub timeout : Duration
  pub measurement_duration : Duration
  pub access_token : Text
  pub stored : Metrics
  pub collector_reporter : Proto.Reporter
  pub labels : List Proto.KeyValue
  pub start : Time
  pub end : Time
  pub metrics_count : ℕ
  pub skipped_initial_report : Bool

-- `Metrics{}`; the zero of a `float64` has no bit set.
abbrev pub zero_metrics : Metrics
zero_metrics = record {
  process_cpu = record { user = 0; system = 0 };
  cpu = [];
  nic = [];
  memory = record { available = 0; total = 0; heap_alloc = 0 };
  runtime = record { num_gc = 0; num_goroutine = 0 };
}

unfoldable pub new_reporter : List ReporterOption → Reporter
unfolding new_config attributes_to_tags get_labels
new_reporter opts =
    let c = new_config opts in
    record {
      tracer_id = c.tracer_id;
      attributes = c.attributes;
      address = c.address ++ codes "/metrics";
      timeout = c.timeout;
      measurement_duration = c.measurement_duration;
      access_token = c.access_token;
      stored = zero_metrics;
      collector_reporter = record {
        reporter_id = c.tracer_id;
        tags = attributes_to_tags c.attributes;
      };
      labels = get_labels c.attributes;
      start = zero_time;
      end = zero_time;
      metrics_count = 0;
      skipped_initial_report = false;
    }

-- `int64(r.measurementDuration.Seconds())`, for a duration that is not negative.
abbrev pub measurement_seconds : Reporter → ℕ
measurement_seconds r = pos_part r.measurement_duration / second

-- The time that a number of intervals covers, in the word of an `int64`.
abbrev pub covered : Reporter → ℕ → ℕ
covered r intervals = (intervals * measurement_seconds r) % word_mod

pub add_float : Reporter → String → Float → MetricKind → ℕ → MetricPoint
add_float r key value kind intervals = record {
  kind = kind;
  metric_name = codes key;
  labels = r.labels;
  value = value;
  start = record { seconds = unix r.start; nanos = nanosecond r.start };
  duration = covered r intervals;
}

-- A missing entry of a map reads as the zero value.
abbrev pub stored_cpu : Reporter → Text → Cpu
stored_cpu r label = elim (lookup label r.stored.cpu) [
  | none ↦ record { user = 0; system = 0; usage = 0; total = 0 }
  | some c ↦ c
]

abbrev pub stored_nic : Reporter → Text → Nic
stored_nic r label = elim (lookup label r.stored.nic) [
  | none ↦ record { bytes_received = 0; bytes_sent = 0 }
  | some n ↦ n
]

module _ (float : Floats) where
  open float use {minus, of_uint}

  unfoldable pub cpu_points : Reporter → ℕ → List (Text × Cpu) → List MetricPoint
  unfolding add_float lookup
  cpu_points r intervals [] = []
  cpu_points r intervals ((label, c) ∷ m) =
      let old = stored_cpu r label in
      add_float r "cpu.sys" (minus c.system old.system) counter intervals
      ∷ add_float r "cpu.user" (minus c.user old.user) counter intervals
      ∷ add_float r "cpu.total" (minus c.total old.total) counter intervals
      ∷ add_float r "cpu.usage" (minus c.usage old.usage) counter intervals
      ∷ cpu_points r intervals m

  unfoldable pub nic_points : Reporter → ℕ → List (Text × Nic) → List MetricPoint
  unfolding add_float lookup
  nic_points r intervals [] = []
  nic_points r intervals ((label, n) ∷ m) =
      let old = stored_nic r label in
      let received = of_uint (sub64 n.bytes_received old.bytes_received) in
      let sent = of_uint (sub64 n.bytes_sent old.bytes_sent) in
      add_float r "net.bytes_recv" received counter intervals
      ∷ add_float r "net.bytes_sent" sent counter intervals
      ∷ nic_points r intervals m

  unfoldable pub points_of : Reporter → Metrics → ℕ → List MetricPoint
  unfolding add_float cpu_points nic_points
  points_of r m intervals =
      let old = r.stored in
      let user = minus m.process_cpu.user old.process_cpu.user in
      let sys = minus m.process_cpu.system old.process_cpu.system in
      let gc = of_uint (sub64 m.runtime.num_gc old.runtime.num_gc) in
      add_float r "runtime.go.cpu.user" user counter intervals
      ∷ add_float r "runtime.go.cpu.sys" sys counter intervals
      ∷ add_float r "runtime.go.gc.count" gc counter intervals
      ∷ add_float r "runtime.go.goroutine" (of_uint m.runtime.num_goroutine) gauge intervals
      ∷ add_float r "mem.available" (of_uint m.memory.available) gauge intervals
      ∷ add_float r "mem.total" (of_uint m.memory.total) gauge intervals
      ∷ add_float r "runtime.go.mem.heap_alloc" (of_uint m.memory.heap_alloc) gauge intervals
      ∷ (cpu_points r intervals m.cpu ++ nic_points r intervals m.nic)
