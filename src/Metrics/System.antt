-- ===== src/Metrics/System.antt =====
-- internal/metrics/metrics.go: a snapshot of the process and of the system. What gopsutil and the runtime
-- return is the argument `Readings`. A `float64` is its bit pattern.
use lightstep_tracer_go.Base.{
  ℕ, Text, List, Option, ◌⊎◌, inl, inr, insert, some, none, [], ◌∷◌, ◌≡◌, arith,
}

abbrev pub Float : Type 0
Float = ℕ

-- The operations on `float64` that the code uses, and the conversion of a `uint64`.
pub record Floats : Type 0 where
  pub plus : Float → Float → Float
  pub minus : Float → Float → Float
  pub of_uint : ℕ → Float

pub record Runtime : Type 0 where
  pub num_gc : ℕ
  pub num_goroutine : ℕ

pub record ProcessCpu : Type 0 where
  pub user : Float
  pub system : Float

pub record Cpu : Type 0 where
  pub user : Float
  pub system : Float
  pub usage : Float
  pub total : Float

pub record Nic : Type 0 where
  pub bytes_received : ℕ
  pub bytes_sent : ℕ

pub record Memory : Type 0 where
  pub available : ℕ
  pub total : ℕ
  pub heap_alloc : ℕ

pub record Metrics : Type 0 where
  pub process_cpu : ProcessCpu
  pub cpu : List (Text × Cpu)
  pub nic : List (Text × Nic)
  pub memory : Memory
  pub runtime : Runtime

-- `cpu.TimesStat` and `net.IOCountersStat` of gopsutil
pub record TimesStat : Type 0 where
  pub cpu : Text
  pub user : Float
  pub system : Float
  pub idle : Float
  pub nice : Float
  pub iowait : Float
  pub irq : Float
  pub softirq : Float
  pub steal : Float

pub record IoCountersStat : Type 0 where
  pub name : Text
  pub bytes_sent : ℕ
  pub bytes_recv : ℕ

-- What the calls of one `Measure` return: an error or a value. The virtual memory is what is available and
-- the total.
pub record Readings : Type 0 where
  pub process_error : Option Text
  pub process_times : Text ⊎ ProcessCpu
  pub system_times : Text ⊎ List TimesStat
  pub net_stats : Text ⊎ List IoCountersStat
  pub runtime : Runtime
  pub heap_alloc : ℕ
  pub virtual_memory : Text ⊎ (ℕ × ℕ)

infixl 5 ◌>>=◌ ◌>>◌
abbrev ◌>>=◌ : {A B : Type 0} → Text ⊎ A → (A → Text ⊎ B) → Text ⊎ B
inl err >>= f = inl err
inr a >>= f = f a

abbrev ◌>>◌ : {B : Type 0} → Option Text → Text ⊎ B → Text ⊎ B
none >> k = k
some err >> k = inl err

module _ (float : Floats) where
  abbrev pub usage_of : TimesStat → Float
  usage_of t =
      float.plus
        (float.plus
          (float.plus (float.plus (float.plus (float.plus t.user t.system) t.nice) t.iowait) t.irq)
          t.softirq)
        t.steal

  unfoldable pub cpu_of : TimesStat → Cpu
  cpu_of t = record {
    user = t.user;
    system = t.system;
    usage = usage_of t;
    total = float.plus (usage_of t) t.idle;
  }

  -- The two loops of `Measure`. A later entry of the same name replaces an earlier one.
  unfoldable pub collect_cpu : List TimesStat → List (Text × Cpu) → List (Text × Cpu)
  unfolding cpu_of insert
  collect_cpu [] m = m
  collect_cpu (t ∷ times) m = collect_cpu times (insert t.cpu (cpu_of t) m)

unfoldable pub collect_nic : List IoCountersStat → List (Text × Nic) → List (Text × Nic)
unfolding insert
collect_nic [] m = m
collect_nic (c ∷ stats) m =
    collect_nic stats
      (insert c.name (record { bytes_received = c.bytes_recv; bytes_sent = c.bytes_sent }) m)

-- `Measure`
unfoldable pub measure : Floats → Readings → Text ⊎ Metrics
unfolding collect_cpu collect_nic
measure float r = do
  r.process_error
  process_times ← r.process_times
  system_times ← r.system_times
  net_stats ← r.net_stats
  (available, total) ← r.virtual_memory
  inr (record {
    process_cpu = process_times;
    cpu = collect_cpu float system_times [];
    nic = collect_nic net_stats [];
    memory = record { available = available; total = total; heap_alloc = r.heap_alloc };
    runtime = r.runtime;
  })

-- The snapshot has the counters of the runtime as they were read.
pub measure-runtime :
    (float : Floats) (r : Readings) (m : Metrics) → measure float r ≡ inr m → m.runtime ≡ r.runtime
unfolding measure
measure-runtime float r m h = ground arith
