-- ===== src/Tracer/Create.antt =====
-- tracer.go: `CreateTracer` and `NewTracer`, from the user's options to a running tracer.
pub mod Started
use lightstep_tracer_go.Base.Int.{ℤ, pos, negsuc}
use lightstep_tracer_go.Propagation.Binary.{Codec}
use lightstep_tracer_go.Events.{Event, start_error}
use lightstep_tracer_go.Collector.Clients.{Dialled}
use lightstep_tracer_go.Time.{Time}
use lightstep_tracer_go.Metrics.{
  ReporterOption, with_tracer_id, with_access_token, with_timeout, with_address, with_attributes,
  with_measurement_duration,
}
use lightstep_tracer_go.Options.{Options}
use lightstep_tracer_go.Tracer.Propagate.{Propagators, create_propagators}
use lightstep_tracer_go.RawSpan.{Tags, Value}
use lightstep_tracer_go.Tracer.{Tracer, create_tracer}
use lightstep_tracer_go.Options.Addresses.{url_without_path}
use lightstep_tracer_go.Options.Initialize.{
  Environment, initialize, hostname_key, component_name_key,
}
use lightstep_tracer_go.Metrics.Reporting.{Reporter, new_reporter}
use lightstep_tracer_go.Collector.Connecting.{
  Network, CollectorClient, make_collector_client, connect_collector_client,
}
use lightstep_tracer_go.Base.{
  ℕ, List, text_eq, insert, lookup, Text, codes, none, lower, ◌⊎◌, [], Option, Bool, ◌∷◌, inl, not,
  some, ◌++◌, inr, ◌&&◌, to_lower,
}

-- What the function asks others: the environment of `Initialize`, the network, `fmt.Sprint`,
-- `runtime.Version`, the variable LS_METRICS_ENABLED, a random identifier, the clock, the outcome of a gRPC dial
-- with the clock then, and the encodings of the binary propagator.
pub record System : Type 0 where
  pub env : Environment
  pub net : Network
  pub sprint : Value → Text
  pub go_version : Text
  pub metrics_enabled : Text
  pub tracer_id : ℕ
  pub now : Time
  pub dialled : Dialled
  pub dialled_at : Time
  pub codec : Codec

-- What `CreateTracer` leaves running.
pub record Running : Type 0 where
  pub tracer : Tracer
  pub client : CollectorClient
  pub reporter : Reporter
  pub propagators : Propagators
  pub metrics_loop : Bool

abbrev pub platform_key : Text
platform_key = codes "lightstep.tracer_platform"

abbrev pub platform_version_key : Text
platform_version_key = codes "lightstep.tracer_platform_version"

abbrev pub tracer_version_key : Text
tracer_version_key = codes "lightstep.tracer_version"

abbrev pub tracer_version_value : Text
tracer_version_value = codes "0.25.0"

module _ (sys : System) where
  unfoldable pub sprint_tags : Tags → List (Text × Text) → List (Text × Text)
  unfolding insert
  sprint_tags [] attributes = attributes
  sprint_tags ((k, v) ∷ tags) attributes = sprint_tags tags (insert k (sys.sprint v) attributes)

  -- The tracer's own keys replace the user's.
  unfoldable pub tracer_attributes : Tags → List (Text × Text)
  unfolding sprint_tags insert
  tracer_attributes tags =
      let user = sprint_tags tags [] in
      let named = insert platform_key (codes "go") user in
      let versioned = insert platform_version_key sys.go_version named in
      insert tracer_version_key tracer_version_value versioned

  -- A missing attribute reads as the empty string.
  unfoldable pub attribute : Text → List (Text × Text) → Text
  unfolding lookup
  attribute k attributes = elim (lookup k attributes) [ none ↦ [] | some v ↦ v ]

  unfoldable pub reporter_options : Options → List (Text × Text) → List ReporterOption
  unfolding attribute url_without_path
  reporter_options opts attributes =
      with_tracer_id sys.tracer_id
      ∷ with_access_token opts.access_token
      ∷ with_timeout opts.system_metrics.timeout
      ∷ with_address (url_without_path opts.system_metrics.endpoint)
      ∷ with_attributes (
          (codes "lightstep.reporter_platform", codes "go")
          ∷ (codes "lightstep.reporter_platform_version", sys.go_version)
          ∷ (codes "lightstep.reporter_version", tracer_version_value)
          ∷ (hostname_key, attribute hostname_key attributes)
          ∷ (codes "service.version", attribute (codes "service.version") attributes)
          ∷ (component_name_key, attribute component_name_key attributes)
          ∷ [])
      ∷ with_measurement_duration opts.system_metrics.measurement_frequency
      ∷ []

  unfoldable pub metrics_loop_runs : Options → Bool
  unfolding text_eq lower
  metrics_loop_runs opts =
      not opts.system_metrics.disabled
      && not (text_eq (to_lower sys.metrics_enabled) (codes "false"))

  -- `opts.Propagators`
  module _ (user_propagators : Propagators) where
    unfoldable pub started : Options → CollectorClient → Running
    unfolding tracer_attributes reporter_options metrics_loop_runs create_propagators
    started opts client =
        let attributes = tracer_attributes opts.tags in
        record {
          tracer = create_tracer opts sys.tracer_id attributes sys.now;
          client = client;
          reporter = new_reporter (reporter_options opts attributes);
          propagators = create_propagators sys.codec user_propagators;
          metrics_loop = metrics_loop_runs opts;
        }

    unfoldable pub connected_tracer : Options → Text ⊎ CollectorClient → Text ⊎ Running
    unfolding started
    connected_tracer opts (inl err) = inl err
    connected_tracer opts (inr client) = inr (started opts client)

    unfoldable pub tracer_of_client : Options → Text ⊎ CollectorClient → Text ⊎ Running
    unfolding connected_tracer connect_collector_client
    tracer_of_client opts (inl err) = inl (codes "create collector client; err: " ++ err)
    tracer_of_client opts (inr client) =
        connected_tracer opts (connect_collector_client client sys.dialled_at sys.dialled)

    -- After `Initialize`. `none` is the panic of `make` for a negative size of the buffers.
    unfoldable pub sized_tracer : Options → ℤ → Option (Text ⊎ Running)
    unfolding tracer_of_client make_collector_client
    sized_tracer opts (pos n) = some (tracer_of_client opts (make_collector_client sys.net opts))
    sized_tracer opts (negsuc n) = none

    unfoldable pub tracer_of_options :
        Text ⊎ (Options × List Event) → Option (Text ⊎ Running) × List Event
    unfolding sized_tracer
    tracer_of_options (inl err) = (some (inl (codes "init; err: " ++ err)), [])
    tracer_of_options (inr (opts, events)) = (sized_tracer opts opts.max_buffered_spans, events)

    -- `CreateTracer`: a panic, an error or the running tracer, and the events on the way.
    unfoldable pub start_tracer : Options → Option (Text ⊎ Running) × List Event
    unfolding tracer_of_options initialize
    start_tracer opts = tracer_of_options (initialize sys.env opts)

    -- `NewTracer`: a panic, nil or the running tracer.
    unfoldable pub new_tracer_of :
        Option (Text ⊎ Running) × List Event → Option (Option Running) × List Event
    new_tracer_of (none, events) = (none, events)
    new_tracer_of (some (inl err), events) = (some none, events ++ (start_error err ∷ []))
    new_tracer_of (some (inr r), events) = (some (some r), events)

    unfoldable pub new_tracer : Options → Option (Option Running) × List Event
    unfolding start_tracer new_tracer_of
    new_tracer opts = new_tracer_of (start_tracer opts)
