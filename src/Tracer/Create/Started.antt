-- ===== src/Tracer/Create/Started.antt =====
-- tracer.go: what `NewTracer` returns.
use lightstep_tracer_go.Options.Addresses.{url_without_path}
use lightstep_tracer_go.Events.{Event, start_error}
use lightstep_tracer_go.Tracer.Propagate.{Propagators, find_propagator, create_propagators}
use lightstep_tracer_go.Tracer.Propagate.Choice.{last_propagator}
use lightstep_tracer_go.Collector.Connecting.{
  make_collector_client, CollectorClient, connect_collector_client,
}
use lightstep_tracer_go.Options.Initialize.{validate, default_options}
use lightstep_tracer_go.RawSpan.{Tags}
use lightstep_tracer_go.Base.Int.{negsuc, pos_part}
use lightstep_tracer_go.Options.Defaults.{IsReady}
use lightstep_tracer_go.Options.{Options}
use lightstep_tracer_go.Tracer.{running}
use lightstep_tracer_go.Tracer.Create.{
  System, Running, Tags, platform_key, platform_version_key, tracer_version_key,
  tracer_version_value, metrics_loop_runs, url_without_path,
}
use lightstep_tracer_go.Base.{
  ℕ, Text, lookup, ◌≡◌, some, true, false, codes, ◌++◌, inl, inr, List, Option, ◌∷◌, none, [], ◌<◌,
  otherwise,
}

-- A tracer that has been started.
pub record Started (sys : System) (user : Propagators) (r : Running) : Type 0 where
  pub ready : IsReady r.tracer.opts
  pub connected : r.tracer.connection ≡ true
  pub enabled : r.tracer.disabled ≡ false
  pub loop_runs : r.tracer.report_loop ≡ running
  pub not_closed : r.tracer.close_called ≡ false
  pub buffer : r.tracer.buffer.capacity ≡ pos_part r.tracer.opts.max_buffered_spans
  pub room : 0 < r.tracer.buffer.capacity
  pub flushing : r.tracer.flushing.capacity ≡ pos_part r.tracer.opts.max_buffered_spans
  pub platform : lookup platform_key r.tracer.attributes ≡ some (codes "go")
  pub platform_version : lookup platform_version_key r.tracer.attributes ≡ some sys.go_version
  pub version : lookup tracer_version_key r.tracer.attributes ≡ some tracer_version_value
  pub chosen :
      (f : ℕ)
      → find_propagator f r.propagators
        ≡ otherwise (last_propagator f user) (find_propagator f (create_propagators sys.codec []))
  pub timeout : r.reporter.timeout ≡ r.tracer.opts.system_metrics.timeout
  pub frequency :
      r.reporter.measurement_duration ≡ r.tracer.opts.system_metrics.measurement_frequency
  pub loop : r.metrics_loop ≡ metrics_loop_runs sys r.tracer.opts

-- The causes of a failure, with the error of each.
pub data Cause (sys : System) (opts : Options) (err : Text) : Type 0 where
  invalid :
      (e : Text)
      → validate sys.env opts ≡ some e
      → err ≡ codes "init; err: " ++ e
      → Cause sys opts err
  no_client :
      (e : Text)
      → make_collector_client sys.net (default_options sys.env opts) ≡ inl e
      → err ≡ codes "create collector client; err: " ++ e
      → Cause sys opts err
  no_connection :
      (c : CollectorClient)
      → make_collector_client sys.net (default_options sys.env opts) ≡ inr c
      → connect_collector_client c sys.dialled_at sys.dialled ≡ inl err
      → Cause sys opts err

-- What `NewTracer` comes to, with its events: a panic, nil or a tracer.
abbrev pub Returned : System → Propagators → Options → Option (Option Running) × List Event → Type 0
Returned sys user opts (none, events) =
    (n : ℕ) × (opts.max_buffered_spans ≡ negsuc n) × (validate sys.env opts ≡ none)
Returned sys user opts (some none, events) =
    (err : Text) × (before : List Event) × (events ≡ before ++ (start_error err ∷ []))
    × Cause sys opts err
Returned sys user opts (some (some r), events) = Started sys user r × (validate sys.env opts ≡ none)
