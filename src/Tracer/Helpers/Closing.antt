-- ===== src/Tracer/Helpers/Closing.antt =====
-- tracer_helpers.go and tracer_0_14.go: the end of what `NewTracerv0_14` returns.
use lightstep_tracer_go.Events.{FlushError, flush_error}
use lightstep_tracer_go.Options.{Options}
use lightstep_tracer_go.Tracer.{Output, emit}
use lightstep_tracer_go.Tracer.Create.{Running}
use lightstep_tracer_go.Tracer.Loop.{close}
use lightstep_tracer_go.Tracer.Helpers.{
  AnyTracer, tracer_v0_14, tracer_impl, nil_tracer, unsupported, nil_name, flush_any, close_any,
}
use lightstep_tracer_go.Tracer.Flush.{Run}
use lightstep_tracer_go.Collector.{Store, Pointer, ReportRequest}
use lightstep_tracer_go.LogEncoder.{Library}
use lightstep_tracer_go.Base.{Text, List, Option, Bool, false, ◌⊎◌, some, none, [], ◌∷◌, ◌≡◌}

abbrev pub refusal : List Output
refusal = emit (unsupported nil_name) ∷ []

module _ (lib : Library) (translate_request : Store → Pointer → Text ⊎ ReportRequest)
    (cancelled : Bool) (failed failed' : Option Text) (run run' : Run) (store : Store) where
  -- What the helpers make of the wrapper, by what `NewTracer` has returned in it: a tracer that `Close` has
  -- ended, or a wrapper of nil that every call finds unsupported, or no wrapper after a panic.
  abbrev pub Ended : Option (Option Running) → Option AnyTracer → Type 0
  Ended none w = w ≡ none
  Ended (some none) w =
      let nothing = tracer_v0_14 nil_tracer in
      (w ≡ some nothing)
      × (close_any lib translate_request nothing false failed run store ≡ (nothing, refusal))
      × (flush_any lib translate_request nothing run' store ≡ (nothing, refusal))
  Ended (some (some r)) w =
      let (t', out) = close lib translate_request r.tracer false failed run store in
      let opened = tracer_v0_14 (tracer_impl r.tracer) in
      let ended = tracer_v0_14 (tracer_impl t') in
      (w ≡ some opened)
      × (close_any lib translate_request opened false failed run store ≡ (ended, out))
      × (t'.connection ≡ false)
      × (close_any lib translate_request ended cancelled failed' run' store ≡ (ended, []))
      × ((e : FlushError) × (flush_any lib translate_request ended run' store
            ≡ (ended, emit (flush_error e) ∷ [])))
