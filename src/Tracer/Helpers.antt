-- ===== src/Tracer/Helpers.antt =====
-- tracer_helpers.go and tracer_0_14.go: the helpers that find the tracer behind an `opentracing.Tracer`, and the
-- wrapper with the interface of v0.14. A `Tracer` is always a `*tracerImpl` here.
pub mod Closing
use lightstep_tracer_go.Events.{Event, unsupported_tracer}
use lightstep_tracer_go.Events.Texts.{unsupported_tracer_text}
use lightstep_tracer_go.Options.{Options}
use lightstep_tracer_go.Tracer.{Tracer, Output, emit}
use lightstep_tracer_go.Tracer.Create.{System, Running, new_tracer}
use lightstep_tracer_go.Tracer.Propagate.{Propagators}
use lightstep_tracer_go.Tracer.Flush.{flush, Run}
use lightstep_tracer_go.Tracer.Loop.{close}
use lightstep_tracer_go.Collector.{Store, Pointer, ReportRequest}
use lightstep_tracer_go.LogEncoder.{Library}
use lightstep_tracer_go.Base.{
  ℕ, Text, List, Option, Bool, false, ◌⊎◌, inl, inr, some, none, codes, [], ◌∷◌,
}

-- An `opentracing.Tracer`: nil, one of this package, the wrapper of v0.14 with the tracer in it, or one of
-- another type.
pub data AnyTracer : Type 0 where
  nil_tracer : AnyTracer
  tracer_impl : Tracer → AnyTracer
  tracer_v0_14 : AnyTracer → AnyTracer
  other_tracer : Text → AnyTracer

-- `newEventUnsupportedTracer`
unfoldable pub unsupported : Text → Event
unfolding unsupported_tracer_text
unsupported name = unsupported_tracer (unsupported_tracer_text name)

-- What `reflect.TypeOf` of nil is printed as.
abbrev pub nil_name : Text
nil_name = codes "<nil>"

-- `GetLightStepAccessToken`
unfoldable pub get_access_token : AnyTracer → Event ⊎ Text
unfolding unsupported
get_access_token (tracer_impl t) = inr t.opts.access_token
get_access_token (tracer_v0_14 inner) = get_access_token inner
get_access_token nil_tracer = inl (unsupported nil_name)
get_access_token (other_tracer name) = inl (unsupported name)

-- `GetLightStepReporterID`
unfoldable pub get_reporter_id : AnyTracer → Event ⊎ ℕ
unfolding unsupported
get_reporter_id (tracer_impl t) = inr t.reporter_id
get_reporter_id (tracer_v0_14 inner) = get_reporter_id inner
get_reporter_id nil_tracer = inl (unsupported nil_name)
get_reporter_id (other_tracer name) = inl (unsupported name)

-- The interface value of what `NewTracer` returns.
abbrev pub wrapped : Option Running → AnyTracer
wrapped none = nil_tracer
wrapped (some r) = tracer_impl r.tracer

-- `NewTracerv0_14`; `none` is the panic of `NewTracer`.
unfoldable pub new_tracer_v0_14 : System → Propagators → Options → Option AnyTracer × List Event
unfolding new_tracer
new_tracer_v0_14 sys user opts =
    let (made, events) = new_tracer sys user opts in
    (elim made [ none ↦ none | some r ↦ some (tracer_v0_14 (wrapped r)) ], events)

module _ (lib : Library) (translate_request : Store → Pointer → Text ⊎ ReportRequest) where
  -- `Flush`
  unfoldable pub flush_any : AnyTracer → Run → Store → AnyTracer × List Output
  unfolding unsupported flush
  flush_any (tracer_impl t) run store =
      let (t', out) = flush lib translate_request t run store in (tracer_impl t', out)
  flush_any (tracer_v0_14 inner) run store =
      let (inner', out) = flush_any inner run store in (tracer_v0_14 inner', out)
  flush_any nil_tracer run store = (nil_tracer, emit (unsupported nil_name) ∷ [])
  flush_any (other_tracer name) run store = (other_tracer name, emit (unsupported name) ∷ [])

  -- `Close`
  unfoldable pub close_any : AnyTracer → Bool → Option Text → Run → Store → AnyTracer × List Output
  unfolding unsupported close
  close_any (tracer_impl t) cancelled failed run store =
      let (t', out) = close lib translate_request t cancelled failed run store in
      (tracer_impl t', out)
  close_any (tracer_v0_14 inner) cancelled failed run store =
      let (inner', out) = close_any inner cancelled failed run store in (tracer_v0_14 inner', out)
  close_any nil_tracer cancelled failed run store = (nil_tracer, emit (unsupported nil_name) ∷ [])
  close_any (other_tracer name) cancelled failed run store =
      (other_tracer name, emit (unsupported name) ∷ [])

  -- `FlushLightStepTracer`, which returns the event that `Flush` emits.
  unfoldable pub flush_lightstep_tracer :
      AnyTracer → Run → Store → (AnyTracer × List Output) × Option Event
  unfolding unsupported flush
  flush_lightstep_tracer (tracer_impl t) run store =
      let (t', out) = flush lib translate_request t run store in ((tracer_impl t', out), none)
  flush_lightstep_tracer (tracer_v0_14 inner) run store =
      let ((inner', out), err) = flush_lightstep_tracer inner run store in
      ((tracer_v0_14 inner', out), err)
  flush_lightstep_tracer nil_tracer run store = ((nil_tracer, []), some (unsupported nil_name))
  flush_lightstep_tracer (other_tracer name) run store =
      ((other_tracer name, []), some (unsupported name))

  -- `CloseTracer`, whose context is never done.
  unfoldable pub close_tracer :
      AnyTracer → Option Text → Run → Store → (AnyTracer × List Output) × Option Event
  unfolding unsupported close
  close_tracer (tracer_impl t) failed run store =
      let (t', out) = close lib translate_request t false failed run store in
      ((tracer_impl t', out), none)
  close_tracer (tracer_v0_14 inner) failed run store =
      let ((inner', out), err) = close_tracer inner failed run store in
      ((tracer_v0_14 inner', out), err)
  close_tracer nil_tracer failed run store = ((nil_tracer, []), some (unsupported nil_name))
  close_tracer (other_tracer name) failed run store =
      ((other_tracer name, []), some (unsupported name))

  -- `tracerv0_14.Close`, which panics without a tracer.
  unfoldable pub v0_14_close :
      Option Tracer → Option Text → Run → Store → Option (Option Tracer × List Output)
  unfolding close
  v0_14_close none failed run store = none
  v0_14_close (some t) failed run store =
      let (t', out) = close lib translate_request t false failed run store in some (some t', out)

  -- `tracerv0_14.Flush`, which panics without a tracer.
  unfoldable pub v0_14_flush : Option Tracer → Run → Store → Option (Option Tracer × List Output)
  unfolding flush
  v0_14_flush none run store = none
  v0_14_flush (some t) run store =
      let (t', out) = flush lib translate_request t run store in some (some t', out)
