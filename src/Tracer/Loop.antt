-- ===== src/Tracer/Loop.antt =====
-- tracer.go: `reportLoop` and `Close`.
use lightstep_tracer_go.Events.{connection_error}
use lightstep_tracer_go.Time.{Time}
use lightstep_tracer_go.Tracer.Flush.{flush, Run}
use lightstep_tracer_go.Tracer.{
  ReportLoop, Tracer, should_flush_locked, reconnect_client, running, Time, Output, closed, left,
  emit, connection_error, close_connection,
}
use lightstep_tracer_go.Collector.{Store, Pointer, ReportRequest}
use lightstep_tracer_go.LogEncoder.{Library}
use lightstep_tracer_go.Base.{
  Text, ◌⊎◌, Bool, Option, true, List, false, not, ◌&&◌, none, if◌then◌else◌, [], ◌++◌, some, ◌∷◌,
}

-- The event of an error of `conn.Close`.
abbrev pub close_error : Option Text → List Output
close_error none = []
close_error (some err) = emit (connection_error err) ∷ []

-- The `select` of `Close`: does it receive from `reportLoopClosedChannel`, which only a loop that is
-- still there to see `closeReportLoopChannel` closes? If not, the call waits for its context.
unfoldable pub loop_closes : Tracer → Bool
loop_closes t = elim (t.report_loop) [ running ↦ true | left ↦ false | closed ↦ true ]

-- A loop that runs sees `closeReportLoopChannel` and returns.
abbrev pub loop_after : ReportLoop → ReportLoop
loop_after running = closed
loop_after left = left
loop_after closed = closed

module _ (lib : Library) (translate_request : Store → Pointer → Text ⊎ ReportRequest) where
  -- One tick of the report loop, read at `now`: `reconnect` is the answer of `ShouldReconnect`, and
  -- `connected` the result of `ConnectClient`.
  unfoldable pub tick : Tracer → Time → Bool → Option Text → Run → Store → Tracer × List Output
  unfolding should_flush_locked flush reconnect_client
  tick t now should_reconnect connected run store =
      let reconnect = not t.report_in_flight && should_reconnect in
      if t.disabled
      then (record t { report_loop = left }, [])
      else (let (t₁, out₁) =
            if should_flush_locked t now
            then flush lib translate_request t run store
            else (t, []) in
          let (t₂, out₂) = if reconnect then reconnect_client t₁ connected else (t₁, []) in
          (t₂, out₁ ++ out₂))

  -- `Close`. `cancelled` says that the `select` found the context done, though the loop may have returned,
  -- too; `failed` is the error of the close of the connection.
  unfoldable pub close : Tracer → Bool → Option Text → Run → Store → Tracer × List Output
  unfolding flush loop_closes
  close t cancelled failed run store =
      let t₁ = record t { close_called = true; report_loop = loop_after t.report_loop } in
      let (t₂, out₁) = flush lib translate_request t₁ run store in
      if t.close_called
      then (t, [])
      else if loop_closes t && not cancelled
      then (
        record t₂ { connection = false },
        out₁ ++ (if t₂.connection then close_connection ∷ close_error failed else []),
      )
      else (t₁, [])
