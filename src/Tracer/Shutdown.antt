-- ===== src/Tracer/Shutdown.antt =====
-- tracer.go: the tracer that is closed, and the first tick of the report loop.
use lightstep_tracer_go.Tracer.{closed, close_connection, reconnect_client}
use lightstep_tracer_go.Tracer.Loop.{close_error}
use lightstep_tracer_go.Tracer.Once.{close_called-flush}
use lightstep_tracer_go.Events.{FlushError, flush_error, tracer_is_disabled, tracer_closed}
use lightstep_tracer_go.Tracer.Loop.{tick, close, loop_closes, loop_after}
use lightstep_tracer_go.Time.{Time, Duration, sub, add, zero_time}
use lightstep_tracer_go.Tracer.Flush.{flush, flush_buffer, Run}
use lightstep_tracer_go.Base.Int.{pos, ltb_ℤ}
use lightstep_tracer_go.Options.{Options}
use lightstep_tracer_go.Collector.{Store, Pointer, ReportRequest}
use lightstep_tracer_go.Tracer.{
  should_flush_locked, create_tracer, Options, Tracer, pre_flush, Time, running, FlushError, emit,
  closed_text,
}
use lightstep_tracer_go.LogEncoder.{Library}
use lightstep_tracer_go.Base.{
  ℕ, Text, List, ◌≡◌, ◌⊎◌, ◌<◌, int_max, Option, true, ◌-◌, Bool, false, ◌≤◌, [], some, ◌∷◌,
  if◌then◌else◌, ap, ◌∙◌, Bool-cases, sym, refl, inl, inr, arith, not, if_true, if_false, ◌&&◌,
  ◌++◌,
}

loop_closes-running : (t : Tracer) → t.report_loop ≡ running → loop_closes t ≡ true
unfolding loop_closes
loop_closes-running t h = rw h refl

module _ (lib : Library) (translate_request : Store → Pointer → Text ⊎ ReportRequest) where
  pre_flush_refuses :
      (t : Tracer) (now : Time)
      → (t.disabled ≡ true) ⊎ (t.connection ≡ false)
      → (e : FlushError) × (pre_flush t now ≡ (some e, t))
        × (e.err ≡ closed_text)
        × (e.state ≡ (if t.disabled then tracer_is_disabled else tracer_closed))
  unfolding pre_flush
  pre_flush_refuses t now h = elim (Bool-cases t.disabled) [
    | inl d ↦ (
      record { err = closed_text; state = tracer_is_disabled },
      if_true _ _ d,
      refl,
      sym (if_true _ _ d),
    )
    | inr d ↦ elim h [
      | inl d' ↦ absurd (ground arith)
      | inr c ↦ (
        record { err = closed_text; state = tracer_closed },
        if_false _ _ d ∙ if_true _ _ (ap not c),
        refl,
        sym (if_false _ _ d),
      )
    ]
  ]

  -- A disabled tracer and a closed one refuse to flush: one error event with the text for the closed
  -- tracer, whose state says which of the two it is, and no change.
  pub flush_refused :
      (t : Tracer) (run : Run) (store : Store)
      → (t.disabled ≡ true) ⊎ (t.connection ≡ false)
      → (e : FlushError) × (flush lib translate_request t run store
          ≡ (t, emit (flush_error e) ∷ []))
        × (e.err ≡ closed_text)
        × (e.state ≡ (if t.disabled then tracer_is_disabled else tracer_closed))
  unfolding flush flush_buffer
  flush_refused t run store h =
      let (e, refused, err, state) = pre_flush_refuses t run.now h in
      (e, ap (λ r. flush_buffer lib translate_request r.0 r.1 run store) refused, err, state)

  pub close_called_again :
      (t : Tracer) (cancelled : Bool) (failed : Option Text) (run : Run) (store : Store)
      → t.close_called ≡ true
      → close lib translate_request t cancelled failed run store ≡ (t, [])
  unfolding close
  close_called_again t cancelled failed run store h = if_true _ _ h

  close_running :
      (t : Tracer) (failed : Option Text) (run : Run) (store : Store)
      → t.report_loop ≡ running
      → t.close_called ≡ false
      → let (t₂, out) =
          flush lib translate_request
            (record t { close_called = true; report_loop = closed })
            run
            store in
        close lib translate_request t false failed run store ≡ (
          record t₂ { connection = false },
          out ++ (if t₂.connection then close_connection ∷ close_error failed else []),
        )
  unfolding close
  close_running t failed run store h k =
      if_false _ _ k
      ∙ if_true _ _ (ap (λ b. b && true) (loop_closes-running t h))
      ∙ ap
          (λ l.
            let (t₂, out) =
              flush lib translate_request
                (record t { close_called = true; report_loop = loop_after l }) run store in
            (
              record t₂ { connection = false },
              out ++ (if t₂.connection then close_connection ∷ close_error failed else []),
            ))
          h

  -- `Close` of a tracer whose report loop runs, with a context that is not done before the loop has returned:
  -- it flushes, with the events of that flush, closes the connection that there is then, and leaves a tracer
  -- without one: every further `Close` does nothing, and every further flush is refused.
  pub close_lem :
      (t : Tracer) (cancelled : Bool) (failed failed' : Option Text) (run run' : Run)
      (store : Store)
      → t.report_loop ≡ running
      → t.close_called ≡ false
      → let (t₂, out₂) =
          flush lib translate_request
            (record t { close_called = true; report_loop = closed })
            run
            store in
        let (t', out) = close lib translate_request t false failed run store in
        (out ≡ out₂ ++ (if t₂.connection then close_connection ∷ close_error failed else []))
        × (t' ≡ record t₂ { connection = false })
        × (t'.connection ≡ false)
        × (close lib translate_request t' cancelled failed' run' store ≡ (t', []))
        × ((e : FlushError) × (flush lib translate_request t' run' store
              ≡ (t', emit (flush_error e) ∷ [])))
  close_lem t cancelled failed failed' run run' store h k =
      let start = record t { close_called = true; report_loop = closed } in
      let t' = (close lib translate_request t false failed run store).0 in
      let done = close_running t failed run store h k in
      let no_connection : t'.connection ≡ false = ap (λ r. r.0.connection) done in
      let called : t'.close_called ≡ true =
        ap (λ r. r.0.close_called) done
        ∙ close_called-flush lib translate_request start run store in
      let (e, refused, err, state) = flush_refused t' run' store (inr no_connection) in
      (
        ap (λ r. r.1) done,
        ap (λ r. r.0) done,
        no_connection,
        close_called_again t' cancelled failed' run' store called,
        (e, refused),
      )

long_ago :
    (reporting shortest : Duration) (now period minimal : ℕ)
    → reporting ≡ pos period
    → shortest ≡ pos minimal
    → period < int_max - 1
    → int_max ≤ now
    → ltb_ℤ reporting (sub (add now shortest) zero_time) ≡ true
long_ago reporting shortest now period minimal p m small late = rw (p, m) (ground arith)

first_tick_due :
    (opts : Options) (guid : ℕ) (attributes : List (Text × Text)) (created now period minimal : ℕ)
    → opts.reporting_period ≡ pos period
    → opts.min_reporting_period ≡ pos minimal
    → period < int_max - 1
    → int_max ≤ now
    → should_flush_locked (create_tracer opts guid attributes created) now ≡ true
unfolding should_flush_locked create_tracer
first_tick_due opts guid attributes created now period minimal p m small late =
    if_true _ _
      (long_ago opts.reporting_period opts.min_reporting_period now period minimal p m small late)

-- The first tick of the report loop, if the program has not called the tracer before, flushes, however short
-- the time since the tracer was made and however empty its buffer: no report was attempted, and the time since
-- then is cut to the longest `Duration`. This is for a clock that is more than 292 years after the year 1, a
-- minimal period that is not negative, and a reporting period below the longest `Duration`.
pub first_tick_flushes :
    (lib : Library) (translate_request : Store → Pointer → Text ⊎ ReportRequest) (opts : Options)
    (guid : ℕ) (attributes : List (Text × Text)) (created now period minimal : ℕ)
    (connected : Option Text) (run : Run) (store : Store)
    → opts.reporting_period ≡ pos period
    → opts.min_reporting_period ≡ pos minimal
    → period < int_max - 1
    → int_max ≤ now
    → let t = create_tracer opts guid attributes created in
      let (flushed, out) = flush lib translate_request t run store in
      (tick lib translate_request t now false connected run store ≡ (flushed, out ++ []))
      × (tick lib translate_request t now true connected run store
          ≡ ((reconnect_client flushed connected).0, out ++ (reconnect_client flushed connected).1))
unfolding tick create_tracer
first_tick_flushes lib translate_request opts guid attributes created now period minimal connected
      run store p m small late =
    let due = first_tick_due opts guid attributes created now period minimal p m small late in
    let t = create_tracer opts guid attributes created in
    (
      ap
          (λ b.
            let (t₁, out) = if b then flush lib translate_request t run store else (t, []) in
            (t₁, out ++ []))
          due,
      ap
          (λ b.
            let (t₁, out) = if b then flush lib translate_request t run store else (t, []) in
            let (t₂, out₂) = reconnect_client t₁ connected in (t₂, out ++ out₂))
          due,
    )
