-- ===== src/Tracer/Disabled.antt =====
-- tracer.go: the calls of a program on a tracer that has been disabled.
use lightstep_tracer_go.Tracer.Shutdown.{close_called_again}
use lightstep_tracer_go.Time.{Time}
use lightstep_tracer_go.RawSpan.{RawSpan}
use lightstep_tracer_go.Collector.Split.{copies}
use lightstep_tracer_go.Tracer.Flush.{flush, Run, flush_buffer}
use lightstep_tracer_go.Events.{flush_error, tracer_is_disabled, FlushError}
use lightstep_tracer_go.Tracer.Observed.Calls.{
  Call, flushed, closed_by_user, run_calls, run_call, ticked, recorded, disabled_by_user,
}
use lightstep_tracer_go.Collector.{Store, Pointer, ReportRequest}
use lightstep_tracer_go.Base.{
  List, Bool, ℕ, ◌≡◌, Text, ◌∷◌, false, ◌⊎◌, refl, suc, true, [], Option, if_true, ◌++◌, if_false,
  ap, Bool-cases, inl, ◌||◌, ◌∙◌, ◌&&◌, text_eq, inr, not, codes,
}
use lightstep_tracer_go.Tracer.Loop.{loop_closes, close, tick, loop_after}
use lightstep_tracer_go.LogEncoder.{Library}
use lightstep_tracer_go.Tracer.{
  closed_text, List, Output, Tracer, emit, left, disable, record_span, Time, RawSpan, pre_flush,
}

-- The flushes among the calls.
unfoldable pub flush_calls : List Call → ℕ
flush_calls [] = 0
flush_calls (flushed run store ∷ calls) = suc (flush_calls calls)
flush_calls (c ∷ calls) = flush_calls calls

-- Whether `Close` has been called after the calls, from whether it had been before.
unfoldable pub called_after : List Call → Bool → Bool
called_after [] called = called
called_after (closed_by_user cancelled failed run store ∷ calls) called = called_after calls true
called_after (c ∷ calls) called = called_after calls called

-- The event of a flush of a disabled tracer.
abbrev pub refusal_when_disabled : Output
refusal_when_disabled =
    emit (flush_error (record { err = closed_text; state = tracer_is_disabled }))

loop_closes-left : (t : Tracer) → t.report_loop ≡ left → loop_closes t ≡ false
unfolding loop_closes
loop_closes-left t h = rw h refl

module _ (lib : Library) (translate_request : Store → Pointer → Text ⊎ ReportRequest) where
  record_span_disabled :
      (t : Tracer) (raw : RawSpan) → t.disabled ≡ true → record_span t raw ≡ (t, [])
  unfolding record_span
  record_span_disabled t raw h =
      if_true _ _ (ap (λ d. d || text_eq raw.context.sampled (codes "false")) h)

  disable_disabled : (t : Tracer) → t.disabled ≡ true → disable t ≡ (t, [])
  unfolding disable
  disable_disabled t h = if_true _ _ h

  tick_disabled :
      (t : Tracer) (now : Time) (should_reconnect : Bool) (connected : Option Text) (run : Run)
      (store : Store)
      → t.disabled ≡ true
      → tick lib translate_request t now should_reconnect connected run store
        ≡ (record t { report_loop = left }, [])
  unfolding tick
  tick_disabled t now should_reconnect connected run store h = if_true _ _ h

  close_left :
      (t : Tracer) (cancelled : Bool) (failed : Option Text) (run : Run) (store : Store)
      → t.report_loop ≡ left
      → t.close_called ≡ false
      → close lib translate_request t cancelled failed run store
        ≡ (record t { close_called = true; report_loop = left }, [])
  unfolding close
  close_left t cancelled failed run store h k =
      if_false _ _ k
      ∙ if_false _ _ (ap (λ b. b && not cancelled) (loop_closes-left t h))
      ∙ ap (λ l. (record t { close_called = true; report_loop = loop_after l }, [])) h

  close_disabled :
      (t : Tracer) (cancelled : Bool) (failed : Option Text) (run : Run) (store : Store)
      → t.report_loop ≡ left
      → close lib translate_request t cancelled failed run store
        ≡ (record t { close_called = true; report_loop = left }, [])
  close_disabled t cancelled failed run store h = elim (Bool-cases t.close_called) [
    | inl called ↦
        close_called_again lib translate_request t cancelled failed run store called
        ∙ ap (λ b. (record t { close_called = b }, [])) called
        ∙ ap (λ l. (record t { close_called = true; report_loop = l }, [])) h
    | inr fresh ↦ close_left t cancelled failed run store h fresh
  ]

  flush_disabled :
      (t : Tracer) (run : Run) (store : Store)
      → t.disabled ≡ true
      → flush lib translate_request t run store ≡ (t, refusal_when_disabled ∷ [])
  unfolding flush flush_buffer pre_flush
  flush_disabled t run store h =
      ap (λ (r : Option FlushError × Tracer). flush_buffer lib translate_request r.0 r.1 run store)
        (if_true _ _ h)

  then_calls :
      (c : Call) (calls : List Call) (t t' t'' : Tracer) (out out' : List Output)
      → run_call lib translate_request c t ≡ (t', out)
      → run_calls lib translate_request calls t' ≡ (t'', out')
      → run_calls lib translate_request (c ∷ calls) t ≡ (t'', out ++ out')
  unfolding run_calls
  then_calls c calls t t' t'' out out' e e' =
      ap (λ r. let (u, o) = run_calls lib translate_request calls r.0 in (u, r.1 ++ o)) e
      ∙ ap (λ r. (r.0, out ++ r.1)) e'

  -- The tracer after the calls and the events, once the report loop has ended.
  abbrev Settled : Tracer → List Call → Type 0
  Settled t calls = run_calls lib translate_request calls t ≡ (
    record t { report_loop = left; close_called = called_after calls t.close_called },
    copies (flush_calls calls) refusal_when_disabled,
  )

  run_calls-Settled :
      (t : Tracer) (calls : List Call) → t.disabled ≡ true → t.report_loop ≡ left → Settled t calls
  unfolding run_calls run_call flush_calls called_after copies
  run_calls-Settled t [] h k = ap (λ l. (record t { report_loop = l }, [])) k
  run_calls-Settled t (recorded raw ∷ calls) h k =
      then_calls (recorded raw) calls t t _ [] _ (record_span_disabled t raw h)
        (run_calls-Settled t calls h k)
  run_calls-Settled t (disabled_by_user ∷ calls) h k =
      then_calls disabled_by_user calls t t _ [] _ (disable_disabled t h)
        (run_calls-Settled t calls h k)
  run_calls-Settled t (flushed run store ∷ calls) h k =
      then_calls (flushed run store) calls t t _ (refusal_when_disabled ∷ []) _
        (flush_disabled t run store h) (run_calls-Settled t calls h k)
  run_calls-Settled t (ticked now reconnect connected run store ∷ calls) h k =
      then_calls (ticked now reconnect connected run store) calls t
        (record t { report_loop = left }) _ [] _
        (tick_disabled t now reconnect connected run store h)
        (run_calls-Settled (record t { report_loop = left }) calls h refl)
  run_calls-Settled t (closed_by_user cancelled failed run store ∷ calls) h k =
      let u = record t { close_called = true; report_loop = left } in
      then_calls (closed_by_user cancelled failed run store) calls t u _ [] _
        (close_disabled t cancelled failed run store k) (run_calls-Settled u calls h refl)

  -- Disabling lasts. From the next tick of the report loop of a disabled tracer on, whatever calls the program
  -- makes, `Close` included, nothing of the tracer changes but that its report loop has ended and that `Close`
  -- has been called: it stays disabled, its buffers stay as they are, and its connection stays as it is, so that
  -- `Close` never closes one that is there. The calls have one event for each flush, which refuses it with the
  -- text for a closed tracer and the state of a disabled one, and no other.
  pub disabled_lasts :
      (t : Tracer) (now : Time) (should_reconnect : Bool) (connected : Option Text) (run : Run)
      (store : Store) (calls : List Call)
      → t.disabled ≡ true
      → run_calls lib translate_request (ticked now should_reconnect connected run store ∷ calls) t
        ≡ (
          record t { report_loop = left; close_called = called_after calls t.close_called },
          copies (flush_calls calls) refusal_when_disabled,
        )
  unfolding run_call
  disabled_lasts t now should_reconnect connected run store calls h =
      then_calls (ticked now should_reconnect connected run store) calls t
        (record t { report_loop = left }) _ [] _
        (tick_disabled t now should_reconnect connected run store h)
        (run_calls-Settled (record t { report_loop = left }) calls h refl)
