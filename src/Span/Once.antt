-- ===== src/Span/Once.antt =====
-- span.go: any calls on a span, and what it records in the tracer.
use lightstep_tracer_go.StartOptions.{StartSpanOption}
use lightstep_tracer_go.Base.Int.{pos_part}
use lightstep_tracer_go.Time.{Time}
use lightstep_tracer_go.Options.{Options}
use lightstep_tracer_go.Span.{
  LogData, FinishOptions, Span, Options, Time, set_operation_name, set_tag, pos_part,
  StartSpanOption, set_baggage_item, finish_with_options, new_span,
}
use lightstep_tracer_go.Base.{
  Option, List, Text, ◌≡◌, some, Bool, ◌<◌, true, false, ◌++◌, ◌∷◌, [], ◌⊎◌, Bool-cases, none, ap,
  inl, ℕ, inr, subst, if_true, if_false, arith, ◌||◌, sym, ap₂, ◌∙◌, refl,
}
use lightstep_tracer_go.RawSpan.{Value, RawSpan, LogRecord}
use lightstep_tracer_go.Span.Ring.{Keeps, append_logs-Keeps, complete}
use lightstep_tracer_go.Span.Lifecycle.{
  LogCall, run_log_calls, run_log_calls_active, run_log_calls_off, finished-run_log_calls,
  finish_with_options_lem, call_records,
}

-- A call of `SetOperationName`, `SetTag`, `SetBaggageItem`, of a log method, or of `FinishWithOptions`.
pub data SpanCall : Type 0 where
  renaming : Text → SpanCall
  tagging : Text → Value → SpanCall
  carrying : Text → Text → SpanCall
  logging : LogCall → SpanCall
  finishing : FinishOptions → Time → SpanCall

-- What a finish records, by its flag.
abbrev recorded_by : Option (Span × Bool) → Option (Span × List RawSpan)
recorded_by none = none
recorded_by (some (s, true)) = some (s, s.raw ∷ [])
recorded_by (some (s, false)) = some (s, [])

-- A run of calls after a first one.
abbrev continued : List RawSpan → Option (Span × List RawSpan) → Option (Span × List RawSpan)
continued out none = none
continued out (some (s, out')) = some (s, out ++ out')

module _ (to_log_record : LogData → LogRecord) (opts : Options) where
  unfoldable pub run_span_call : SpanCall → Span → Option (Span × List RawSpan)
  unfolding set_operation_name set_tag set_baggage_item finish_with_options run_log_calls
  run_span_call (renaming operation) s = some (set_operation_name s operation, [])
  run_span_call (tagging key value) s = some (set_tag s key value, [])
  run_span_call (carrying key val) s = some (set_baggage_item s key val, [])
  run_span_call (logging call) s = some (run_log_calls to_log_record opts s (call ∷ []), [])
  run_span_call (finishing fin now) s =
      recorded_by (finish_with_options to_log_record opts s fin now)

  -- The span after the calls, with the raw spans that the tracer gets; `none` is a panic.
  unfoldable pub run_span : List SpanCall → Span → Option (Span × List RawSpan)
  unfolding run_span_call
  run_span [] s = some (s, [])
  run_span (c ∷ calls) s = elim (run_span_call c s) [
    | none ↦ none
    | some (s', out) ↦ continued out (run_span calls s')
  ]

  then_span :
      (c : SpanCall) (calls : List SpanCall) (s s' s'' : Span) (out out' : List RawSpan)
      → run_span_call c s ≡ some (s', out)
      → run_span calls s' ≡ some (s'', out')
      → run_span (c ∷ calls) s ≡ some (s'', out ++ out')
  unfolding run_span
  then_span c calls s s' s'' out out' e e' = rw (e, run_span) (ap (continued out) e')

  -- A span that has finished, and one that has not, whose logs are those of some records.
  abbrev IsDone : Span → Type 0
  IsDone s = s.finished ≡ true

  abbrev IsLive : Span → Type 0
  IsLive s =
      (s.finished ≡ false)
      × ((all : List LogRecord) × Keeps (pos_part opts.max_logs_per_span) all s)

  done_call : (c : SpanCall) (s : Span) → IsDone s → run_span_call c s ≡ some (s, [])
  unfolding run_span_call set_operation_name set_tag set_baggage_item finish_with_options
  done_call (renaming operation) s h = ap (λ s'. some (s', [])) (if_true _ _ h)
  done_call (tagging key value) s h = ap (λ s'. some (s', [])) (if_true _ _ h)
  done_call (carrying key val) s h = ap (λ s'. some (s', [])) (if_true _ _ h)
  done_call (logging call) s h =
      ap (λ s'. some (s', []))
        (run_log_calls_off to_log_record opts s (call ∷ []) (ap (λ b. b || opts.drop_span_logs) h))
  done_call (finishing fin now) s h = ap recorded_by (if_true _ _ h)

  done_run : (calls : List SpanCall) (s : Span) → IsDone s → run_span calls s ≡ some (s, [])
  unfolding run_span
  done_run [] s h = refl
  done_run (c ∷ calls) s h = then_span c calls s s s [] [] (done_call c s h) (done_run calls s h)

  module _ (room : 0 < pos_part opts.max_logs_per_span) where
    log-IsLive :
        (s : Span) (call : LogCall)
        → IsLive s
        → IsLive (run_log_calls to_log_record opts s (call ∷ []))
    log-IsLive s call (live, (all, keeps)) = elim (Bool-cases opts.drop_span_logs) [
      | inl off ↦
          subst IsLive
            (sym (run_log_calls_off to_log_record opts s (call ∷ []) (ap₂ ◌||◌ live off)))
            (live, (all, keeps))
      | inr on ↦ (
        finished-run_log_calls to_log_record opts s (call ∷ []) ∙ live,
        (
          all ++ call_records to_log_record (call ∷ []),
          subst
              (Keeps (pos_part opts.max_logs_per_span)
                (all ++ call_records to_log_record (call ∷ [])))
              (sym (run_log_calls_active to_log_record opts s (call ∷ []) live on))
              (append_logs-Keeps opts (call_records to_log_record (call ∷ [])) s all room keeps),
        ),
      )
    ]

    -- A call of a live span records nothing and leaves it live, or records it and leaves it done.
    abbrev Moves : SpanCall → Span → Type 0
    Moves c s =
        (s' : Span) × (((run_span_call c s ≡ some (s', [])) × IsLive s')
          ⊎ ((run_span_call c s ≡ some (s', s'.raw ∷ [])) × IsDone s'))

    live_call : (c : SpanCall) (s : Span) → IsLive s → Moves c s
    unfolding run_span_call set_operation_name set_tag set_baggage_item
    live_call (renaming operation) s (live, kept) =
        (_, inl (ap (λ s'. some (s', [])) (if_false _ _ live), (live, kept)))
    live_call (tagging key value) s (live, kept) =
        (_, inl (ap (λ s'. some (s', [])) (if_false _ _ live), (live, kept)))
    live_call (carrying key val) s (live, kept) =
        (_, inl (ap (λ s'. some (s', [])) (if_false _ _ live), (live, kept)))
    live_call (logging call) s h = (_, inl (refl, log-IsLive s call h))
    live_call (finishing fin now) s (live, (all, keeps)) =
        let (final, s', e, expected, logs, done) =
          finish_with_options_lem to_log_record opts s all fin now room live keeps in
        (s', inr (ap recorded_by e, done))

    -- The end of a run that has a finish, with the same span before and after the calls that follow.
    abbrev Once : List SpanCall → FinishOptions → Time → List SpanCall → Span → Type 0
    Once before fin now after s =
        (s' : Span) × (run_span (before ++ (finishing fin now ∷ [])) s ≡ some (s', s'.raw ∷ []))
        × (run_span (before ++ (finishing fin now ∷ after)) s ≡ some (s', s'.raw ∷ []))

    done-Once :
        (c : SpanCall) (calls calls' : List SpanCall) (s s' : Span)
        → run_span_call c s ≡ some (s', s'.raw ∷ [])
        → IsDone s'
        → (run_span (c ∷ calls) s ≡ some (s', s'.raw ∷ []))
          × (run_span (c ∷ calls') s ≡ some (s', s'.raw ∷ []))
    done-Once c calls calls' s s' e done = (
      then_span c calls s s' s' (s'.raw ∷ []) [] e (done_run calls s' done),
      then_span c calls' s s' s' (s'.raw ∷ []) [] e (done_run calls' s' done),
    )

    live-Once :
        (before : List SpanCall) (fin : FinishOptions) (now : Time) (after : List SpanCall)
        (s : Span)
        → IsLive s
        → Once before fin now after s
    live-Once [] fin now after s (live, (all, keeps)) =
        let (final, s', e, expected, logs, done) =
          finish_with_options_lem to_log_record opts s all fin now room live keeps in
        let (one, more) =
          done-Once (finishing fin now) [] after s s' (unfold run_span_call in ap recorded_by e)
            done in
        (s', one, more)
    live-Once (c ∷ before) fin now after s h =
        let (s', moved) = live_call c s h in
        elim moved [
          | inl (e, live) ↦
              let (s'', one, more) = live-Once before fin now after s' live in
              (
                s'',
                then_span c (before ++ (finishing fin now ∷ [])) s s' s'' [] (s''.raw ∷ []) e one,
                then_span c (before ++ (finishing fin now ∷ after)) s s' s'' [] (s''.raw ∷ []) e
                    more,
              )
          | inr (e, done) ↦
              let (one, more) =
                done-Once c (before ++ (finishing fin now ∷ []))
                  (before ++ (finishing fin now ∷ after)) s s' e done in
              (s', one, more)
        ]

    -- A new span, any calls of its setters, its log methods and `FinishWithOptions`, and one finish among them:
    -- the calls never panic, the tracer gets exactly one raw span, and it is the one that the span has at the
    -- end. The calls after a finish change neither, whatever they are, further finishes included. This is for a
    -- limit on logs above 0.
    pub recorded_once :
        (operation : Text) (sso : List StartSpanOption) (start guid : ℕ) (guid2 : ℕ × ℕ)
        (before : List SpanCall) (fin : FinishOptions) (now : Time) (after : List SpanCall)
        → let s = new_span operation sso start guid guid2 in
          (s' : Span) × (run_span (before ++ (finishing fin now ∷ [])) s ≡ some (s', s'.raw ∷ []))
          × (run_span (before ++ (finishing fin now ∷ after)) s ≡ some (s', s'.raw ∷ []))
    recorded_once operation sso start guid guid2 before fin now after =
        live-Once before fin now after (new_span operation sso start guid guid2)
          (unfold new_span in (refl, ([], complete refl refl (omega arith))))
