-- ===== src/Span/Lifecycle.antt =====
-- The life of a span: what its log calls and its finish record.
use lightstep_tracer_go.Base.Int.{pos_part}
use lightstep_tracer_go.Span.Finish.{expected_logs, expected_logs_total, finish_logs_lem}
use lightstep_tracer_go.Time.{Time, is_zero, sub}
use lightstep_tracer_go.RawSpan.{LogRecord, Field}
use lightstep_tracer_go.Options.{Options}
use lightstep_tracer_go.Base.{
  List, ◌≡◌, ◌∷◌, false, arith, [], if◌then◌else◌, refl, ◌<◌, ◌||◌, ap, ◌∙◌, true, length,
  Bool-cases, inl, inr, ◌++◌, some, map, append_assoc, Text, ℕ,
}
use lightstep_tracer_go.Span.Frame.{append_logs_frame}
use lightstep_tracer_go.Span.Ring.{Keeps, complete, append_logs-Keeps}
use lightstep_tracer_go.Span.{
  Span, LogData, log_fields, log, append_logs, append_log, LogRecord, Options, Time, is_zero,
  FinishOptions, finish_with_options, finish_logs, sub, new_span, pos_part,
}
use lightstep_tracer_go.StartOptions.{StartSpanOption}

-- A call of `LogFields` or `Log`, with the clock.
pub data LogCall : Type 0 where
  fields_call : List Field → Time → LogCall
  data_call : LogData → Time → LogCall

module _ (to_log_record : LogData → LogRecord) where
  unfoldable pub run_log_calls : Options → Span → List LogCall → Span
  run_log_calls opts s [] = s
  run_log_calls opts s (fields_call fields now ∷ calls) =
      run_log_calls opts (log_fields opts s fields now) calls
  run_log_calls opts s (data_call ld now ∷ calls) =
      run_log_calls opts (log to_log_record opts s ld now) calls

  -- The records that the calls make. A record without a time gets the clock's.
  pub call_records : List LogCall → List LogRecord
  call_records [] = []
  call_records (fields_call fields now ∷ calls) =
      record { timestamp = now; fields = fields } ∷ call_records calls
  call_records (data_call ld now ∷ calls) =
      to_log_record (if is_zero ld.timestamp then record ld { timestamp = now } else ld)
      ∷ call_records calls

  log_fields_active :
      (opts : Options) (s : Span) (fields : List Field) (now : Time)
      → s.finished ≡ false
      → opts.drop_span_logs ≡ false
      → log_fields opts s fields now
        ≡ append_log opts s (record { timestamp = now; fields = fields })
  unfolding log_fields
  log_fields_active opts s fields now h k = rw (h, k)

  log_active :
      (opts : Options) (s : Span) (ld : LogData) (now : Time)
      → s.finished ≡ false
      → opts.drop_span_logs ≡ false
      → log to_log_record opts s ld now
        ≡ append_log opts s
            (to_log_record (if is_zero ld.timestamp then record ld { timestamp = now } else ld))
  unfolding log
  log_active opts s ld now h k = rw (h, k)

  finished-append_log :
      (opts : Options) (s : Span) (lr : LogRecord) → (append_log opts s lr).finished ≡ s.finished
  unfolding append_log
  finished-append_log opts s lr = ground arith

  pub run_log_calls_active :
      (opts : Options) (s : Span) (calls : List LogCall)
      → s.finished ≡ false
      → opts.drop_span_logs ≡ false
      → run_log_calls opts s calls ≡ append_logs opts s (call_records calls)
  unfolding run_log_calls call_records append_logs
  run_log_calls_active opts s [] h k = refl
  run_log_calls_active opts s (fields_call fields now ∷ calls) h k =
      ap (λ t. run_log_calls opts t calls) (log_fields_active opts s fields now h k)
      ∙ run_log_calls_active opts (append_log opts s (record { timestamp = now; fields = fields }))
          calls (finished-append_log opts s _ ∙ h) k
  run_log_calls_active opts s (data_call ld now ∷ calls) h k =
      ap (λ t. run_log_calls opts t calls) (log_active opts s ld now h k)
      ∙ run_log_calls_active opts
          (append_log opts s
            (to_log_record (if is_zero ld.timestamp then record ld { timestamp = now } else ld)))
          calls (finished-append_log opts s _ ∙ h) k

  pub finished-run_log_calls :
      (opts : Options) (s : Span) (calls : List LogCall)
      → (run_log_calls opts s calls).finished ≡ s.finished
  unfolding run_log_calls log_fields log append_log
  finished-run_log_calls opts s [] = refl
  finished-run_log_calls opts s (fields_call fields now ∷ calls) =
      finished-run_log_calls opts (log_fields opts s fields now) calls ∙ ground arith
  finished-run_log_calls opts s (data_call ld now ∷ calls) =
      finished-run_log_calls opts (log to_log_record opts s ld now) calls ∙ ground arith

  -- On a finished span, or with `DropSpanLogs`, the log calls do nothing.
  pub run_log_calls_off :
      (opts : Options) (s : Span) (calls : List LogCall)
      → (s.finished || opts.drop_span_logs) ≡ true
      → run_log_calls opts s calls ≡ s
  unfolding run_log_calls log_fields log
  run_log_calls_off opts s [] h = refl
  run_log_calls_off opts s (fields_call fields now ∷ calls) h =
      rw h (run_log_calls_off opts s calls h)
  run_log_calls_off opts s (data_call ld now ∷ calls) h = rw h (run_log_calls_off opts s calls h)

  -- What a new span keeps after its log calls.
  pub logged : Options → List LogCall → List LogRecord
  unfolding call_records
  logged opts calls = if opts.drop_span_logs then [] else call_records calls

  logged_off :
      (opts : Options) (calls : List LogCall) → opts.drop_span_logs ≡ true → logged opts calls ≡ []
  unfolding logged
  logged_off opts calls h = rw h

  logged_on :
      (opts : Options) (calls : List LogCall)
      → opts.drop_span_logs ≡ false
      → logged opts calls ≡ call_records calls
  unfolding logged
  logged_on opts calls h = rw h

  run_log_calls-Keeps :
      (opts : Options) (s : Span) (calls : List LogCall)
      → 0 < pos_part opts.max_logs_per_span
      → s.finished ≡ false
      → s.raw.logs ≡ []
      → s.num_dropped_logs ≡ 0
      → Keeps (pos_part opts.max_logs_per_span) (logged opts calls) (run_log_calls opts s calls)
  run_log_calls-Keeps opts s calls h live empty none_dropped =
      elim (Bool-cases opts.drop_span_logs) [
        | inl off ↦
            rw (logged_off opts calls off, run_log_calls_off opts s calls (ground arith)) start
        | inr on ↦
            rw (logged_on opts calls on, run_log_calls_active opts s calls live on)
              (append_logs-Keeps opts (call_records calls) s [] h start)
      ]
    where
      start : Keeps (pos_part opts.max_logs_per_span) [] s
      start = complete empty none_dropped (omega (arith, ap length empty))

  -- Finishing, with the records that the options add.
  unfoldable pub all_records : List LogRecord → FinishOptions → List LogRecord
  all_records logs fin = logs ++ (fin.log_records ++ map to_log_record fin.bulk_log_data)

  finish_unfolded :
      (opts : Options) (s : Span) (fin : FinishOptions) (now : Time) (final : List LogRecord)
      → let s' =
          append_logs opts
            (append_logs opts (record s { finished = true }) fin.log_records)
            (map to_log_record fin.bulk_log_data) in
        s.finished ≡ false
        → finish_logs s'.raw.logs s'.num_dropped_logs ≡ some final
        → finish_with_options to_log_record opts s fin now
          ≡ some (
            record s' {
              raw = record (s'.raw) {
                logs = final;
                duration =
                    sub (if is_zero fin.finish_time then now else fin.finish_time) s.raw.start;
              };
            },
            true,
          )
  unfolding finish_with_options
  finish_unfolded opts s fin now final live e = rw (live, e)

  pub finish_with_options_lem :
      (opts : Options) (s : Span) (logs : List LogRecord) (fin : FinishOptions) (now : Time)
      → 0 < pos_part opts.max_logs_per_span
      → s.finished ≡ false
      → Keeps (pos_part opts.max_logs_per_span) logs s
      → (final : List LogRecord) × (s' : Span) × (finish_with_options to_log_record opts s fin now
          ≡ some (s', true))
        × (expected_logs (pos_part opts.max_logs_per_span) (all_records logs fin) ≡ some final)
        × (s'.raw.logs ≡ final)
        × (s'.finished ≡ true)
  finish_with_options_lem opts s logs fin now h live keeps =
      let s₁ = append_logs opts (record s { finished = true }) fin.log_records in
      let bulk = map to_log_record fin.bulk_log_data in
      let (final, e) =
        expected_logs_total (pos_part opts.max_logs_per_span) (all_records logs fin) h in
      let keeps' =
        append_logs-Keeps opts bulk s₁ (logs ++ fin.log_records) h
          (append_logs-Keeps opts fin.log_records (record s { finished = true }) logs h keeps) in
      (
        final,
        _,
        finish_unfolded opts s fin now final live (
            finish_logs_lem h keeps'
            ∙ ap (expected_logs (pos_part opts.max_logs_per_span)) regroup
            ∙ e),
        e,
        refl,
        (append_logs_frame opts s₁ bulk).0
            ∙ (append_logs_frame opts (record s { finished = true }) fin.log_records).0,
      )
    where
      regroup :
          (logs ++ fin.log_records) ++ map to_log_record fin.bulk_log_data ≡ all_records logs fin
      regroup = unfold all_records in append_assoc logs fin.log_records _

  -- A new span, any calls of `LogFields` and `Log` on it, and then `FinishWithOptions` never panic,
  -- and record a span whose logs are, of all records that came, the expected ones: every record if
  -- they fit into `MaxLogsPerSpan`, and else the oldest ones, one record that names the number left
  -- out with the time of the last one left out, and the newest ones. With `DropSpanLogs` the log
  -- calls count for nothing, but the records of the finish do. This is for a limit above 0.
  pub span_logs_lem :
      (opts : Options) (operation : Text) (sso : List StartSpanOption) (start guid : ℕ)
      (guid2 : ℕ × ℕ) (calls : List LogCall) (fin : FinishOptions) (now : Time)
      → 0 < pos_part opts.max_logs_per_span
      → let s = new_span operation sso start guid guid2 in
        (final : List LogRecord) × (s' : Span) × (finish_with_options to_log_record opts
            (run_log_calls opts s calls)
            fin
            now
          ≡ some (s', true))
        × (expected_logs (pos_part opts.max_logs_per_span) (all_records (logged opts calls) fin)
            ≡ some final)
        × (s'.raw.logs ≡ final)
        × (s'.finished ≡ true)
  span_logs_lem opts operation sso start guid guid2 calls fin now h =
      let s = new_span operation sso start guid guid2 in
      finish_with_options_lem opts (run_log_calls opts s calls) (logged opts calls) fin now h
        (finished-run_log_calls opts s calls ∙ (unfold new_span in refl))
        (run_log_calls-Keeps opts s calls h (unfold new_span in refl) (unfold new_span in refl)
          (unfold new_span in refl))
