-- ===== src/Converter/Account.antt =====
-- proto_converter.go and proto_logencoder.go: the messages of a report and the errors that the buffer counts.
use lightstep_tracer_go.RawSpan.{Field, LogRecord, RawSpan}
use lightstep_tracer_go.Converter.{Field, RawSpan, LogRecord, to_logs, to_log, to_spans, to_span}
use lightstep_tracer_go.LogEncoder.{
  Library, ProtoConverter, marshal_field, marshal_fields, LogFieldEncoder, emit_object,
  emit_key_value,
}
use lightstep_tracer_go.ReportBuffer.{ReportBuffer}
use lightstep_tracer_go.Base.{
  ℕ, ◌<◌, ◌≡◌, suc, add64, List, word_mod, ◌+◌, inl, zero, ap, ◌∷◌, arith, [], inr, ◌∙◌, length,
  length-append, refl, ◌⊎◌, map, ap₂,
}

abbrev pub with_errors : ReportBuffer → ℕ → ReportBuffer
with_errors b n = record b { log_encoder_error_count = n }

-- The counter after `k` more errors.
unfoldable pub bump : ℕ → ℕ → ℕ
bump zero n = n
bump (suc k) n = bump k (add64 n 1)

sum_cases : {A B : Type 0} (r : A ⊎ B) → ((a : A) × (r ≡ inl a)) ⊎ ((b : B) × (r ≡ inr b))
sum_cases (inl a) = inl (a, refl)
sum_cases (inr b) = inr (b, refl)

bump_add : (j k n : ℕ) → bump k (bump j n) ≡ bump (j + k) n
unfolding bump
bump_add zero k n = ap (λ m. bump m n) {x = k} {y = 0 + k} (omega arith)
bump_add (suc j) k n =
    bump_add j k (add64 n 1) ∙ ap (λ m. bump m n) {x = suc (j + k)} {y = suc j + k} (omega arith)

-- Errors of two steps, one after the other, add up.
bumps :
    (j k : ℕ) (b b' b'' : ReportBuffer)
    → b' ≡ with_errors b (bump j b.log_encoder_error_count)
    → b'' ≡ with_errors b' (bump k b'.log_encoder_error_count)
    → b'' ≡ with_errors b (bump (j + k) b.log_encoder_error_count)
bumps j k b b' b'' e e' =
    e'
    ∙ ap (λ x. with_errors x (bump k x.log_encoder_error_count)) e
    ∙ ap (with_errors b) (bump_add j k b.log_encoder_error_count)

no_bump : (b : ReportBuffer) → b ≡ with_errors b (bump 0 b.log_encoder_error_count)
unfolding bump
no_bump b = refl

pub bump_lem : (k n : ℕ) → n < word_mod → bump k n ≡ add64 n k
unfolding bump
bump_lem zero n h = omega arith
bump_lem (suc k) n h = bump_lem k (add64 n 1) (omega arith) ∙ omega arith

module _ (lib : Library) where
  -- The objects of a field, of the fields of a log, of logs and of spans that have no JSON.
  pub field_failures : Field → ℕ
  field_failures (Field.object key value) = elim (lib.json_marshal value) [
    | inl err ↦ 1
    | inr json ↦ 0
  ]
  field_failures f = 0

  pub fields_failures : List Field → ℕ
  unfolding field_failures
  fields_failures [] = 0
  fields_failures (f ∷ fields) = field_failures f + fields_failures fields

  pub logs_failures : List LogRecord → ℕ
  unfolding fields_failures
  logs_failures [] = 0
  logs_failures (lr ∷ logs) = fields_failures lr.fields + logs_failures logs

  unfoldable pub spans_failures : List RawSpan → ℕ
  unfolding logs_failures
  spans_failures [] = 0
  spans_failures (span ∷ spans) = logs_failures span.logs + spans_failures spans

  module _ (c : ProtoConverter) where
    marshal_field_lem :
        (f : Field) (lfe : LogFieldEncoder)
        → let lfe' = marshal_field lib c f lfe in
          (lfe'.buffer
            ≡ with_errors lfe.buffer (bump (field_failures f) lfe.buffer.log_encoder_error_count))
          × (length lfe'.key_values ≡ length lfe.key_values + 1)
          × (length lfe'.events ≡ length lfe.events + field_failures f)
    unfolding marshal_field field_failures bump emit_object emit_key_value
    marshal_field_lem (Field.string key value) lfe =
        (refl, length-append lfe.key_values _, omega arith)
    marshal_field_lem (Field.bool key value) lfe =
        (refl, length-append lfe.key_values _, omega arith)
    marshal_field_lem (Field.int key value) lfe =
        (refl, length-append lfe.key_values _, omega arith)
    marshal_field_lem (Field.int32 key value) lfe =
        (refl, length-append lfe.key_values _, omega arith)
    marshal_field_lem (Field.int64 key value) lfe =
        (refl, length-append lfe.key_values _, omega arith)
    marshal_field_lem (Field.uint32 key value) lfe =
        (refl, length-append lfe.key_values _, omega arith)
    marshal_field_lem (Field.uint64 key value) lfe =
        (refl, length-append lfe.key_values _, omega arith)
    marshal_field_lem (Field.float32 key value) lfe =
        (refl, length-append lfe.key_values _, omega arith)
    marshal_field_lem (Field.float64 key value) lfe =
        (refl, length-append lfe.key_values _, omega arith)
    marshal_field_lem (Field.object key value) lfe = elim (sum_cases (lib.json_marshal value)) [
      | inl (err, e) ↦
          rw (e, emit_object, field_failures, bump)
            (refl, length-append lfe.key_values _, length-append lfe.events _)
      | inr (json, e) ↦
          rw (e, emit_object, field_failures, bump)
            (refl, length-append lfe.key_values _, omega arith)
    ]

    marshal_fields_lem :
        (fields : List Field) (lfe : LogFieldEncoder)
        → let lfe' = marshal_fields lib c fields lfe in
          (lfe'.buffer
            ≡ with_errors lfe.buffer
                (bump (fields_failures fields) lfe.buffer.log_encoder_error_count))
          × (length lfe'.key_values ≡ length lfe.key_values + length fields)
          × (length lfe'.events ≡ length lfe.events + fields_failures fields)
    unfolding marshal_fields fields_failures
    marshal_fields_lem [] lfe = (no_bump lfe.buffer, omega arith, omega arith)
    marshal_fields_lem (f ∷ fields) lfe =
        let lfe' = marshal_field lib c f lfe in
        let (b, k, e) = marshal_field_lem f lfe in
        let (b', k', e') = marshal_fields_lem fields lfe' in
        (bumps _ _ lfe.buffer lfe'.buffer _ b b', omega arith, omega arith)

    to_log_lem :
        (lr : LogRecord) (buffer : ReportBuffer)
        → let (log, buffer', events) = to_log lib c lr buffer in
          (buffer'
            ≡ with_errors buffer (bump (fields_failures lr.fields) buffer.log_encoder_error_count))
          × (length log.fields ≡ length lr.fields)
          × (length events ≡ fields_failures lr.fields)
    unfolding to_log
    to_log_lem lr buffer =
        let (b, k, e) =
          marshal_fields_lem lr.fields (record { buffer = buffer; key_values = []; events = [] }) in
        (b, omega arith, omega arith)

    to_logs_lem :
        (logs : List LogRecord) (buffer : ReportBuffer)
        → let (messages, buffer', events) = to_logs lib c logs buffer in
          (buffer' ≡ with_errors buffer (bump (logs_failures logs) buffer.log_encoder_error_count))
          × (length messages ≡ length logs)
          × (length events ≡ logs_failures logs)
    unfolding to_logs logs_failures
    to_logs_lem [] buffer = (no_bump buffer, refl, refl)
    to_logs_lem (lr ∷ logs) buffer =
        let (log, buffer', events) = to_log lib c lr buffer in
        let (messages, buffer'', events') = to_logs lib c logs buffer' in
        let (b, k, e) = to_log_lem lr buffer in
        let (b', k', e') = to_logs_lem logs buffer' in
        (
          bumps _ _ buffer buffer' buffer'' b b',
          omega arith,
          omega (arith, length-append events events'),
        )

    -- The spans of a report: a message for each span, in a buffer where nothing but the count of the
    -- encoding errors changes, by the objects without JSON among the fields of the logs. The count wraps
    -- as an `int64` does.
    pub to_spans_lem :
        (spans : List RawSpan) (buffer : ReportBuffer)
        → let (messages, buffer', events) = to_spans lib c spans buffer in
          (length messages ≡ length spans)
          × (map (λ m. m.operation_name) messages ≡ map (λ span. span.operation) spans)
          × (map (λ m. length m.logs) messages ≡ map (λ span. length span.logs) spans)
          × (buffer'
              ≡ with_errors buffer (bump (spans_failures spans) buffer.log_encoder_error_count))
    unfolding to_spans spans_failures to_span
    to_spans_lem [] buffer = (refl, refl, refl, no_bump buffer)
    to_spans_lem (span ∷ spans) buffer =
        let (message, buffer', events) = to_span lib c span buffer in
        let (messages, buffer'', events') = to_spans lib c spans buffer' in
        let (b, k, e) = to_logs_lem span.logs buffer in
        let (k', o', l', b') = to_spans_lem spans buffer' in
        (
          omega arith,
          ap (◌∷◌ span.operation) o',
          ap₂ ◌∷◌ k l',
          bumps _ _ buffer buffer' buffer'' b b',
        )
