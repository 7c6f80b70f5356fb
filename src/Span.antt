-- ===== src/Span.antt =====
-- span.go: a live span, from its options to its finish. The clock and the random identifiers are
-- arguments. A span is used under its lock, so each method is one step on its state.
pub mod Rotate
pub mod Start
pub mod Ring
pub mod Frame
pub mod Finish
pub mod Lifecycle
pub mod Once
use lightstep_tracer_go.StartOptions.{
  StartSpanOptions, StartSpanOption, Reference, child_of, new_start_span_options, follows_from,
  other_reference,
}
use lightstep_tracer_go.Base.{
  ℕ, ◌+◌, ◌-◌, ◌/◌, ◌%◌, Bool, true, false, not, ◌&&◌, ◌||◌, Option, none, some, List, [], ◌∷◌,
  ◌++◌, map, length, set, get_elem?, take, drop, ltb, ◌==◌, if◌then◌else◌, Text, codes, lookup,
  insert, ◌⊎◌, inl, inr,
}
use lightstep_tracer_go.Base.Int.{ℤ, pos, negsuc, pos_part}
use lightstep_tracer_go.Time.{Time, Duration, zero_time, is_zero, sub}
use lightstep_tracer_go.RawSpan.{
  Value, nil, Tags, Field, string, int, LogRecord, SpanContext, empty_context, RawSpan, copy_items,
  with_baggage_item,
}
use lightstep_tracer_go.Options.{Options}
use Rotate.{rotate_log_buffer}

-- The tracer's options stand in `tracer.opts`, and are an argument of the methods that read them.
pub record Span : Type 0 where
  pub finished : Bool
  pub raw : RawSpan
  pub num_dropped_logs : ℕ

-- The context and the parent that `newSpan` builds up.
pub record Identity : Type 0 where
  pub context : SpanContext
  pub parent_span_id : ℕ

-- What the first ChildOf or FollowsFrom reference does, if its context is the tracer's own.
pub inherit : Option SpanContext → Identity → Identity
inherit none sp = sp
inherit (some ref) sp = record {
  context = record sp.context {
    trace_id = ref.trace_id;
    sampled = ref.sampled;
    baggage = if ltb 0 (length ref.baggage) then copy_items ref.baggage [] else sp.context.baggage;
  };
  parent_span_id = ref.span_id;
}

-- `ReferencesLoop`
pub references_loop : List Reference → Identity → Identity
unfolding inherit
references_loop [] sp = sp
references_loop (ref ∷ refs) sp = elim ref.type [
  | child_of ↦ inherit ref.referenced_context sp
  | follows_from ↦ inherit ref.referenced_context sp
  | other_reference ↦ references_loop refs sp
]

pub explicit_identity : StartSpanOptions → Identity
explicit_identity opts =
    if not (opts.set_trace_id == 0)
    then record {
      context = record empty_context {
        trace_id = opts.set_trace_id;
        span_id = opts.set_span_id;
        sampled = opts.set_sampled;
      };
      parent_span_id = opts.set_parent_span_id;
    }
    else record { context = empty_context; parent_span_id = 0 }

-- `guid` and `guid2` are what the random pool hands out.
pub fill_identity : Identity → ℕ → ℕ × ℕ → Identity
fill_identity sp guid guid2 =
    if sp.context.trace_id == 0
    then record sp { context = record sp.context { trace_id = guid2.0; span_id = guid2.1 } }
    else if sp.context.span_id == 0
    then record sp { context = record sp.context { span_id = guid } }
    else sp

abbrev pub meta_event_key : Text
meta_event_key = codes "lightstep.meta_event"

unfoldable pub is_meta : Span → Bool
is_meta s = elim (lookup meta_event_key s.raw.tags) [
  | none ↦ false
  | some v ↦ elim v [ nil ↦ false | _ ↦ true ]
]

unfoldable pub new_span : Text → List StartSpanOption → Time → ℕ → ℕ × ℕ → Span
unfolding references_loop explicit_identity fill_identity
new_span operation_name sso now guid guid2 =
    let opts = new_start_span_options sso in
    let start_time = if is_zero opts.options.start_time then now else opts.options.start_time in
    let sp =
      fill_identity (references_loop opts.options.references (explicit_identity opts)) guid guid2 in
    record {
      finished = false;
      raw = record {
        context = sp.context;
        parent_span_id = sp.parent_span_id;
        operation = operation_name;
        start = start_time;
        duration = negsuc 0;
        tags = opts.options.tags;
        logs = [];
      };
      num_dropped_logs = 0;
    }

pub set_operation_name : Span → Text → Span
set_operation_name s operation_name =
    if s.finished then s else record s { raw = record (s.raw) { operation = operation_name } }

unfoldable pub set_tag : Span → Text → Value → Span
set_tag s key value =
    if s.finished
    then s
    else record s { raw = record (s.raw) { tags = insert key value s.raw.tags } }

unfoldable pub set_baggage_item : Span → Text → Text → Span
set_baggage_item s key val =
    if s.finished
    then s
    else record s { raw = record (s.raw) { context = with_baggage_item s.raw.context key val } }

-- A missing key reads as the empty string.
unfoldable pub baggage_item : Span → Text → Text
baggage_item s key = elim (lookup key s.raw.context.baggage) [ none ↦ [] | some v ↦ v ]

-- How many of the oldest records `appendLog` never overwrites.
abbrev pub num_old : ℕ → ℕ
num_old max_logs = (max_logs - 1) / 2

-- The index is in range for a limit above 0. A limit below 0 is read as 0 here; its index is a panic.
unfoldable pub append_log : Options → Span → LogRecord → Span
append_log opts s lr =
    let max_logs = pos_part opts.max_logs_per_span in
    if max_logs == 0 || ltb (length s.raw.logs) max_logs
    then record s { raw = record (s.raw) { logs = s.raw.logs ++ (lr ∷ []) } }
    else let num_new = max_logs - num_old max_logs in
      record s {
        raw = record (s.raw) {
          logs = set s.raw.logs (num_old max_logs + s.num_dropped_logs % num_new) lr;
        };
        num_dropped_logs = s.num_dropped_logs + 1;
      }

pub log_fields : Options → Span → List Field → Time → Span
log_fields opts s fields now =
    if s.finished || opts.drop_span_logs
    then s
    else append_log opts s (record { timestamp = now; fields = fields })

-- `log.InterleavedKVToFields` of opentracing-go has run: on the left is the field that `log.Error`
-- makes of its error.
unfoldable pub log_kv : Options → Span → Field ⊎ List Field → Time → Span
log_kv opts s (inl err) now =
    log_fields opts s (err ∷ string (codes "function") (codes "LogKV") ∷ []) now
log_kv opts s (inr fields) now = log_fields opts s fields now

-- opentracing's `LogData`, which its method `ToLogRecord` makes a record of.
pub record LogData : Type 0 where
  pub timestamp : Time
  pub event : Text
  pub payload : Value

pub record FinishOptions : Type 0 where
  pub finish_time : Time
  pub log_records : List LogRecord
  pub bulk_log_data : List LogData

pub append_logs : Options → Span → List LogRecord → Span
append_logs opts s [] = s
append_logs opts s (lr ∷ records) = append_logs opts (append_log opts s lr) records

-- The record that tells of the dropped ones.
unfoldable pub dropped_record : Time → ℕ → LogRecord
dropped_record timestamp num_dropped = record {
  timestamp = timestamp;
  fields =
      string (codes "event") (codes "dropped Span logs")
      ∷ int (codes "dropped_log_count") (pos num_dropped)
      ∷ string (codes "component") (codes "basictracer")
      ∷ [];
}

-- Replaces the middle record, at the index `old`. `none` is a panic.
pub replace_middle : List LogRecord → ℕ → ℕ → Option (List LogRecord)
replace_middle logs old num_dropped_logs = elim (get_elem? logs old) [
  | none ↦ none
  | some middle ↦ some (set logs old (dropped_record middle.timestamp (num_dropped_logs + 1)))
]

-- The part of `FinishWithOptions` that puts the circular part of the logs in order. `none` is a panic.
pub finish_logs : List LogRecord → ℕ → Option (List LogRecord)
finish_logs logs num_dropped_logs =
    if ltb 0 num_dropped_logs
    then (let old = num_old (length logs) in
        let num_new = length logs - old in
        elim (rotate_log_buffer (drop old logs) (num_dropped_logs % num_new)) [
          | none ↦ none
          | some rotated ↦ replace_middle (take old logs ++ rotated) old num_dropped_logs
        ])
    else some logs

module _ (to_log_record : LogData → LogRecord) where
  unfoldable pub log : Options → Span → LogData → Time → Span
  log opts s ld now =
      if s.finished || opts.drop_span_logs
      then s
      else append_log opts s
          (to_log_record (if is_zero ld.timestamp then record ld { timestamp = now } else ld))

  -- What is recorded in the tracer is the raw span of the result, if the flag is set.
  -- `none` is a panic.
  unfoldable pub finish_with_options : Options → Span → FinishOptions → Time → Option (Span × Bool)
  finish_with_options opts s fin now =
      if s.finished
      then some (s, false)
      else let finish_time = if is_zero fin.finish_time then now else fin.finish_time in
        let duration = sub finish_time s.raw.start in
        let s' =
          append_logs opts (append_logs opts (record s { finished = true }) fin.log_records)
            (map to_log_record fin.bulk_log_data) in
        elim (finish_logs s'.raw.logs s'.num_dropped_logs) [
          | none ↦ none
          | some logs ↦
              some (record s' { raw = record (s'.raw) { logs = logs; duration = duration } }, true)
        ]

  unfoldable pub log_event : Options → Span → Text → Time → Span
  unfolding log
  log_event opts s event now =
      log opts s (record { timestamp = zero_time; event = event; payload = Value.nil }) now

  unfoldable pub log_event_with_payload : Options → Span → Text → Value → Time → Span
  unfolding log
  log_event_with_payload opts s event payload now =
      log opts s (record { timestamp = zero_time; event = event; payload = payload }) now

  unfoldable pub finish : Options → Span → Time → Option (Span × Bool)
  unfolding finish_with_options
  finish opts s now =
      finish_with_options opts s
        (record { finish_time = zero_time; log_records = []; bulk_log_data = [] }) now
