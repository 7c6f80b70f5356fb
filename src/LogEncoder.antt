-- ===== src/LogEncoder.antt =====
-- proto_logencoder.go: the log fields of a report, with the limits on keys and values. An event that is
-- emitted on the way is part of the result.
pub mod Truncation
use lightstep_tracer_go.Base.Int.{pos_part}
use lightstep_tracer_go.Strconv.{format_uint}
use lightstep_tracer_go.Events.{Event, new_event_unsupported_value}
use lightstep_tracer_go.Proto.{
  KeyValueValue, bool_value, KeyValue, int_value, string_value, json_value, double_value,
}
use lightstep_tracer_go.Options.{Options}
use lightstep_tracer_go.ReportBuffer.{ReportBuffer}
use lightstep_tracer_go.RawSpan.{Field, Value}
use lightstep_tracer_go.Base.{
  ℕ, Text, Bool, List, codes, ltb, ◌∷◌, if◌then◌else◌, take, [], ◌&&◌, inl, ◌++◌, ◌⊎◌, ◌-◌, length,
  some, add64, inr,
}

-- What `fmt` and `encoding/json` make of an arbitrary value: the text of the error for a value that is
-- not supported, and the JSON text or an error.
pub record Library : Type 0 where
  pub unsupported_text : Text → Value → Text
  pub json_marshal : Value → Text ⊎ Text

pub record ProtoConverter : Type 0 where
  pub verbose : Bool
  pub max_log_key_len : ℕ
  pub max_log_value_len : ℕ

-- A limit below 0 limits as little as 0 does.
unfoldable pub new_proto_converter : Options → ProtoConverter
new_proto_converter options = record {
  verbose = options.verbose;
  max_log_key_len = pos_part options.max_log_key_len;
  max_log_value_len = pos_part options.max_log_value_len;
}

-- `"…"` in UTF-8
abbrev pub ellipsis : Text
ellipsis = 0xe2 ∷ 0x80 ∷ 0xa6 ∷ []

-- The test and the slice that the three `setSafe…` functions share.
pub too_long : ℕ → Text → Bool
too_long max_len s = ltb 0 max_len && ltb max_len (length s)

pub cut : ℕ → Text → Text
cut max_len s = take (max_len - 1) s ++ ellipsis

pub set_safe_key : ProtoConverter → Text → Text
unfolding too_long cut
set_safe_key c key = if too_long c.max_log_key_len key then cut c.max_log_key_len key else key

pub set_safe_string_value : ProtoConverter → Text → KeyValueValue
unfolding too_long cut
set_safe_string_value c str =
    string_value (if too_long c.max_log_value_len str then cut c.max_log_value_len str else str)

pub set_safe_json_value : ProtoConverter → Text → KeyValueValue
unfolding too_long cut
set_safe_json_value c json =
    if too_long c.max_log_value_len json
    then string_value (cut c.max_log_value_len json)
    else json_value json

-- `grpcLogFieldEncoder`, without the converter, which does not change.
pub record LogFieldEncoder : Type 0 where
  pub buffer : ReportBuffer
  pub key_values : List KeyValue
  pub events : List Event

unfoldable pub emit_key_value : LogFieldEncoder → Text → KeyValueValue → LogFieldEncoder
emit_key_value lfe key value = record lfe {
  key_values = lfe.key_values ++ (record { key = key; value = value } ∷ []);
}

abbrev pub json_error_text : Text
json_error_text = codes "<json.Marshal error>"

module _ (lib : Library) (c : ProtoConverter) where
  unfoldable pub emit_object : Text → Value → LogFieldEncoder → LogFieldEncoder
  unfolding emit_key_value
  emit_object key value lfe = elim (lib.json_marshal value) [
    | inl err ↦
        emit_key_value
          (record lfe {
            events =
                lfe.events
                ++ (new_event_unsupported_value (lib.unsupported_text) key value (some err) ∷ []);
            buffer = record (lfe.buffer) {
              log_encoder_error_count = add64 lfe.buffer.log_encoder_error_count 1;
            };
          })
          (set_safe_key c key) (set_safe_string_value c json_error_text)
    | inr json ↦ emit_key_value lfe (set_safe_key c key) (set_safe_json_value c json)
  ]

  -- The `Emit…` methods, each at the field that calls it.
  unfoldable pub marshal_field : Field → LogFieldEncoder → LogFieldEncoder
  unfolding emit_key_value emit_object
  marshal_field (Field.string key value) lfe =
      emit_key_value lfe (set_safe_key c key) (set_safe_string_value c value)
  marshal_field (Field.bool key value) lfe =
      emit_key_value lfe (set_safe_key c key) (bool_value value)
  marshal_field (Field.int key value) lfe =
      emit_key_value lfe (set_safe_key c key) (int_value value)
  marshal_field (Field.int32 key value) lfe =
      emit_key_value lfe (set_safe_key c key) (int_value value)
  marshal_field (Field.int64 key value) lfe =
      emit_key_value lfe (set_safe_key c key) (int_value value)
  marshal_field (Field.uint32 key value) lfe =
      emit_key_value lfe (set_safe_key c key) (string_value (format_uint 10 value))
  marshal_field (Field.uint64 key value) lfe =
      emit_key_value lfe (set_safe_key c key) (string_value (format_uint 10 value))
  marshal_field (Field.float32 key value) lfe =
      emit_key_value lfe (set_safe_key c key) (double_value value)
  marshal_field (Field.float64 key value) lfe =
      emit_key_value lfe (set_safe_key c key) (double_value value)
  marshal_field (Field.object key value) lfe = emit_object key value lfe

  unfoldable pub marshal_fields : List Field → LogFieldEncoder → LogFieldEncoder
  marshal_fields [] lfe = lfe
  marshal_fields (f ∷ fields) lfe = marshal_fields fields (marshal_field f lfe)
