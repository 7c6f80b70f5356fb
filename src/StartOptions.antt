-- ===== src/StartOptions.antt =====
-- The start-span options of options.go, and what they hold of the opentracing options.
use lightstep_tracer_go.Time.{Time, zero_time}
use lightstep_tracer_go.RawSpan.{SpanContext, Tags}
use lightstep_tracer_go.Base.{ℕ, Option, List, Text, ◌∷◌, []}

-- opentracing's references. `none` is a context of another tracer.
pub data ReferenceType : Type 0 where
  child_of follows_from other_reference : ReferenceType

pub record Reference : Type 0 where
  pub type : ReferenceType
  pub referenced_context : Option SpanContext

-- opentracing's own `StartSpanOptions`
pub record OpentracingOptions : Type 0 where
  pub references : List Reference
  pub start_time : Time
  pub tags : Tags

pub record StartSpanOptions : Type 0 where
  pub options : OpentracingOptions
  pub set_span_id : ℕ
  pub set_parent_span_id : ℕ
  pub set_trace_id : ℕ
  pub set_sampled : Text

-- The tracer's own options, and any other with the effect of its `Apply` method.
pub data StartSpanOption : Type 0 where
  span_id : ℕ → StartSpanOption
  trace_id : ℕ → StartSpanOption
  parent_span_id : ℕ → StartSpanOption
  sampled : Text → StartSpanOption
  opentracing : (OpentracingOptions → OpentracingOptions) → StartSpanOption

-- `applyLS` and `Apply`
unfoldable pub apply_option : StartSpanOption → StartSpanOptions → StartSpanOptions
apply_option (span_id sid) sso = record sso { set_span_id = sid }
apply_option (trace_id sid) sso = record sso { set_trace_id = sid }
apply_option (parent_span_id sid) sso = record sso { set_parent_span_id = sid }
apply_option (sampled s) sso = record sso { set_sampled = s }
apply_option (opentracing f) sso = record sso { options = f sso.options }

unfoldable pub apply_options : List StartSpanOption → StartSpanOptions → StartSpanOptions
unfolding apply_option
apply_options [] opts = opts
apply_options (o ∷ sso) opts = apply_options sso (apply_option o opts)

unfoldable pub new_start_span_options : List StartSpanOption → StartSpanOptions
unfolding apply_options
new_start_span_options sso = apply_options sso (record {
  options = record { references = []; start_time = zero_time; tags = [] };
  set_span_id = 0;
  set_parent_span_id = 0;
  set_trace_id = 0;
  set_sampled = [];
})
