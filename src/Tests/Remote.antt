-- ===== src/Tests/Remote.antt =====
-- Runs of the theorems on the exporter, on contexts that are carried to another process, on the pool of random
-- sources and on the loop of the system metrics.
use lightstep_tracer_go.Tracer.Propagate.Remote.{
  child_of_remote, remote_child, text_maps, http_headers,
}
use lightstep_tracer_go.Span.{new_span}
use lightstep_tracer_go.Rand.PowerOfTwo.{next_nearest_pow2_uint64_lem}
use lightstep_tracer_go.Rand.RoundRobin.{picks, pool_round}
use lightstep_tracer_go.Tracer.{Output}
use lightstep_tracer_go.Tracer.Propagate.{
  AnyCarrier, tracer_inject, create_propagators, builtin, text_map_format, text_carrier,
  tracer_extract, http_headers_format,
}
use lightstep_tracer_go.Propagation.Binary.{Codec}
use lightstep_tracer_go.Rand.{next_nearest_pow2_uint64, MathRand, new_pool, Pool, seed_sources}
use lightstep_tracer_go.RawSpan.{SpanContext}
use lightstep_tracer_go.Propagation.{text_map}
use lightstep_tracer_go.Base.{
  ℕ, lookup, ◌≤◌, inl, ◌+◌, text_eq, ◌≡◌, ◌^◌, lower, [], ◌<◌, ◌-◌, refl, ◌*◌, List, inr, ◌⊎◌,
  length, arith, some, get_elem?, none, codes,
}
use lightstep_tracer_go.Tests.{test_context, test_tracer}

abbrev no_codec : Codec
no_codec = record {
  marshal = λ b. inl [];
  unmarshal = λ s. inl [];
  encode = λ s. s;
  decode = λ s. inr s;
}

remote_child_example :
    (carrier : AnyCarrier) × (sc' : SpanContext) × (out : List Output) × (out' : List Output)
    × (tracer_inject test_tracer
          (create_propagators no_codec [])
          (some test_context)
          (builtin text_map_format)
          (text_carrier (text_map []))
        ≡ some ((carrier, none), out))
    × (tracer_extract test_tracer
          (create_propagators no_codec [])
          (builtin http_headers_format)
          carrier
        ≡ some (inr sc', out'))
    × let s = new_span (codes "remote") (child_of_remote sc') 3 21 (22, 23) in
      (s.raw.context.trace_id ≡ 7)
      × (s.raw.parent_span_id ≡ 9)
      × (s.raw.context.sampled ≡ codes "true")
      × (lookup (codes "user") s.raw.context.baggage ≡ some (codes "ada"))
unfolding lookup text_eq lower
remote_child_example =
    remote_child no_codec no_codec test_tracer test_tracer (builtin text_map_format)
      (builtin http_headers_format) test_context (codes "remote") 3 21 (22, 23) (codes "user")
      text_maps http_headers (λ e. absurd (omega arith)) (omega arith) (omega arith) (refl, tt)
      (refl, tt)

-- A source that counts.
abbrev counting : MathRand ℕ
counting = record {
  new_source = λ seed. seed;
  seed = λ seed s. seed;
  int63 = λ s. (s, s + 1);
  uint32 = λ s. (s, s + 1);
  uint64 = λ s. (s, s + 1);
  int31 = λ s. (s, s + 1);
  int = λ s. (s, s + 1);
  int63n = λ n s. some (0, s + 1);
  int31n = λ n s. some (0, s + 1);
  intn = λ n s. some (0, s + 1);
  float64 = λ s. (s, s + 1);
  float32 = λ s. (s, s + 1);
  perm = λ n s. ([], s + 1);
  read = λ n s. ([], s + 1);
}

-- Five sources are rounded up to eight; the counter wraps in the middle of the round.
pool_round_example :
    let r = record (new_pool counting 1 5) { counter = 2 ^ 64 - 3 } in
    (is : List ℕ) × (r' : Pool ℕ) × (picks (length r.sources) r ≡ some (is, r'))
    × (length is ≡ length r.sources)
    × (i : ℕ) × (get_elem? is i ≡ some 3)
pool_round_example = pool_round counting 1 5 (2 ^ 64 - 3) 3 (omega arith) (omega arith) eight
  where
    eight : 3 < length (new_pool counting 1 5).sources
    eight = unfold new_pool next_nearest_pow2_uint64 seed_sources in omega arith

next_nearest_pow2_uint64_lem_example :
    ((1 ≤ 10)
      × (10 ≤ 2 ^ 63)
      × (k : ℕ) × (next_nearest_pow2_uint64 10 ≡ 2 ^ k)
      × (10 ≤ next_nearest_pow2_uint64 10)
      × (next_nearest_pow2_uint64 10 < 2 * 10))
    ⊎ ((◌≡◌ {A = ℕ} 10 0 ⊎ (2 ^ 63 < 10)) × (next_nearest_pow2_uint64 10 ≡ 0))
next_nearest_pow2_uint64_lem_example = next_nearest_pow2_uint64_lem 10 (omega arith)

sixteen : next_nearest_pow2_uint64 10 ≡ 16
unfolding next_nearest_pow2_uint64
sixteen = refl
