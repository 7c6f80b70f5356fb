-- ===== src/Propagation/B3/TraceIds.antt =====
-- The trace identifiers of the B3 headers.
use lightstep_tracer_go.Base.{
  ℕ, Text, ◌^◌, ◌<◌, ◌≤◌, word_mod, length, ◌≡◌, some, take, ◌/◌, ◌++◌, arith, ◌∷◌, ◌%◌, [], drop,
  ap, append_assoc, ◌∙◌, take-append_exact, sym, length-append, drop-append,
}
use lightstep_tracer_go.Strconv.{format_uint, parse_uint, digit_char}
use lightstep_tracer_go.Strconv.RoundTrip.{parse_uint-format_uint}
use lightstep_tracer_go.Strconv.Digits.{length-format_uint, format_uint-init}
use lightstep_tracer_go.Propagation.B3.{trace_id_parser, format_trace_id}

reads_back : (n : ℕ) → n < word_mod → parse_uint 16 (format_uint 16 n) ≡ some n
reads_back = parse_uint-format_uint 16 (omega arith) (omega arith)

-- A trace identifier of 64 bits is read back as it was written.
pub trace_id_parser_short :
    (lower : ℕ) → lower < word_mod → trace_id_parser (format_trace_id lower 0) ≡ some (lower, 0)
unfolding trace_id_parser format_trace_id
trace_id_parser_short lower h = ground (arith, reads_back lower h, length-format_uint lower h)

split_upper :
    (init : Text) (d : ℕ) (rest : Text)
    → length init ≡ 15
    → (take 15 ((init ++ (d ∷ [])) ++ rest) ≡ init) × (drop 16 ((init ++ (d ∷ [])) ++ rest) ≡ rest)
split_upper init d rest h = (
  ap (take 15) (append_assoc init (d ∷ []) rest) ∙ take-append_exact 15 init _ (sym h),
  ap (λ n. drop n ((init ++ (d ∷ [])) ++ rest)) {x = 16}
        (omega (arith, length-append init (d ∷ []), h))
      ∙ drop-append (init ++ (d ∷ [])) rest,
)

parse_split :
    (v : Text) (lower upper : ℕ)
    → length v ≡ 32
    → parse_uint 16 (take 15 v) ≡ some upper
    → parse_uint 16 (drop 16 v) ≡ some lower
    → trace_id_parser v ≡ some (lower, upper)
unfolding trace_id_parser
parse_split v lower upper n u l = ground arith

format_long :
    (lower upper : ℕ)
    → 1 ≤ upper
    → format_trace_id lower upper ≡ format_uint 16 upper ++ format_uint 16 lower
unfolding format_trace_id
format_long lower upper h = ground arith

-- A trace identifier of 128 bits, both halves written with 16 digits, loses the last digit of its
-- upper half: `b3TraceIDParser` slices 15 digits where `formatTraceID` has written 16.
pub trace_id_parser_long :
    (lower upper : ℕ)
    → 2 ^ 60 ≤ lower
    → lower < word_mod
    → 2 ^ 60 ≤ upper
    → upper < word_mod
    → trace_id_parser (format_trace_id lower upper) ≡ some (lower, upper / 16)
trace_id_parser_long lower upper l₁ l₂ u₁ u₂ =
    let (init, e, n, p) = format_uint-init upper u₂ u₁ in
    let parts = split_upper init (digit_char (upper % 16)) (format_uint 16 lower) n in
    let written = format_long lower upper (omega arith) ∙ ap (λ t. t ++ format_uint 16 lower) e in
    ap trace_id_parser written
    ∙ parse_split _ lower (upper / 16)
        (omega (
          arith,
          length-append (init ++ (digit_char (upper % 16) ∷ [])) (format_uint 16 lower),
          length-append init (digit_char (upper % 16) ∷ []),
          (length-format_uint lower l₂).1 l₁,
          n,
        ))
        (ap (parse_uint 16) parts.0 ∙ p) (ap (parse_uint 16) parts.1 ∙ reads_back lower l₂)
