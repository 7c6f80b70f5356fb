-- ===== src/Tracer/Sections.antt =====
-- tracer.go: `Flush` and the steps of the ledger.
use lightstep_tracer_go.Events.{FlushError, translate}
use lightstep_tracer_go.Converter.{to_report_request}
use lightstep_tracer_go.LogEncoder.{Library}
use lightstep_tracer_go.Time.{Time}
use lightstep_tracer_go.Collector.{
  Store, ReportRequest, response_dev_mode, response_disable, Pointer, split_by_parts, write,
}
use lightstep_tracer_go.Proto.{ReportResponse}
use lightstep_tracer_go.Tracer.{
  Tracer, Time, disable, pre_flush, FlushError, post_flush, Output, emit,
}
use lightstep_tracer_go.Converter.Account.{bump, with_errors, to_spans_lem}
use lightstep_tracer_go.Tracer.Ledger.{
  run_actions, Action, Ledger, count_error, act, encoding, disabling, announcing, switching,
  starting, ending,
}
use lightstep_tracer_go.Tracer.Flush.{
  flush_single, flush_parts, first_report, is_some, flush_buffer, flush, Run, sent, send_report,
  heuristic_byte_size, parts_of_size,
}
use lightstep_tracer_go.Base.{
  ℕ, [], List, Text, ◌++◌, suc, ap, ◌⊎◌, ◌≡◌, ◌∙◌, inl, ◌∷◌, refl, zero, inr, ◌+◌, Bool,
  if◌then◌else◌, Option, ◌||◌, true, false, subst, sym, some, none, map,
}

-- Some steps lead from one tracer to the other, whatever the ledger.
abbrev pub Reaches : Tracer → Tracer → Type 0
Reaches t t' = (actions : List Action) × ((l : Ledger) → (run_actions actions (t, l)).0 ≡ t')

run_actions-append :
    (xs ys : List Action) (s : Tracer × Ledger)
    → run_actions (xs ++ ys) s ≡ run_actions ys (run_actions xs s)
unfolding run_actions
run_actions-append [] ys s = refl
run_actions-append (a ∷ xs) ys s = run_actions-append xs ys (act a s)

stay : (t : Tracer) → Reaches t t
unfolding run_actions
stay t = ([], λ l. refl)

then-Reaches : (t t' t'' : Tracer) → Reaches t t' → Reaches t' t'' → Reaches t t''
then-Reaches t t' t'' (xs, e) (ys, e') = (
  xs ++ ys,
  λ l.
      ap (λ s. s.0) (run_actions-append xs ys (t, l))
      ∙ ap (λ u. (run_actions ys (u, (run_actions xs (t, l)).1)).0) (e l)
      ∙ e' (run_actions xs (t, l)).1,
)

one : (a : Action) (t t' : Tracer) → ((l : Ledger) → (act a (t, l)).0 ≡ t') → Reaches t t'
unfolding run_actions
one a t t' h = (a ∷ [], h)

pick {ℓ} :
    {A : Type ℓ} (b : Bool) (t : Tracer) (f : A → Tracer) (x y : A)
    → Reaches t (f x)
    → Reaches t (f y)
    → Reaches t (f (if b then x else y))
pick true t f x y h k = h
pick false t f x y h k = k

counted : (t : Tracer) → Reaches t (count_error t)
unfolding act
counted t = one encoding t (count_error t) (λ l. refl)

errors-Reaches :
    (k : ℕ) (t : Tracer)
    → Reaches t
        (record t { flushing = with_errors t.flushing (bump k t.flushing.log_encoder_error_count) })
unfolding bump count_error
errors-Reaches zero t = stay t
errors-Reaches (suc k) t =
    then-Reaches t (count_error t) _ (counted t) (errors-Reaches k (count_error t))

disable-Reaches : (t : Tracer) → Reaches t (disable t).0
unfolding act
disable-Reaches t = one disabling t (disable t).0 (λ l. refl)

switched : (t : Tracer) (mode : Bool) → Reaches t (record t { meta_event_reporting_enabled = mode })
unfolding act
switched t mode = one (switching mode) t _ (λ l. refl)

flush_single-Reaches :
    (t : Tracer) (answer : Text ⊎ ReportResponse) → Reaches t (flush_single t answer).2
unfolding flush_single
flush_single-Reaches t (inl err) = stay t
flush_single-Reaches t (inr resp) =
    let mode = response_dev_mode resp in
    let t' = record t { meta_event_reporting_enabled = mode } in
    then-Reaches t t' _ (switched t mode) (
      pick (response_disable resp) t' (λ r. r.0) (disable t') (t', []) (disable-Reaches t')
        (stay t'))

flush_parts-Reaches :
    (answer : ℕ → Text ⊎ ReportResponse) (store : Store) (i : ℕ) (rrs : List ReportRequest)
    (t : Tracer)
    → Reaches t (flush_parts answer store i rrs t).1
unfolding flush_parts
flush_parts-Reaches answer store i [] t = stay t
flush_parts-Reaches answer store i (rr ∷ rrs) t =
    let (err, failed, t', out) = flush_single t (answer i) in
    let (failed', t'', out') = flush_parts answer store (i + 1) rrs t' in
    let first = flush_single-Reaches t (answer i) in
    pick {A = Option FlushError × Tracer × List Output} (is_some err || is_some failed) t (λ r. r.1)
      (failed, t', sent store rr ∷ out) (failed', t'', sent store rr ∷ (out ++ out')) first
      (then-Reaches t t' t'' first (flush_parts-Reaches answer store (i + 1) rrs t'))

post_flush-Reaches :
    (t : Tracer) (start end : Time) (failed : Option FlushError)
    → Reaches t (post_flush t start end failed).1
unfolding act
post_flush-Reaches t start end failed = one (ending start end failed) t _ (λ l. refl)

pre_flush-Reaches : (t : Tracer) (now : Time) → Reaches t (pre_flush t now).1
unfolding act
pre_flush-Reaches t now = one (starting now) t _ (λ l. refl)

first_report-Reaches : (t : Tracer) → Reaches t (first_report t).0
unfolding act
first_report-Reaches t = one announcing t _ (λ l. refl)

send_report-Reaches :
    (translated : Text ⊎ ReportRequest) (parts : ℕ) (t : Tracer) (run : Run) (store : Store)
    (out : List Output)
    → Reaches t (send_report translated parts t run store out).0
unfolding send_report
send_report-Reaches (inl err) parts t run store out =
    post_flush-Reaches t run.flush_start run.flush_end
      (some (record { err = err; state = translate }))
send_report-Reaches (inr req) parts t run store out =
    let (rrs, store') = split_by_parts req parts store in
    let (failed, t', out') = flush_parts run.answer store' 0 rrs t in
    then-Reaches t t' _ (flush_parts-Reaches run.answer store' 0 rrs t)
      (post_flush-Reaches t' run.flush_start run.flush_end failed)

module _ (lib : Library) (translate_request : Store → Pointer → Text ⊎ ReportRequest) where
  converted :
      (t : Tracer)
      → Reaches t (record t {
        flushing =
            (to_report_request lib t.converter t.reporter_id t.attributes t.opts.access_token
              t.flushing).1;
      })
  unfolding to_report_request
  converted t =
      let (k, o, l, b) = to_spans_lem lib t.converter t.flushing.raw_spans t.flushing in
      subst (λ x. Reaches t (record t { flushing = x })) (sym b) (errors-Reaches _ t)

  flush_buffer-Reaches :
      (refused : Option FlushError) (t : Tracer) (run : Run) (store : Store)
      → Reaches t (flush_buffer lib translate_request refused t run store).0
  unfolding flush_buffer
  flush_buffer-Reaches (some e) t run store = stay t
  flush_buffer-Reaches none t run store =
      let (t₁, out) = first_report t in
      let spans = t₁.flushing.raw_spans in
      let (request, flushing', events) =
        to_report_request lib t₁.converter t₁.reporter_id t₁.attributes t₁.opts.access_token
          t₁.flushing in
      let store' = write store run.address request in
      let t₂ = record t₁ { flushing = flushing' } in
      then-Reaches t t₁ _ (first_report-Reaches t) (
        then-Reaches t₁ t₂ _ (converted t₁) (
          send_report-Reaches (translate_request store' run.address)
            (parts_of_size (heuristic_byte_size spans run.random0 run.random1)
              t₁.opts.grpc_max_call_send_msg_size_bytes)
            t₂ run store' (out ++ map emit events)))

  -- The tracer that a flush leaves is one that steps of the ledger lead to.
  pub flush-Reaches :
      (t : Tracer) (run : Run) (store : Store)
      → Reaches t (flush lib translate_request t run store).0
  unfolding flush
  flush-Reaches t run store =
      let (refused, t') = pre_flush t run.now in
      then-Reaches t t' _ (pre_flush-Reaches t run.now) (flush_buffer-Reaches refused t' run store)
