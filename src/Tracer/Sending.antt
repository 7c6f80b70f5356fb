-- ===== src/Tracer/Sending.antt =====
-- tracer.go: what a flush sends when the collector accepts all reports.
use lightstep_tracer_go.Time.{Time}
use lightstep_tracer_go.ReportBuffer.{clear}
use lightstep_tracer_go.Events.{StatusReport, status_report, FlushError}
use lightstep_tracer_go.Collector.{
  Store, ReportRequest, response_disable, response_dev_mode, Pointer, max_part_size, grpc_translate,
  split_by_parts,
}
use lightstep_tracer_go.Proto.{ReportResponse}
use lightstep_tracer_go.Collector.Split.{copies, with_spans, split_by_parts_lem}
use lightstep_tracer_go.Tracer.{
  Tracer, Output, StatusReport, send, emit, post_flush, post_flush_sent, clear, Time,
}
use lightstep_tracer_go.Tracer.Flush.{
  flush_single, flush_parts, sent, report_error, send_report, Run, is_some, error_output,
}
use lightstep_tracer_go.Base.{
  ℕ, Text, ◌⊎◌, ◌≡◌, Bool, [], none, false, suc, inr, ◌+◌, zero, refl, ap, if◌then◌else◌, ◌||◌,
  List, ◌∷◌, ◌<◌, ◌++◌, ◌∙◌, length, ◌*◌, ◌≤◌, some, drop, subst, Option, sym, append-nil,
}

-- An answer without an error and without the command to disable the tracer.
pub data Accepts : Text ⊎ ReportResponse → Type 0 where
  accepts :
      (resp : ReportResponse)
      → resp.errors ≡ []
      → response_disable resp ≡ false
      → Accepts (inr resp)

pub flush_single-Accepts :
    (t : Tracer) (answer : Text ⊎ ReportResponse)
    → Accepts answer
    → (mode : Bool) × (flush_single t answer
        ≡ (none, none, record t { meta_event_reporting_enabled = mode }, []))
unfolding flush_single
flush_single-Accepts t _ (accepts resp e d) = (response_dev_mode resp, rw (d, e, report_error) refl)

flush_parts-Accepts :
    (answer : ℕ → Text ⊎ ReportResponse) (store : Store) (i n : ℕ) (rr : ReportRequest) (t : Tracer)
    → ((k : ℕ) → Accepts (answer k))
    → (t' : Tracer) × (flush_parts answer store i (copies n rr) t
        ≡ (none, t', copies n (sent store rr)))
      × (t'.flushing ≡ t.flushing)
unfolding flush_parts copies
flush_parts-Accepts answer store i zero rr t h = (t, refl, refl)
flush_parts-Accepts answer store i (suc n) rr t h =
    let (mode, e) = flush_single-Accepts t (answer i) (h i) in
    let (t', e', f) =
      flush_parts-Accepts answer store (i + 1) n rr
        (record t { meta_event_reporting_enabled = mode }) h in
    (
      t',
      ap
            (λ r.
              let (failed, t', out') = flush_parts answer store (i + 1) (copies n rr) r.2 in
              if is_some r.0 || is_some r.1
              then (r.1, r.2, sent store rr ∷ r.3)
              else (failed, t', sent store rr ∷ (r.3 ++ out')))
            e
          ∙ ap (λ r. (r.0, r.1, sent store rr ∷ r.2)) e',
      f,
    )

post_flush-sent :
    (t : Tracer) (start end : Time)
    → let (status, t') = post_flush t start end none in
      (status.sent_spans ≡ length t.flushing.raw_spans) × (t'.flushing.raw_spans ≡ [])
unfolding post_flush post_flush_sent clear
post_flush-sent t start end = (refl, refl)

-- What `send_report` makes of the result `r` of the loop.
Reported :
    Tracer → Run → List Output → List Output → Option FlushError × Tracer × List Output → Type 0
Reported t run out sends r =
    let (status', t') = post_flush r.1 run.flush_start run.flush_end r.0 in
    (status : StatusReport) × (out ++ r.2 ++ error_output r.0 ++ (emit (status_report status') ∷ [])
      ≡ out ++ sends ++ (emit (status_report status) ∷ []))
    × (status.sent_spans ≡ length t.flushing.raw_spans)
    × (t'.flushing.raw_spans ≡ [])

reported :
    (t t' : Tracer) (run : Run) (out sends : List Output)
    → t'.flushing ≡ t.flushing
    → Reported t run out sends (none, t', sends)
unfolding Reported
reported t t' run out sends f =
    let (n, clear) = post_flush-sent t' run.flush_start run.flush_end in
    let status = (post_flush t' run.flush_start run.flush_end none).0 in
    (
      status,
      ap (λ x. x ++ (emit (status_report status) ∷ [])) (append-nil (out ++ sends)),
      n ∙ ap (λ b. length b.raw_spans) f,
      clear,
    )

-- A flush whose spans are cut into more than one part, with parts of `m` spans and the last part `j`: when
-- the collector accepts all reports, the flush sends `j + 1` messages, each with the spans of the last part
-- only, its status report calls all spans of the buffer sent, and the buffer is empty afterwards. So the
-- spans before the last part reach no collector. This is for a client that translates as the gRPC client.
pub send_report_split :
    (p : Pointer) (parts j : ℕ) (t : Tracer) (run : Run) (store : Store) (out : List Output)
    → 1 < parts
    → let spans = (store p).spans in
      let m = max_part_size (length spans) parts in
      j * m < length spans
      → length spans ≤ m + j * m
      → ((k : ℕ) → Accepts (run.answer k))
      → let (t', out') = send_report (inr (grpc_translate p)) parts t run store out in
        (status : StatusReport) × (out'
          ≡ out
            ++ copies (suc j) (send (some (with_spans (store p) (drop (j * m) spans))) none)
            ++ (emit (status_report status) ∷ []))
        × (status.sent_spans ≡ length t.flushing.raw_spans)
        × (t'.flushing.raw_spans ≡ [])
unfolding send_report copies grpc_translate Reported
send_report_split p parts j t run store out h lo hi ok =
    let rr = grpc_translate p in
    let (rrs, few, last) = split_by_parts_lem rr p parts j store refl h lo hi in
    let store' = (split_by_parts rr parts store).1 in
    let (t', e, f) = flush_parts-Accepts run.answer store' 0 (suc j) rr t ok in
    let message =
      with_spans (store p)
        (drop (j * max_part_size (length (store p).spans) parts) (store p).spans) in
    let whole =
      ap (λ x. flush_parts run.answer store' 0 x t) rrs
      ∙ e
      ∙ ap (λ q. (none, t', copies (suc j) (send (some q) none))) last in
    subst (Reported t run out (copies (suc j) (send (some message) none))) (sym whole)
      (reported t t' run out (copies (suc j) (send (some message) none)) f)
