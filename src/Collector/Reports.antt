-- ===== src/Collector/Reports.antt =====
-- collector_client_http.go and collector_client_grpc.go: the results of a report, and the connections.
use lightstep_tracer_go.Proto.{ReportResponse}
use lightstep_tracer_go.Collector.{ReportRequest, Store, Pointer, ReportResponse, split_by_parts}
use lightstep_tracer_go.Collector.Clients.{
  Wire, HttpAnswer, http_translate, http_report, answered, read_answer, to_request, to_response,
  failed, with_body, new_body,
}
use lightstep_tracer_go.Base.{
  ℕ, Text, ◌≡◌, some, inr, ◌↔◌, ◌∷◌, [], ◌⊎◌, refl, none, sym, ◌∙◌, arith, inl, ap, Bool-cases,
  ◌==◌, if_false, not, Option,
}

-- A body comes from bytes that were marshalled.
translated :
    (marshalled : Text ⊎ Text) (request_error : Option Text) (req : ReportRequest)
    → with_body (new_body marshalled request_error) ≡ inr req
    → (body : Text) × (marshalled ≡ inr body)
      × (req.http_request ≡ some body)
      × (req.proto_request ≡ none)
unfolding with_body new_body
translated (inl err) request_error req h = absurd (ground arith)
translated (inr body) (some err) req h = absurd (ground arith)
translated (inr body) none req h = (body, refl, ground arith, ground arith)

whole_request :
    (req : ReportRequest) (parts : ℕ) (store : Store)
    → req.proto_request ≡ none
    → split_by_parts req parts store ≡ (req ∷ [], store)
unfolding split_by_parts
whole_request req parts store h = ground arith

module _ (wire : Wire) where
  Accepted : HttpAnswer → ReportResponse → Type 0
  Accepted answer resp =
      (bytes : Text) × (answer ≡ answered 200 (inr bytes)) × (wire.unmarshal bytes ≡ inr resp)

  accepted :
      (answer : HttpAnswer) (resp : ReportResponse)
      → read_answer wire answer ≡ inr resp
      → Accepted answer resp
  unfolding read_answer Accepted to_response
  accepted (failed err) resp e = absurd (ground arith)
  accepted (answered status (inl err)) resp e = absurd (ground arith)
  accepted (answered status (inr bytes)) resp e = elim (Bool-cases (status == 200)) [
    | inl same ↦ (
      bytes,
      ap (λ s. answered s (inr bytes)) {x = status} {y = 200} (ground arith),
      sym (if_false _ _ (ap not same)) ∙ e,
    )
    | inr other ↦ absurd (ground arith)
  ]

  http_report_reads :
      (req : ReportRequest) (body : Text) (answer : HttpAnswer)
      → req.http_request ≡ some body
      → http_report wire req answer ≡ read_answer wire answer
  unfolding http_report
  http_report_reads req body answer h = rw (h, http_report) refl

  -- The HTTP client accepts an answer in one case only: the status is 200, the body could be read, and it is
  -- a message, which is the result. This is for a request that the client has translated.
  pub http_report_lem :
      (req : ReportRequest) (body : Text) (answer : HttpAnswer) (resp : ReportResponse)
      → req.http_request ≡ some body
      → (http_report wire req answer ≡ inr resp)
        ↔ ((bytes : Text) × (answer ≡ answered 200 (inr bytes)) × (wire.unmarshal bytes ≡ inr resp))
  unfolding Accepted read_answer to_response
  http_report_lem req body answer resp h =
      let reads = http_report_reads req body answer h in
      (
        λ e. accepted answer resp (sym reads ∙ e),
        λ (bytes, e, u). reads ∙ ap (read_answer wire) e ∙ u,
      )

  -- The HTTP client marshals all spans of a request, and what it sends is never split, whatever number of
  -- parts the flush asks for.
  pub http_translate-whole :
      (store store' : Store) (p : Pointer) (req : ReportRequest) (parts : ℕ)
      → http_translate wire store p ≡ inr req
      → (split_by_parts req parts store' ≡ (req ∷ [], store'))
        × ((body : Text) × (wire.marshal (store p) ≡ inr body) × (req.http_request ≡ some body))
  unfolding http_translate to_request
  http_translate-whole store store' p req parts h =
      let (body, m, sent, no_proto) =
        translated (wire.marshal (store p)) wire.request_error req h in
      (whole_request req parts store' no_proto, (body, m, sent))
