-- ===== src/Tests/Clients.antt =====
-- Runs of the theorems on the collector clients.
use lightstep_tracer_go.Collector.Reports.{http_report_lem, http_translate-whole}
use lightstep_tracer_go.Base.Int.{pos}
use lightstep_tracer_go.Collector.{split_by_parts, ReportRequest}
use lightstep_tracer_go.Collector.Clients.{
  http_report, should_reconnect, http_translate, Wire, read_answer, answered, to_request, new_body,
  to_response, with_body,
}
use lightstep_tracer_go.Base.{none, inr, ◌≡◌, true, ◌∷◌, some, length, [], refl, ◌↔◌, Text, inl}
use lightstep_tracer_go.Tests.Reports.{test_store}

-- A wire on which a message is its number of spans.
abbrev test_wire : Wire
test_wire = record {
  marshal = λ request. inr (length request.spans ∷ []);
  request_error = none;
  unmarshal = λ bytes. inr (record { errors = bytes ∷ []; commands = [] });
  status_text = λ code. code ∷ [];
}

abbrev five_spans : ReportRequest
five_spans = record { proto_request = none; http_request = some (5 ∷ []) }

http_report_lem_example :
    (http_report test_wire five_spans (answered 200 (inr (1 ∷ [])))
      ≡ inr (record { errors = (1 ∷ []) ∷ []; commands = [] }))
    ↔ ((bytes : Text) × (answered 200 (inr (1 ∷ [])) ≡ answered 200 (inr bytes))
        × (test_wire.unmarshal bytes ≡ inr (record { errors = (1 ∷ []) ∷ []; commands = [] })))
http_report_lem_example =
    http_report_lem test_wire five_spans (5 ∷ []) (answered 200 (inr (1 ∷ [])))
      (record { errors = (1 ∷ []) ∷ []; commands = [] }) refl

five_translated : http_translate test_wire test_store 0 ≡ inr five_spans
unfolding http_translate to_request new_body with_body
five_translated = refl

http_translate-whole_example :
    (split_by_parts five_spans 3 test_store ≡ (five_spans ∷ [], test_store))
    × ((body : Text) × (test_wire.marshal (test_store 0) ≡ inr body) × (some (5 ∷ []) ≡ some body))
http_translate-whole_example =
    http_translate-whole test_wire test_store test_store 0 five_spans 3 five_translated

not_found : http_report test_wire five_spans (answered 404 (inr [])) ≡ inl (404 ∷ [])
unfolding http_report read_answer to_response
not_found = refl

-- A connection is kept for the reconnect period.
stale :
    should_reconnect (record { connected = true; conn_timestamp = 5; reconnect_period = pos 3 }) 9
    ≡ true
unfolding should_reconnect
stale = refl
