-- ===== src/Collector/Clients.antt =====
-- collector_client_http.go, collector_client_grpc.go and collector_client_custom.go: what the clients do
-- around net/http, gRPC and the user's collector.
use lightstep_tracer_go.Proto.{ReportResponse}
use lightstep_tracer_go.Base.Int.{ltb_ℤ}
use lightstep_tracer_go.Collector.{Store, ReportRequest, Pointer}
use lightstep_tracer_go.Time.{Time, Duration, sub}
use lightstep_tracer_go.Proto
use lightstep_tracer_go.Base.{
  ℕ, Text, Bool, Option, ◌⊎◌, some, inl, codes, inr, none, if◌then◌else◌, not, true, ◌==◌,
}

-- What protobuf, net/http and `fmt` make of their arguments: the bytes of a message or an error, the error of
-- a new request, the message of bytes or an error, and the text for a status code.
pub record Wire : Type 0 where
  pub marshal : Proto.ReportRequest → Text ⊎ Text
  pub request_error : Option Text
  pub unmarshal : Text → Text ⊎ ReportResponse
  pub status_text : ℕ → Text

-- The outcome of `client.Do`: an error, or a status code with the bytes of the body or the error of reading
-- them.
pub data HttpAnswer : Type 0 where
  failed : Text → HttpAnswer
  answered : ℕ → Text ⊎ Text → HttpAnswer

-- `toRequest` from the bytes of the message and the error of `http.NewRequest` on: the body.
unfoldable pub new_body : Text ⊎ Text → Option Text → Text ⊎ Text
new_body (inl err) request_error = inl err
new_body (inr buf) none = inr buf
new_body (inr buf) (some err) = inl err

unfoldable pub with_body : Text ⊎ Text → Text ⊎ ReportRequest
with_body (inl err) = inl err
with_body (inr body) = inr (record { proto_request = none; http_request = some body })

module _ (wire : Wire) where
  unfoldable pub to_request : Proto.ReportRequest → Text ⊎ Text
  unfolding new_body
  to_request request = new_body (wire.marshal request) wire.request_error

  -- `httpCollectorClient.Translate`
  unfoldable pub http_translate : Store → Pointer → Text ⊎ ReportRequest
  unfolding to_request with_body
  http_translate store p = with_body (to_request (store p))

  unfoldable pub to_response : ℕ → Text ⊎ Text → Text ⊎ ReportResponse
  to_response status (inl err) =
      if not (status == 200) then inl (wire.status_text status) else inl err
  to_response status (inr body) =
      if not (status == 200) then inl (wire.status_text status) else wire.unmarshal body

  unfoldable pub read_answer : HttpAnswer → Text ⊎ ReportResponse
  unfolding to_response
  read_answer (failed err) = inl err
  read_answer (answered status read) = to_response status read

  -- `httpCollectorClient.Report`
  unfoldable pub http_report : ReportRequest → HttpAnswer → Text ⊎ ReportResponse
  unfolding read_answer
  http_report req answer = elim (req.http_request) [
    | none ↦ inl (codes "httpRequest cannot be null")
    | some body ↦ read_answer answer
  ]

-- `grpcCollectorClient.Report`, and that of the custom collector, with the answer of the service.
unfoldable pub grpc_report : ReportRequest → Text ⊎ ReportResponse → Text ⊎ ReportResponse
grpc_report req answer = elim (req.proto_request) [
  | none ↦ inl (codes "protoRequest cannot be null")
  | some p ↦ answer
]

-- `grpcCollectorClient`, as far as it changes: is there a client, and since when.
pub record GrpcClient : Type 0 where
  pub connected : Bool
  pub conn_timestamp : Time
  pub reconnect_period : Duration

-- What the connector factory or `grpc.Dial` gives: an error, or a client, which the factory may fail to give.
pub data Dialled : Type 0 where
  dial_error : Text → Dialled
  no_client : Dialled
  client : Dialled

-- `ConnectClient`
unfoldable pub connect_client : GrpcClient → Time → Dialled → Option Text × GrpcClient
connect_client c now (dial_error err) = (some err, c)
connect_client c now no_client =
    (some (codes "gRPC connector factory did not provide valid client"), c)
connect_client c now client = (none, record c { connected = true; conn_timestamp = now })

-- `ShouldReconnect`; that of the other two clients is `false`.
unfoldable pub should_reconnect : GrpcClient → Time → Bool
should_reconnect c now = ltb_ℤ c.reconnect_period (sub now c.conn_timestamp)
