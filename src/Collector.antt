-- ===== src/Collector.antt =====
-- collector_client.go and collector_client_grpc.go: the requests that the tracer hands to a collector
-- client, their split into parts, and the answers. A `*collectorpb.ReportRequest` is an address of the
-- store, since the parts of a split hold the same pointer.
pub mod Split
pub mod Clients
pub mod Connecting
pub mod Secured
pub mod Reports
use lightstep_tracer_go.Base.{
  ℕ, Bool, false, List, Text, if◌then◌else◌, some, [], none, ◌∷◌, Option, suc, true, length, ltb,
  ◌==◌, ◌%◌, ◌||◌, take, drop, ◌/◌, leb, zero, ◌+◌,
}
use lightstep_tracer_go.Proto
use lightstep_tracer_go.Proto.{ReportResponse, Command}
use lightstep_tracer_go.Options.{Options}

abbrev pub Pointer : Type 0
Pointer = ℕ

abbrev pub Store : Type 0
Store = Pointer → Proto.ReportRequest

abbrev pub write : Store → Pointer → Proto.ReportRequest → Store
write store p request q = if q == p then request else store q

-- The HTTP request is its body.
pub record ReportRequest : Type 0 where
  pub proto_request : Option Pointer
  pub http_request : Option Text

-- The loop of `SplitByParts` for a request with the pointer `p`, on fuel. Each part is a copy `r` of the
-- receiver; the assignment to `r.protoRequest.Spans` goes through the pointer that all copies share.
unfoldable pub split_loop :
    ℕ → ℕ → ReportRequest → Pointer → List Proto.Span → Store → List ReportRequest × Store
split_loop zero max_size rr p spans store = ([], store)
split_loop (suc fuel) max_size rr p [] store = ([], store)
split_loop (suc fuel) max_size rr p (span ∷ rest) store =
    let spans = span ∷ rest in
    let s = if ltb (length spans) max_size then length spans else max_size in
    let r = rr in
    let store' = write store p (record (store p) { spans = take s spans }) in
    let (rrs, store'') = split_loop fuel max_size rr p (drop s spans) store' in (r ∷ rrs, store'')

-- `maxSize`
unfoldable pub max_part_size : ℕ → ℕ → ℕ
max_part_size n parts = if ltb 0 (n % parts) then n / parts + 1 else n / parts

-- `SplitByParts`, for `parts` of at least 1, which the only caller passes. Each round takes a span, so
-- the number of spans is enough fuel.
unfoldable pub split_by_parts : ReportRequest → ℕ → Store → List ReportRequest × Store
unfolding split_loop max_part_size
split_by_parts rr parts store = elim (rr.proto_request) [
  | none ↦ (rr ∷ [], store)
  | some p ↦
      let spans = (store p).spans in
      if (length spans == 0) || leb parts 1
      then (rr ∷ [], store)
      else split_loop (length spans) (max_part_size (length spans) parts) rr p spans store
]

-- `protoResponse.Disable` and `DevMode`
unfoldable pub any_disable : List Command → Bool
any_disable [] = false
any_disable (command ∷ commands) = if command.disable then true else any_disable commands

unfoldable pub response_disable : ReportResponse → Bool
unfolding any_disable
response_disable res = any_disable res.commands

unfoldable pub any_dev_mode : List Command → Bool
any_dev_mode [] = false
any_dev_mode (command ∷ commands) = if command.dev_mode then true else any_dev_mode commands

unfoldable pub response_dev_mode : ReportResponse → Bool
unfolding any_dev_mode
response_dev_mode res = any_dev_mode res.commands

-- The client that `newCollectorClient` makes.
pub data ClientKind : Type 0 where
  custom http grpc : ClientKind

unfoldable pub new_collector_client : Options → ClientKind
new_collector_client opts =
    if opts.custom_collector
    then custom
    else if opts.use_http
    then http
    else if opts.use_grpc
    then grpc
    else http

-- `grpcCollectorClient.Translate`, and that of the custom collector
unfoldable pub grpc_translate : Pointer → ReportRequest
grpc_translate p = record { proto_request = some p; http_request = none }
