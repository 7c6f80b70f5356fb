-- ===== src/Lib.antt =====
-- A verification library of the LightStep tracer for Go.
--
-- A `Tracer` hands out spans. A span collects tags, baggage and logs, and its finish hands a raw
-- span to the tracer, which keeps it in a bounded report buffer. A report loop flushes: the tracer
-- swaps its two buffers, converts the raw spans to a protobuf request, splits the request in parts
-- by a size heuristic, sends the parts with a collector client, and then clears the flushed buffer,
-- or merges it back into the other one if the report failed. An answer may disable the tracer.
-- Propagators write a span context into a carrier and read it back. Events tell the user what
-- happened.
--
-- The files and the code they model, by paths from the root of the repository:
-- - Time, Strconv: what the code uses of Go's `time` and `strconv`.
-- - RawSpan: raw_span.go. `RawSpan` and `SpanContext` are the structs; a map is a list of items.
-- - ReportBuffer: report_buffer.go, one function for each method. The spans are a list with the
--   capacity of the slice, and the counters are 64-bit patterns. Merge has what becomes of the
--   spans, Counts the counters and the invariant `IsValid`.
-- - Proto: the messages of collectorpb that the tracer fills or reads.
-- - Events: events.go, with the texts in Texts; Handlers and Global are event_handlers.go.
-- - Propagation: propagation.go; TextMap, LightStep, B3, Binary and Stack are propagation_text.go,
--   propagation_lightstep.go, propagation_b3.go, propagation_binary.go and propagation_stack.go.
--   protobuf and base64 are the parameter `Codec` of Binary.
-- - Options: options.go; Initialize has the defaults and `Validate`, Defaults what they promise,
--   and Addresses the addresses of an endpoint. StartOptions has the start-span options of that
--   file.
-- - LogEncoder and Converter: proto_logencoder.go and proto_converter.go; Unsupported has their
--   events. What `fmt` and `encoding/json` make of a value is the parameter `Library`.
-- - Collector: collector_client.go, with the gRPC, HTTP and custom clients of
--   collector_client_grpc.go, collector_client_http.go and collector_client_custom.go in Clients,
--   and how they are made and connected in Connecting, with the certificates in Secured. A pointer
--   to a request is an address of a store, as the parts of a split share one.
-- - Span: span.go, one function for each method; `ToLogRecord` of opentracing is a parameter.
--   Rotate is `rotateLogBuffer`, Ring, Finish and Lifecycle follow the circular log buffer, Once
--   what a span records, and Start the parents of a span.
-- - Tracer: tracer.go, the tracer's state and its locked sections; Flush has `Flush` and
--   `FlushSingle`, Loop `reportLoop` and `Close`. Ledger has the sections as steps of any
--   interleaving, Balance the account of the spans over them, Sections the steps of a flush,
--   Sending a flush that is split, Parts the number of parts, Once the single run of `Close`,
--   Shutdown the closed tracer, and Disabled the disabled one. Observed has what the events tell
--   of the spans, with Calls, Accounts, Idle and Delivered for the calls of a program.
--   SystemMetrics is `systemMetricsLoop`, with its Rounds and their Account, Propagate `Inject`
--   and `Extract`, and Create `CreateTracer` and `NewTracer`, with what these ask of the
--   environment in the record `System`. Helpers is tracer_helpers.go and tracer_0_14.go, and
--   Closing follows what `NewTracerv0_14` returns to its end.
-- - Metrics: internal/metrics/reporter.go, its configuration, labels and retries; Reporting has the
--   reporter and its points, with `Measure` in Measuring, and System is
--   internal/metrics/metrics.go. gopsutil and `float64` are arguments.
-- - Exporter: lightstepoc/exporter.go and lightstepoc/internal/conversions/package.go, with the
--   options of lightstepoc/options.go in Settings; Recorded follows `ExportSpan` to the finished
--   span.
-- - Rand: lightstep/rand and util.go; Locked is locked_rand.go, and math/rand is a parameter. Bits
--   has the laws of the bit operations, PowerOfTwo and RoundRobin what the pool does with them.
-- - Tests: the theorems at concrete inputs.
--
-- Bounds and fuel: machine words wrap where the code's do, apart from the sizes of the heuristic,
-- which stay far below the range of `int`. The rotation and the split run on fuel of one round for
-- each element, since a round settles one; the retries on one for each second of the timeout and
-- two more, since each retry waits for a second at least. All else is structural recursion.
--
-- The limits of the options are integers with a sign, and a panic for a negative size of the span
-- buffers is a result of `NewTracer`. A negative `MaxLogsPerSpan` panics at the first log, which
-- `append_log` does not say: it reads the limit as 0 there. `FlushSingle` uses the text of the
-- collector's error as a format, and `report_error` takes the text as it is.
--
-- Not modelled: the locks (each function is one locked section or a sequence of them), the insides
-- of net/http and gRPC, and the examples and programs. The spans that the tracer starts on the
-- global tracer to report on itself are outputs, and not spans of the model.
pub mod Base
pub mod Time
pub mod Strconv
pub mod RawSpan
pub mod ReportBuffer
pub mod Proto
pub mod Events
pub mod Exporter
pub mod Rand
pub mod Propagation
pub mod Options
pub mod Collector
pub mod LogEncoder
pub mod Converter
pub mod Metrics
pub mod StartOptions
pub mod Span
pub mod Tracer
pub mod Tests
