-- ===== src/Collector/Connecting.antt =====
-- collector_client_http.go, collector_client_grpc.go and collector_client_custom.go: how the clients are made and
-- connected. The transports themselves are net/http's and gRPC's.
use lightstep_tracer_go.Base.Int.{pos, negsuc, ℤ}
use lightstep_tracer_go.Time.{Duration, Time, zero_time}
use lightstep_tracer_go.Collector.Clients.{should_reconnect, connect_client, GrpcClient, Dialled}
use lightstep_tracer_go.Options.{Endpoint, Options}
use lightstep_tracer_go.Options.Addresses.{url, url_without_path, socket_address}
use lightstep_tracer_go.Collector.{new_collector_client, Options, custom, http, grpc}
use lightstep_tracer_go.Base.{
  ℕ, true, Text, Bool, if◌then◌else◌, ◌⊎◌, ◌*◌, Option, inr, ltb, false, List, inl, ◌/◌, some, suc,
  codes, ◌+◌, none, length, ◌∷◌, ◌==◌, [], ◌-◌, int_max, ◌^◌,
}

-- What the code asks other packages: `url.Parse`, which gives the text before the path and the path, or an error;
-- `ioutil.ReadFile`; whether a file has certificates that a pool takes; and the error of the credentials that
-- gRPC makes of a file.
pub record Network : Type 0 where
  pub parse_url : Text → Text ⊎ (Text × Text)
  pub read_file : Text → Text ⊎ Text
  pub append_certs : Text → Bool
  pub credentials_error : Text → Option Text

-- The timeouts and limits that `ConnectClient` gives to `http.Transport` and `http.Client`; the certificates are
-- those of the user, if there are any.
pub record Transport : Type 0 where
  pub dial_timeout : Duration
  pub disable_compression : Bool
  pub idle_conn_timeout : Duration
  pub tls_handshake_timeout : Duration
  pub response_header_timeout : Duration
  pub expect_continue_timeout : Duration
  pub max_response_header_bytes : ℕ
  pub root_cas : Option Text
  pub timeout : Duration

pub record HttpCollectorClient : Type 0 where
  pub access_token : Text
  pub tls_client_config : Option Text
  pub report_timeout : Duration
  pub reporting_period : Duration
  pub url : Text × Text
  pub client : Option Transport

pub data DialOption : Type 0 where
  dial_options : DialOption
  max_call_send_msg_size : ℤ → DialOption
  with_insecure : DialOption
  with_certificates : Text → DialOption
  with_system_certificates : DialOption

pub record GrpcCollectorClient : Type 0 where
  pub access_token : Text
  pub max_reporting_period : Duration
  pub reporting_timeout : Duration
  pub address : Text
  pub connection : GrpcClient
  pub options : List DialOption

-- Division of an integer by two, towards 0.
abbrev pub half : Duration → Duration
half (pos n) = pos (n / 2)
half (negsuc n) = if suc n / 2 == 0 then pos 0 else negsuc (suc n / 2 - 1)

-- Twice an integer, which wraps at the ends of `int64`.
abbrev pub double : Duration → Duration
double (pos n) = if ltb (2 * n) int_max then pos (2 * n) else negsuc (2 ^ 64 - 2 * n - 1)
double (negsuc n) = if ltb (2 * n + 1) int_max then negsuc (2 * n + 1) else pos (2 ^ 64 - 2 * n - 2)

-- `getTLSConfig`: the certificates that take the place of the system's.
unfoldable pub get_tls_config : Network → Text → Text ⊎ Option Text
get_tls_config net [] = inr none
get_tls_config net (c ∷ file) = elim (net.read_file (c ∷ file)) [
  | inl err ↦ inl err
  | inr cert ↦
      if net.append_certs cert
      then inr (some cert)
      else inl (codes "credentials: failed to append certificate")
]

unfoldable pub new_http_collector_client : Network → Options → Text ⊎ HttpCollectorClient
unfolding get_tls_config url
new_http_collector_client net opts = elim (net.parse_url (url opts.collector)) [
  | inl err ↦ inl err
  | inr (base, path) ↦ elim (get_tls_config net opts.collector.custom_ca_cert_file) [
    | inl err ↦ inl err
    | inr config ↦ inr (record {
      access_token = opts.access_token;
      tls_client_config = config;
      report_timeout = opts.report_timeout;
      reporting_period = opts.reporting_period;
      url = (base, codes "/api/v2/reports");
      client = none;
    })
  ]
]

-- `httpCollectorClient.ConnectClient`, which does not fail.
unfoldable pub connect_http_client : HttpCollectorClient → HttpCollectorClient
connect_http_client c =
    let transport : Transport = record {
      dial_timeout = half c.report_timeout;
      disable_compression = true;
      idle_conn_timeout = double c.reporting_period;
      tls_handshake_timeout = half c.report_timeout;
      response_header_timeout = c.report_timeout;
      expect_continue_timeout = c.report_timeout;
      max_response_header_bytes = 64 * 1024;
      root_cas = c.tls_client_config;
      timeout = c.report_timeout;
    } in
    record c { client = some transport }

-- The address of the gRPC client.
abbrev pub grpc_address : Endpoint → Text
grpc_address e = if ltb 0 (length e.scheme) then url_without_path e else socket_address e

-- The last options of a dial: the certificates. Left is the error of the credentials.
unfoldable pub credential_options : Network → Endpoint → Text ⊎ DialOption
credential_options net e =
    if e.plaintext
    then inr with_insecure
    else if ltb 0 (length e.custom_ca_cert_file)
    then elim (net.credentials_error e.custom_ca_cert_file) [
      | some err ↦ inl err
      | none ↦ inr (with_certificates e.custom_ca_cert_file)
    ]
    else inr with_system_certificates

-- `newGrpcCollectorClient`; the user's options come first.
unfoldable pub new_grpc_collector_client : Network → Options → Text ⊎ GrpcCollectorClient
unfolding credential_options url_without_path socket_address
new_grpc_collector_client net opts = elim (credential_options net opts.collector) [
  | inl err ↦ inl err
  | inr last ↦ inr (record {
    access_token = opts.access_token;
    max_reporting_period = opts.reporting_period;
    reporting_timeout = opts.report_timeout;
    address = grpc_address opts.collector;
    connection = record {
      connected = false;
      conn_timestamp = zero_time;
      reconnect_period = opts.reconnect_period;
    };
    options =
        dial_options ∷ max_call_send_msg_size opts.grpc_max_call_send_msg_size_bytes ∷ last ∷ [];
  })
]

pub data CollectorClient : Type 0 where
  custom_client : CollectorClient
  http_client : HttpCollectorClient → CollectorClient
  grpc_client : GrpcCollectorClient → CollectorClient

abbrev pub http_created : Text ⊎ HttpCollectorClient → Text ⊎ CollectorClient
http_created (inl err) = inl err
http_created (inr c) = inr (http_client c)

abbrev pub grpc_created : Text ⊎ GrpcCollectorClient → Text ⊎ CollectorClient
grpc_created (inl err) = inl err
grpc_created (inr c) = inr (grpc_client c)

-- `newCollectorClient` with the client that it makes.
unfoldable pub make_collector_client : Network → Options → Text ⊎ CollectorClient
unfolding new_collector_client new_http_collector_client new_grpc_collector_client
make_collector_client net opts = elim (new_collector_client opts) [
  | custom ↦ inr custom_client
  | http ↦ http_created (new_http_collector_client net opts)
  | grpc ↦ grpc_created (new_grpc_collector_client net opts)
]

-- `ConnectClient` of the three clients: an error, or the connected client.
unfoldable pub connect_collector_client : CollectorClient → Time → Dialled → Text ⊎ CollectorClient
unfolding connect_http_client connect_client
connect_collector_client custom_client now dialled = inr custom_client
connect_collector_client (http_client c) now dialled = inr (http_client (connect_http_client c))
connect_collector_client (grpc_client c) now dialled =
    let (err, connection') = connect_client c.connection now dialled in
    elim err [ some e ↦ inl e | none ↦ inr (grpc_client (record c { connection = connection' })) ]

-- `ShouldReconnect` of the three clients.
unfoldable pub client_should_reconnect : CollectorClient → Time → Bool
unfolding should_reconnect
client_should_reconnect custom_client now = false
client_should_reconnect (http_client c) now = false
client_should_reconnect (grpc_client c) now = should_reconnect c.connection now
