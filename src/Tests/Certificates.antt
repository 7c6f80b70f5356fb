-- ===== src/Tests/Certificates.antt =====
-- A run of the theorem on the certificates of a client.
use lightstep_tracer_go.Collector.Secured.{Secured, connected_client-Secured, Reachable}
use lightstep_tracer_go.Collector.Connecting.{
  Network, HttpCollectorClient, http_client, connect_http_client, make_collector_client,
  connect_collector_client,
}
use lightstep_tracer_go.Collector.Clients.{Dialled}
use lightstep_tracer_go.Options.{Options}
use lightstep_tracer_go.Base.{codes, inr, none, some, true, false, refl}
use lightstep_tracer_go.Tests.{test_options, test_endpoint}

abbrev test_network : Network
test_network = record {
  parse_url = λ u. inr (codes "https://localhost:8360", codes "/_rpc/v1/reports/binary");
  read_file = λ file. inr (codes "certificate");
  append_certs = λ cert. true;
  credentials_error = λ file. none;
}

abbrev secure_options : Options
secure_options = record test_options {
  use_http = true;
  collector = record test_endpoint { plaintext = false; custom_ca_cert_file = codes "ca.pem" };
}

abbrev secure_client : HttpCollectorClient
secure_client = record {
  access_token = secure_options.access_token;
  tls_client_config = some (codes "certificate");
  report_timeout = secure_options.report_timeout;
  reporting_period = secure_options.reporting_period;
  url = (codes "https://localhost:8360", codes "/api/v2/reports");
  client = none;
}

connected_client-Secured_example :
    Secured test_network secure_options (http_client secure_client)
    × Secured test_network secure_options (http_client (connect_http_client secure_client))
    × Reachable (http_client (connect_http_client secure_client))
unfolding make_collector_client connect_collector_client
connected_client-Secured_example =
    connected_client-Secured test_network secure_options (http_client secure_client)
      (http_client (connect_http_client secure_client)) 6 (Dialled.client) refl refl refl refl refl
