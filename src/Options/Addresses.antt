-- ===== src/Options/Addresses.antt =====
-- options.go: the addresses of an endpoint.
use lightstep_tracer_go.Options.Initialize.{scheme}
use lightstep_tracer_go.Options.{Endpoint}
use lightstep_tracer_go.Strconv.{decimal}
use lightstep_tracer_go.Base.{Text, ◌++◌, codes}

unfoldable pub socket_address : Endpoint → Text
socket_address e = e.host ++ codes ":" ++ decimal e.port

-- `HostPort`
unfoldable pub host_port : Endpoint → Text
unfolding socket_address
host_port e = socket_address e

unfoldable pub url_without_path : Endpoint → Text
unfolding scheme socket_address
url_without_path e = scheme e ++ codes "://" ++ socket_address e

-- `URL`
unfoldable pub url : Endpoint → Text
unfolding url_without_path
url e = url_without_path e ++ codes "/_rpc/v1/reports/binary"
