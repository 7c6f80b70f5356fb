-- ===== src/Tests/Starting.antt =====
-- Runs of the theorems on the start of a tracer and on the wrapper of v0.14.
use lightstep_tracer_go.Events.{tracer_disabled}
use lightstep_tracer_go.Base.Int.{negsuc}
use lightstep_tracer_go.Tracer.{create_tracer}
use lightstep_tracer_go.Tracer.Helpers.{new_tracer_v0_14, get_access_token}
use lightstep_tracer_go.Tracer.Flush.{is_some}
use lightstep_tracer_go.Options.Initialize.{initialize}
use lightstep_tracer_go.Collector.Clients.{Dialled}
use lightstep_tracer_go.Tracer.Create.{
  System, new_tracer, start_tracer, tracer_of_options, tracer_of_client, connected_tracer,
  new_tracer_of,
}
use lightstep_tracer_go.Base.{◌≡◌, [], inl, inr, some, none, codes, refl, false, true}
use lightstep_tracer_go.Tests.{test_options, create_tracer}

abbrev test_system : System
test_system = record {
  env = record {
    stat_error = λ file. some file;
    program = codes "server";
    hostname = codes "host";
    command_line = codes "server -v";
    jittered = λ d. d;
  };
  net = record {
    parse_url = λ u. inr (u, []);
    read_file = λ file. inl file;
    append_certs = λ cert. false;
    credentials_error = λ file. some file;
  };
  sprint = λ v. [];
  go_version = codes "go1.15";
  metrics_enabled = codes "FALSE";
  tracer_id = 11;
  now = 5;
  dialled = Dialled.client;
  dialled_at = 6;
  codec = record {
    marshal = λ b. inl [];
    unmarshal = λ s. inl [];
    encode = λ s. s;
    decode = λ s. inr s;
  };
}

-- The options of the tests start a tracer, and a tracer without a connection does not start.
starts :
    elim (new_tracer test_system [] test_options).0 [ none ↦ false | some r ↦ is_some r ] ≡ true
unfolding new_tracer start_tracer tracer_of_options tracer_of_client connected_tracer new_tracer_of
    initialize
starts = refl

-- A negative size of the buffer is a panic.
negative_size :
    (new_tracer test_system [] (record test_options { max_buffered_spans = negsuc 0 })).0 ≡ none
unfolding new_tracer
negative_size = refl

refused :
    (new_tracer (record test_system { dialled = Dialled.no_client }) [] test_options).0 ≡ some none
unfolding new_tracer
refused = refl

-- The token of the options, behind the wrapper.
token :
    elim (new_tracer_v0_14 test_system [] test_options).0 [
      | none ↦ inl tracer_disabled
      | some t ↦ get_access_token t
    ]
    ≡ inr (codes "token")
unfolding get_access_token new_tracer_v0_14 create_tracer
token = refl
