-- ===== src/Collector/Secured.antt =====
-- collector_client.go and the clients: the certificates that a secured endpoint is reached with.
use lightstep_tracer_go.Collector.Clients.{Dialled, connect_client}
use lightstep_tracer_go.Collector.{new_collector_client, custom, http, grpc}
use lightstep_tracer_go.Time.{Time}
use lightstep_tracer_go.Collector.Connecting.{
  Network, CollectorClient, DialOption, get_tls_config, credential_options, custom_client,
  http_client, grpc_client, dial_options, max_call_send_msg_size, with_certificates,
  with_system_certificates, make_collector_client, connect_collector_client,
  new_grpc_collector_client, new_http_collector_client, Transport, connect_http_client,
  http_created, grpc_created,
}
use lightstep_tracer_go.Options.Addresses.{url, url_without_path, socket_address}
use lightstep_tracer_go.Options.{Endpoint, Options}
use lightstep_tracer_go.Options.Initialize.{scheme}
use lightstep_tracer_go.Base.{
  Text, true, false, Option, some, none, ◌⊎◌, inl, inr, ◌≡◌, ◌∷◌, [], codes, refl, Sum-cases,
  Bool-cases, Option-cases, subst, sym, ltb, length, lt→ltb, arith, ◌++◌, ap, ◌∙◌,
}

-- The certificates of the user, if a file is named, which must be one that a pool takes; else none, for those of
-- the system.
unfoldable pub Trusted : Network → Text → Option Text → Type 0
Trusted net [] config = config ≡ none
Trusted net (c ∷ file) config =
    (cert : Text) × (net.read_file (c ∷ file) ≡ inr cert)
    × (net.append_certs cert ≡ true)
    × (config ≡ some cert)

-- The option of a dial that has the certificates.
unfoldable pub Credentials : Network → Text → DialOption → Type 0
Credentials net [] o = o ≡ with_system_certificates
Credentials net (c ∷ file) o =
    (net.credentials_error (c ∷ file) ≡ none) × (o ≡ with_certificates (c ∷ file))

-- The URL of reports to an endpoint, with encryption.
abbrev pub secure_url : Endpoint → Text
secure_url e = codes "https://" ++ (socket_address e ++ codes "/_rpc/v1/reports/binary")

-- A client with the certificates that the options ask for, and, over HTTP, with a URL for encryption.
unfoldable pub Secured : Network → Options → CollectorClient → Type 0
Secured net opts custom_client = ⊥
Secured net opts (http_client c) =
    Trusted net opts.collector.custom_ca_cert_file c.tls_client_config
    × ((base : Text) × (path : Text) × (net.parse_url (secure_url opts.collector)
          ≡ inr (base, path))
        × (c.url ≡ (base, codes "/api/v2/reports")))
Secured net opts (grpc_client c) =
    (o : DialOption) × Credentials net opts.collector.custom_ca_cert_file o
    × (c.options
        ≡ dial_options ∷ max_call_send_msg_size opts.grpc_max_call_send_msg_size_bytes ∷ o ∷ [])

-- A client after `ConnectClient`: its transport is there and has the certificates, or its connection is.
unfoldable pub Reachable : CollectorClient → Type 0
Reachable custom_client = ⊥
Reachable (http_client c) =
    (transport : Transport) × (c.client ≡ some transport)
    × (transport.root_cas ≡ c.tls_client_config)
Reachable (grpc_client c) = c.connection.connected ≡ true

abbrev IfMade {ℓ} : {A : Type ℓ} → (A → Type 0) → Text ⊎ A → Type 0
IfMade P (inl err) = Unit
IfMade P (inr a) = P a

get_tls_config-Trusted :
    (net : Network) (file : Text) → IfMade (Trusted net file) (get_tls_config net file)
unfolding get_tls_config Trusted
get_tls_config-Trusted net [] = refl
get_tls_config-Trusted net (c ∷ file) = elim (Sum-cases (net.read_file (c ∷ file))) [
  | inl (err, e) ↦ rw (e, IfMade, get_tls_config) tt
  | inr (cert, e) ↦ elim (Bool-cases (net.append_certs cert)) [
    | inl a ↦ rw (e, IfMade, get_tls_config, a) (cert, e, a, refl)
    | inr a ↦ rw (e, IfMade, get_tls_config, a) tt
  ]
]

secured_endpoint :
    (net : Network) (e : Endpoint) (file : Text)
    → IfMade
        (Credentials net file)
        (credential_options net (record e { plaintext = false; custom_ca_cert_file = file }))
unfolding credential_options Credentials
secured_endpoint net e [] = refl
secured_endpoint net e (c ∷ file) =
    let named : ltb 0 (length (c ∷ file)) ≡ true = lt→ltb 0 (length (c ∷ file)) (omega arith) in
    elim (Option-cases (net.credentials_error (c ∷ file))) [
      | inl n ↦ rw (named, n, IfMade) (n, refl)
      | inr (err, n) ↦ rw (named, n, IfMade) tt
    ]

credential_options-Credentials :
    (net : Network) (e : Endpoint)
    → e.plaintext ≡ false
    → IfMade (Credentials net e.custom_ca_cert_file) (credential_options net e)
credential_options-Credentials net e h =
    subst
      (λ b.
        IfMade (Credentials net e.custom_ca_cert_file)
          (credential_options net (record e { plaintext = b })))
      (sym h) (secured_endpoint net e e.custom_ca_cert_file)

https_url : (e : Endpoint) → e.scheme ≡ [] → e.plaintext ≡ false → url e ≡ secure_url e
unfolding url url_without_path scheme
https_url e no_scheme h = rw (no_scheme, h) refl

http_made :
    (net : Network) (opts : Options)
    → opts.collector.scheme ≡ []
    → opts.collector.plaintext ≡ false
    → IfMade (λ c. Secured net opts (http_client c)) (new_http_collector_client net opts)
unfolding new_http_collector_client Secured
http_made net opts no_scheme h =
    let file = opts.collector.custom_ca_cert_file in
    let trusted = get_tls_config-Trusted net file in
    let same = ap net.parse_url (https_url opts.collector no_scheme h) in
    elim (Sum-cases (net.parse_url (url opts.collector))) [
      | inl (err, e) ↦ rw (e, IfMade, new_http_collector_client) tt
      | inr ((base, path), e) ↦ elim (Sum-cases (get_tls_config net file)) [
        | inl (err, g) ↦ rw (e, IfMade, new_http_collector_client, g) tt
        | inr (config, g) ↦
            rw (e, IfMade, new_http_collector_client, g)
              (subst (IfMade (Trusted net file)) g trusted, (base, path, sym same ∙ e, refl))
      ]
    ]

grpc_made :
    (net : Network) (opts : Options)
    → opts.collector.plaintext ≡ false
    → IfMade (λ c. Secured net opts (grpc_client c)) (new_grpc_collector_client net opts)
unfolding new_grpc_collector_client Secured
grpc_made net opts h =
    let file = opts.collector.custom_ca_cert_file in
    let credentials = credential_options-Credentials net opts.collector h in
    elim (Sum-cases (credential_options net opts.collector)) [
      | inl (err, e) ↦ rw (e, IfMade) tt
      | inr (o, e) ↦ rw (e, IfMade) (o, subst (IfMade (Credentials net file)) e credentials, refl)
    ]

-- The other constructor of a client.
wrapped_made :
    {A : Type 0} (P : CollectorClient → Type 0) (wrap : A → CollectorClient) (r : Text ⊎ A)
    (made : Text ⊎ A → Text ⊎ CollectorClient)
    → ((err : Text) → made (inl err) ≡ inl err)
    → ((a : A) → made (inr a) ≡ inr (wrap a))
    → IfMade (λ a. P (wrap a)) r
    → IfMade P (made r)
wrapped_made P wrap (inl err) made e e' h = subst (IfMade P) (sym (e err)) tt
wrapped_made P wrap (inr a) made e e' h = subst (IfMade P) (sym (e' a)) h

custom_kind :
    (opts : Options) → opts.custom_collector ≡ false → new_collector_client opts ≡ custom → ⊥
unfolding new_collector_client
custom_kind opts own h = absurd (ground arith)

make_collector_client-Secured :
    (net : Network) (opts : Options)
    → opts.custom_collector ≡ false
    → opts.collector.scheme ≡ []
    → opts.collector.plaintext ≡ false
    → IfMade (Secured net opts) (make_collector_client net opts)
unfolding make_collector_client Secured
make_collector_client-Secured net opts own no_scheme h =
    let by_http =
      wrapped_made (Secured net opts) http_client (new_http_collector_client net opts) http_created
        (λ err. refl) (λ c. refl) (http_made net opts no_scheme h) in
    let by_grpc =
      wrapped_made (Secured net opts) grpc_client (new_grpc_collector_client net opts) grpc_created
        (λ err. refl) (λ c. refl) (grpc_made net opts h) in
    elim (new_collector_client opts)
        as (λ k.
          new_collector_client opts ≡ k
          → IfMade (Secured net opts) (elim k as (λ x. Text ⊎ CollectorClient) [
            | custom ↦ inr custom_client
            | http ↦ http_created (new_http_collector_client net opts)
            | grpc ↦ grpc_created (new_grpc_collector_client net opts)
          ])) [ custom ↦ λ k. custom_kind opts own k | http ↦ λ k. by_http | grpc ↦ λ k. by_grpc ]
      refl

connect-Secured :
    (net : Network) (opts : Options) (c : CollectorClient) (now : Time) (dialled : Dialled)
    → Secured net opts c
    → IfMade (λ c'. Secured net opts c' × Reachable c') (connect_collector_client c now dialled)
unfolding connect_collector_client connect_http_client connect_client Secured Reachable
connect-Secured net opts custom_client now dialled h = (h, h)
connect-Secured net opts (http_client c) now dialled h = (h, (_, refl, refl))
connect-Secured net opts (grpc_client c) now (Dialled.dial_error err) h = tt
connect-Secured net opts (grpc_client c) now Dialled.no_client h = tt
connect-Secured net opts (grpc_client c) now Dialled.client h = (h, refl)

-- An endpoint that is not plaintext, with no scheme of its own, and no custom collector: the client that is made
-- has certificates, over HTTP with the certificates of its configuration and a URL that starts with https, and
-- over gRPC with a last dial option for credentials. The certificates are those of the file that the options
-- name, which could be read and taken, and those of the system if they name none. Once it is connected, the
-- client still has them: over HTTP there is a transport, which trusts them, and over gRPC there is a
-- connection.
pub connected_client-Secured :
    (net : Network) (opts : Options) (c c' : CollectorClient) (now : Time) (dialled : Dialled)
    → opts.custom_collector ≡ false
    → opts.collector.scheme ≡ []
    → opts.collector.plaintext ≡ false
    → make_collector_client net opts ≡ inr c
    → connect_collector_client c now dialled ≡ inr c'
    → Secured net opts c × Secured net opts c' × Reachable c'
connected_client-Secured net opts c c' now dialled own no_scheme h made connected =
    let secured : Secured net opts c =
      subst (IfMade (Secured net opts)) made
        (make_collector_client-Secured net opts own no_scheme h) in
    let (still, ready) =
      subst (IfMade (λ c'. Secured net opts c' × Reachable c')) connected
        (connect-Secured net opts c now dialled secured) in
    (secured, still, ready)
