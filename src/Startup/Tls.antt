-- ===== src/Startup/Tls.antt =====
-- What the program asks of the TLS library: `server_config` of src/common/incoming.rs,
-- `quic_server_config` and `initial_suite_from_provider` of src/quic, and
-- `with_custom_certificate_verifier` of src/common/outgoing.rs, with the endpoint of src/webtransport.
use xmpp_proxy.Prelude.{
  ℕ, Bool, true, false, Bytes, codes, List, [], ◌∷◌, ◌++◌, Option, none, some, Outcome, ok, err,
  panic, ◌>>=◌, invalid_key, tls_error,
}
use xmpp_proxy.Startup.Certs.{KeyProvider, CertsKey}

abbrev pub alpn_xmpp_client : Bytes
alpn_xmpp_client = codes "xmpp-client"

abbrev pub alpn_xmpp_server : Bytes
alpn_xmpp_server = codes "xmpp-server"

-- `web_transport_quinn::ALPN`, that of HTTP/3
abbrev pub alpn_webtransport : Bytes
alpn_webtransport = codes "h3"

-- a cipher suite of the provider: whether it is TLS13_AES_128_GCM_SHA256, and, of one of TLS 1.3, the
-- suite that it has for QUIC
pub record CipherSuite : Type 0 where
  pub is_aes_128_gcm_sha256 : Bool
  pub tls13 : Option (Option ℕ)

abbrev quic_suite : Bool → Option (Option ℕ) → Option ℕ
quic_suite true (some suite) = suite
quic_suite true none = none
quic_suite false t = none

unfoldable pub find_suite : List CipherSuite → Option ℕ
find_suite [] = none
find_suite (cs ∷ suites) = elim (quic_suite cs.is_aes_128_gcm_sha256 cs.tls13) [
  | none ↦ find_suite suites
  | some s ↦ some s
]

abbrev found_suite : Option ℕ → Outcome ℕ
found_suite none = err tls_error
found_suite (some s) = ok s

-- `none` is a program with no default provider
unfoldable pub initial_suite_from_provider : Option (List CipherSuite) → Outcome ℕ
initial_suite_from_provider none = err tls_error
initial_suite_from_provider (some suites) = found_suite (find_suite suites)

-- A certificate of the peer is asked for, and any or none is taken: it is checked later.
pub record ServerConfig (k : KeyProvider) : Type 0 where
  pub cert_resolver : CertsKey k
  pub alpn_protocols : List Bytes

unfoldable pub server_config : {k : KeyProvider} → CertsKey k → Outcome (ServerConfig k)
server_config (err e) = err invalid_key
server_config panic = panic
server_config (ok c) =
    ok (record { cert_resolver = ok c; alpn_protocols = alpn_xmpp_client ∷ alpn_xmpp_server ∷ [] })

unfoldable pub quic_server_config :
    {k : KeyProvider} → Option (List CipherSuite) → ServerConfig k → Outcome (ServerConfig k × ℕ)
quic_server_config suites c = initial_suite_from_provider suites >>= λ suite.
    ok (record c { alpn_protocols = c.alpn_protocols ++ alpn_webtransport ∷ [] }, suite)

-- `rustls::ClientConfig`: the verifier, the key of a server that connects, and the protocols offered
pub record ClientConfig (k : KeyProvider) (V : Type 0) : Type 0 where
  pub cert_verifier : V
  pub client_cert_resolver : Option (CertsKey k)
  pub alpn_protocols : List Bytes

pub record OutgoingConfig (k : KeyProvider) : Type 0 where
  pub max_stanza_size_bytes : ℕ
  pub certs_key : CertsKey k

pub record OutgoingVerifierConfig (k : KeyProvider) (V : Type 0) : Type 0 where
  pub max_stanza_size_bytes : ℕ
  pub config_alpn : ClientConfig k V
  pub connector_alpn : ClientConfig k V
  pub connector : ClientConfig k V

abbrev client_config :
    {k : KeyProvider} {V : Type 0} → OutgoingConfig k → Bool → V → ClientConfig k V
client_config c false v = record {
  cert_verifier = v;
  client_cert_resolver = some c.certs_key;
  alpn_protocols = [];
}
client_config c true v = record {
  cert_verifier = v;
  client_cert_resolver = none;
  alpn_protocols = [];
}

abbrev pub alpn_of : Bool → Bytes
alpn_of true = alpn_xmpp_client
alpn_of false = alpn_xmpp_server

unfoldable pub with_custom_certificate_verifier :
    {k : KeyProvider} {V : Type 0} → OutgoingConfig k → Bool → V → OutgoingVerifierConfig k V
with_custom_certificate_verifier c is_c2s v =
    let config = client_config c is_c2s v in
    let config_alpn = record config {
      alpn_protocols = config.alpn_protocols ++ alpn_of is_c2s ∷ [];
    } in
    record {
      max_stanza_size_bytes = c.max_stanza_size_bytes;
      config_alpn = config_alpn;
      connector_alpn = config_alpn;
      connector = config;
    }

-- the configuration of `wte`: as for QUIC, under the protocol of WebTransport alone
unfoldable pub webtransport_config :
    {k : KeyProvider} {V : Type 0} → OutgoingVerifierConfig k V → ClientConfig k V
webtransport_config c = record c.config_alpn { alpn_protocols = alpn_webtransport ∷ [] }
