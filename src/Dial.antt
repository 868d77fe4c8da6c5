-- ===== src/Dial.antt =====
-- The connect functions of src/tls/outgoing.rs, src/quic/outgoing.rs, src/websocket/outgoing.rs and
-- src/webtransport/outgoing.rs, and the `match` of `XmppConnection::connect` in src/srv.rs over them.
-- What the libraries do is an interface. An endpoint is made once, of a configuration that does not
-- change; here its value stands for the cell that keeps it.
pub mod Secured
use xmpp_proxy.Prelude.{
  ℕ, ◌*◌, ◌%◌, ◌^◌, Bool, true, Bytes, codes, List, Option, none, some, Outcome, ok, err, panic,
  ◌>>=◌, no_endpoint, invalid_name,
}
use xmpp_proxy.Filter.{StanzaFilter}
use xmpp_proxy.Wire.{Sink}
use xmpp_proxy.Websocket.Messages.{async_write, web_socket_client_write}
use xmpp_proxy.Session.{async_read, web_socket_read}
use xmpp_proxy.Handle.{Stream, WebSocket}
use xmpp_proxy.Starttls.Outgoing.{starttls_connect, starttls_left}
use xmpp_proxy.Srv.Types.{
  IpAddr, External, XmppConnectionType, start_tls, direct_tls, quic, web_socket, web_transport,
}
use xmpp_proxy.Srv.Connect.{Wires, Transports}
use xmpp_proxy.Startup.Certs.{KeyProvider}
use xmpp_proxy.Startup.Tls.{
  CipherSuite, ClientConfig, OutgoingVerifierConfig, initial_suite_from_provider,
  webtransport_config,
}

pub record WebSocketConfig : Type 0 where
  pub max_frame_size : ℕ
  pub max_message_size : ℕ
  pub accept_unmasked_frames : Bool

unfoldable pub ws_cfg : ℕ → WebSocketConfig
ws_cfg max_stanza_size_bytes = record {
  max_frame_size = max_stanza_size_bytes;
  max_message_size = max_stanza_size_bytes * 4 % 2 ^ 64;
  accept_unmasked_frames = true;
}

-- The calls of the libraries. `unread` is what a socket still gives when a reader that read ahead of
-- the given bytes is dropped.
pub record Library (x : External) (k : KeyProvider) (V : Type 0) : Type 1 where
  pub connect_tcp : IpAddr → ℕ → Outcome Stream
  pub unread : Bytes → Bytes
  pub connect_tls : ClientConfig k V → x.ServerName → Stream → Outcome Stream
  pub default_suites : Option (List CipherSuite)
  pub Endpoint : Type 0
  pub client_endpoint : ClientConfig k V → ℕ → Outcome Endpoint
  pub Connection : Type 0
  pub connect_quic : Endpoint → IpAddr → ℕ → Bytes → Outcome Connection
  pub connect_session : Connection → x.Url → Outcome Connection
  pub open_bi : Connection → Outcome Stream
  pub Request : Type 0
  pub into_client_request : x.Uri → Outcome Request
  pub append : Bytes → Bytes → Request → Outcome Request
  pub client_async : Request → WebSocketConfig → Stream → Outcome WebSocket
  pub lookup_ip : Bytes → Outcome (List IpAddr)

abbrev pub stream_wires : Stream → Wires
stream_wires s = record { writer = async_write s.sink; reader = async_read s.src s.ending }

abbrev pub websocket_wires : WebSocket → Wires
websocket_wires ws = record {
  writer = web_socket_client_write ws.writer;
  reader = web_socket_read ws.msgs ws.ending;
}

-- `ServerName::try_from(server_name)?`
abbrev pub named {ℓ} : {A : Type ℓ} → Option A → Outcome A
named none = err invalid_name
named (some n) = ok n

-- what is kept of an endpoint that cannot be made is the text of the error
abbrev pub endpoint {ℓ} : {A : Type ℓ} → Outcome A → Outcome A
endpoint (ok e) = ok e
endpoint (err e) = err no_endpoint
endpoint panic = panic

module _ {x : External} {k : KeyProvider} {V : Type 0} (lib : Library x k V)
    (config : OutgoingVerifierConfig k V) where
  unfoldable pub tls_connect : IpAddr → ℕ → Bytes → Outcome Wires
  tls_connect ip port name = named (x.server_name name) >>= λ dnsname.
      lib.connect_tcp ip port >>= λ s.
      lib.connect_tls config.connector_alpn dnsname s >>= λ t. ok (stream_wires t)

  -- TLS over the socket, behind the server's `<proceed`
  unfoldable pub proceed : x.ServerName → Stream → Bytes → Sink → Outcome Wires
  proceed dnsname s rest out =
      lib.connect_tls config.connector dnsname
        (record { src = lib.unread rest; ending = s.ending; sink = out })
      >>= λ t. ok (stream_wires t)

  unfoldable pub start_over :
      Bytes → StanzaFilter → x.ServerName → Stream → Outcome Wires × StanzaFilter
  start_over header f dnsname s =
      let (g, rest) = starttls_left header f s.sink s.src s.ending in
      (starttls_connect header f s.sink s.src s.ending >>= proceed dnsname s rest, g)

  abbrev start_with :
      Outcome (x.ServerName × Stream) → Bytes → StanzaFilter → Outcome Wires × StanzaFilter
  start_with (ok (dnsname, s)) header f = start_over header f dnsname s
  start_with (err e) header f = (err e, f)
  start_with panic header f = (panic, f)

  -- `starttls_connect`, with the filter that it leaves
  unfoldable pub dial_starttls :
      IpAddr → ℕ → Bytes → Bytes → StanzaFilter → Outcome Wires × StanzaFilter
  dial_starttls ip port name header f =
      start_with
        (named (x.server_name name) >>= λ dnsname. lib.connect_tcp ip port >>= λ s. ok (dnsname, s))
        header f

  -- `qe` and `wte`
  abbrev pub client_of : ClientConfig k V → Outcome lib.Endpoint
  client_of c = initial_suite_from_provider lib.default_suites >>= lib.client_endpoint c

  unfoldable pub quic_endpoint : Outcome lib.Endpoint
  quic_endpoint = endpoint (client_of config.config_alpn)

  unfoldable pub quic_connect : IpAddr → ℕ → Bytes → Outcome Wires
  quic_connect ip port name = quic_endpoint >>= λ e.
      lib.connect_quic e ip port name >>= λ c. lib.open_bi c >>= λ s. ok (stream_wires s)

  unfoldable pub webtransport_endpoint : Outcome lib.Endpoint
  webtransport_endpoint = endpoint (client_of (webtransport_config config))

  unfoldable pub webtransport_connect : IpAddr → ℕ → Bytes → x.Url → Outcome Wires
  webtransport_connect ip port name url = webtransport_endpoint >>= λ e.
      lib.connect_quic e ip port name >>= λ c.
      lib.connect_session c url >>= λ session. lib.open_bi session >>= λ s. ok (stream_wires s)

  unfoldable pub websocket_connect : IpAddr → ℕ → Bytes → x.Uri → Bytes → Outcome Wires
  websocket_connect ip port name url origin = lib.into_client_request url >>= λ bare.
      lib.append (codes "sec-websocket-protocol") (codes "xmpp") bare >>= λ with_protocol.
      lib.append (codes "origin") origin with_protocol >>= λ request.
      named (x.server_name name) >>= λ dnsname. lib.connect_tcp ip port >>= λ s.
      lib.connect_tls config.connector dnsname s >>= λ t.
      lib.client_async request (ws_cfg config.max_stanza_size_bytes) t >>= λ ws.
      ok (websocket_wires ws)

  unfoldable pub dial :
      XmppConnectionType x
      → IpAddr
      → ℕ
      → Bytes
      → Bytes
      → StanzaFilter
      → Outcome Wires × StanzaFilter
  dial start_tls ip port name header f = dial_starttls ip port name header f
  dial direct_tls ip port name header f = (tls_connect ip port name, f)
  dial quic ip port name header f = (quic_connect ip port name, f)
  dial (web_socket url origin) ip port name header f =
      (websocket_connect ip port name url origin, f)
  dial (web_transport url) ip port name header f = (webtransport_connect ip port name url, f)

  abbrev pub transports : Transports x
  transports = record {
    dial = λ conn_type ip port name header f. dial conn_type ip port name header f;
    lookup_ip = lib.lookup_ip;
  }
