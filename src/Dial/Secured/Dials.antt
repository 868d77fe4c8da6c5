-- ===== src/Dial/Secured/Dials.antt =====
-- Behind which handshake an outgoing connection speaks, of whatever kind.
use xmpp_proxy.Prelude.{ℕ, ◌≡◌, sym, subst, Bool, Bytes, codes, ok, ok-of_>>=, ok-inj}
use xmpp_proxy.Filter.{StanzaFilter}
use xmpp_proxy.Srv.Types.{
  IpAddr, External, XmppConnectionType, start_tls, direct_tls, quic, web_socket, web_transport,
}
use xmpp_proxy.Srv.Connect.{Wires}
use xmpp_proxy.Startup.Certs.{KeyProvider}
use xmpp_proxy.Startup.Tls.{
  ClientConfig, OutgoingConfig, initial_suite_from_provider, webtransport_config,
}
use xmpp_proxy.Dial.{
  Library, ws_cfg, stream_wires, websocket_wires, named, endpoint, client_of, quic_endpoint,
  quic_connect, webtransport_endpoint, webtransport_connect, websocket_connect, dial,
}
use xmpp_proxy.Dial.Secured.{
  IsSecured, by_quic, by_session, by_websocket, Safe, config, named-ok, endpoint-ok, plain-Trusts,
  alpn-Trusts, webtransport-Trusts, tls_connect-IsSecured, dial_starttls-IsSecured, key_for,
}

module _ {x : External} {k : KeyProvider} {V : Type 0} (lib : Library x k V) (oc : OutgoingConfig k)
    (is_c2s : Bool) (v : V) where
  client-ok :
      (c : ClientConfig k V) (e : lib.Endpoint)
      → endpoint (client_of lib (config lib oc is_c2s v) c) ≡ ok e
      → (suite : ℕ) × (lib.client_endpoint c suite ≡ ok e)
  client-ok c e h =
      let (suite, h₁, q) =
        ok-of_>>= (lib.client_endpoint c) (initial_suite_from_provider lib.default_suites)
          (sym (endpoint-ok lib (client_of lib (config lib oc is_c2s v) c) h)) in
      (suite, sym h₁)

  quic_connect-IsSecured :
      (ip : IpAddr) (port : ℕ) (name : Bytes) (w : Wires)
      → quic_connect lib (config lib oc is_c2s v) ip port name ≡ ok w
      → Safe lib oc is_c2s v name w
  unfolding quic_connect quic_endpoint
  quic_connect-IsSecured ip port name w h =
      let (e, h₁, q) = ok-of_>>= _ (quic_endpoint lib (config lib oc is_c2s v)) (sym h) in
      let (connection, h₂, c) = ok-of_>>= _ (lib.connect_quic e ip port name) h₁ in
      let (s, h₃, o) = ok-of_>>= (λ s. ok (stream_wires s)) (lib.open_bi connection) h₂ in
      let (suite, made) = client-ok (config lib oc is_c2s v).config_alpn e q in
      subst (Safe lib oc is_c2s v name) (sym (ok-inj h₃))
        (by_quic (alpn-Trusts lib oc is_c2s v) made c o)

  webtransport_connect-IsSecured :
      (ip : IpAddr) (port : ℕ) (name : Bytes) (url : x.Url) (w : Wires)
      → webtransport_connect lib (config lib oc is_c2s v) ip port name url ≡ ok w
      → Safe lib oc is_c2s v name w
  unfolding webtransport_connect webtransport_endpoint
  webtransport_connect-IsSecured ip port name url w h =
      let (e, h₁, q) = ok-of_>>= _ (webtransport_endpoint lib (config lib oc is_c2s v)) (sym h) in
      let (connection, h₂, c) = ok-of_>>= _ (lib.connect_quic e ip port name) h₁ in
      let (session, h₃, d) = ok-of_>>= _ (lib.connect_session connection url) h₂ in
      let (s, h₄, o) = ok-of_>>= (λ s. ok (stream_wires s)) (lib.open_bi session) h₃ in
      let (suite, made) = client-ok (webtransport_config (config lib oc is_c2s v)) e q in
      subst (Safe lib oc is_c2s v name) (sym (ok-inj h₄))
        (by_session (webtransport-Trusts lib oc is_c2s v) made c d o)

  websocket_connect-IsSecured :
      (ip : IpAddr) (port : ℕ) (name : Bytes) (url : x.Uri) (origin : Bytes) (w : Wires)
      → websocket_connect lib (config lib oc is_c2s v) ip port name url origin ≡ ok w
      → Safe lib oc is_c2s v name w
  unfolding websocket_connect
  websocket_connect-IsSecured ip port name url origin w h =
      let (bare, h₁, r₁) = ok-of_>>= _ (lib.into_client_request url) (sym h) in
      let (half, h₂, r₂) =
        ok-of_>>= _ (lib.append (codes "sec-websocket-protocol") (codes "xmpp") bare) h₁ in
      let (request, h₃, r₃) = ok-of_>>= _ (lib.append (codes "origin") origin half) h₂ in
      let (n, h₄, q) = ok-of_>>= _ (named (x.server_name name)) h₃ in
      let (s, h₅, c) = ok-of_>>= _ (lib.connect_tcp ip port) h₄ in
      let (t, h₆, e) = ok-of_>>= _ (lib.connect_tls (config lib oc is_c2s v).connector n s) h₅ in
      let (ws, h₇, a) =
        ok-of_>>= (λ ws. ok (websocket_wires ws))
          (lib.client_async request (ws_cfg (config lib oc is_c2s v).max_stanza_size_bytes) t) h₆ in
      subst (Safe lib oc is_c2s v name) (sym (ok-inj h₇)) (
        by_websocket (config lib oc is_c2s v).max_stanza_size_bytes (plain-Trusts lib oc is_c2s v)
          (named-ok lib (x.server_name name) q) e a)

  -- Whatever kind of connection it is, and whatever the network and the peer do: it is opened only
  -- behind a handshake of TLS or QUIC for the name, with the verifier, and with the key of a server.
  pub dial-IsSecured :
      (conn_type : XmppConnectionType x) (ip : IpAddr) (port : ℕ) (name header : Bytes)
      (f : StanzaFilter) (w : Wires)
      → (dial lib (config lib oc is_c2s v) conn_type ip port name header f).0 ≡ ok w
      → IsSecured lib v (key_for oc is_c2s) name w
  unfolding dial
  dial-IsSecured start_tls ip port name header f w h =
      dial_starttls-IsSecured lib oc is_c2s v ip port name header f w h
  dial-IsSecured direct_tls ip port name header f w h =
      tls_connect-IsSecured lib oc is_c2s v ip port name w h
  dial-IsSecured quic ip port name header f w h = quic_connect-IsSecured ip port name w h
  dial-IsSecured (web_socket url origin) ip port name header f w h =
      websocket_connect-IsSecured ip port name url origin w h
  dial-IsSecured (web_transport url) ip port name header f w h =
      webtransport_connect-IsSecured ip port name url w h
