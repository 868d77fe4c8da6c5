-- ===== src/Dial/Secured.antt =====
-- Behind which handshake an outgoing connection speaks.
pub mod Dials
use xmpp_proxy.Prelude.{
  ℕ, ◌≡◌, refl, sym, ap, ◌∙◌, subst, Bool, true, false, Bytes, codes, List, [], ◌∷◌, Option, none,
  some, Outcome, ok, err, panic, ◌>>=◌, ok-of_>>=, ok-inj, invalid_name,
}
use xmpp_proxy.Filter.{StanzaFilter}
use xmpp_proxy.Wire.{Sink}
use xmpp_proxy.Handle.{Stream, WebSocket}
use xmpp_proxy.Starttls.Outgoing.{starttls_connect, starttls_left}
use xmpp_proxy.Srv.Types.{
  IpAddr, External, XmppConnectionType, start_tls, direct_tls, quic, web_socket, web_transport,
}
use xmpp_proxy.Srv.Connect.{Wires}
use xmpp_proxy.Startup.Certs.{KeyProvider, CertsKey}
use xmpp_proxy.Startup.Tls.{
  ClientConfig, OutgoingConfig, OutgoingVerifierConfig, initial_suite_from_provider,
  with_custom_certificate_verifier, webtransport_config,
}
use xmpp_proxy.Dial.{
  Library, ws_cfg, stream_wires, websocket_wires, named, endpoint, tls_connect, proceed, start_over,
  start_with, dial_starttls, client_of, quic_endpoint, quic_connect, webtransport_endpoint,
  webtransport_connect, websocket_connect, dial,
}

abbrev pub key_for : {k : KeyProvider} → OutgoingConfig k → Bool → Option (CertsKey k)
key_for c true = none
key_for c false = some c.certs_key

module _ {x : External} {k : KeyProvider} {V : Type 0} (lib : Library x k V) where
  -- The peer was asked for a certificate that the verifier accepts, and, where the key is one, it was
  -- shown the key.
  pub record Trusts (v : V) (key : Option (CertsKey k)) (c : ClientConfig k V) : Type 0 where
    pub verifier : c.cert_verifier ≡ v
    pub shows : c.client_cert_resolver ≡ key

  -- The wires are those behind a handshake of TLS or QUIC for the name. STARTTLS: behind TLS nothing
  -- is left of what was read before it.
  pub data IsSecured (v : V) (key : Option (CertsKey k)) (name : Bytes) : Wires → Type 0 where
    by_tls :
        {c : ClientConfig k V} {dnsname : x.ServerName} {s t : Stream}
        → Trusts v key c
        → x.server_name name ≡ some dnsname
        → lib.connect_tls c dnsname s ≡ ok t
        → IsSecured v key name (stream_wires t)
    by_websocket :
        {c : ClientConfig k V} {dnsname : x.ServerName} {s t : Stream} {request : lib.Request}
        {ws : WebSocket} (size : ℕ)
        → Trusts v key c
        → x.server_name name ≡ some dnsname
        → lib.connect_tls c dnsname s ≡ ok t
        → lib.client_async request (ws_cfg size) t ≡ ok ws
        → IsSecured v key name (websocket_wires ws)
    by_quic :
        {c : ClientConfig k V} {suite : ℕ} {e : lib.Endpoint} {ip : IpAddr} {port : ℕ}
        {connection : lib.Connection} {s : Stream}
        → Trusts v key c
        → lib.client_endpoint c suite ≡ ok e
        → lib.connect_quic e ip port name ≡ ok connection
        → lib.open_bi connection ≡ ok s
        → IsSecured v key name (stream_wires s)
    by_session :
        {c : ClientConfig k V} {suite : ℕ} {e : lib.Endpoint} {ip : IpAddr} {port : ℕ}
        {connection session : lib.Connection} {url : x.Url} {s : Stream}
        → Trusts v key c
        → lib.client_endpoint c suite ≡ ok e
        → lib.connect_quic e ip port name ≡ ok connection
        → lib.connect_session connection url ≡ ok session
        → lib.open_bi session ≡ ok s
        → IsSecured v key name (stream_wires s)

  pub named-ok : {A : Type 0} {a : A} (o : Option A) → named o ≡ ok a → o ≡ some a
  named-ok none h = cc
  named-ok (some b) h = ap some (ok-inj h)

  pub endpoint-ok : {A : Type 0} {a : A} (o : Outcome A) → endpoint o ≡ ok a → o ≡ ok a
  endpoint-ok (ok b) h = h
  endpoint-ok (err e) h = cc
  endpoint-ok panic h = cc

  module _ (oc : OutgoingConfig k) (is_c2s : Bool) (v : V) where
    abbrev pub config : OutgoingVerifierConfig k V
    config = with_custom_certificate_verifier oc is_c2s v

    abbrev pub Safe : Bytes → Wires → Type 0
    Safe name w = IsSecured v (key_for oc is_c2s) name w

    pub plain-Trusts : Trusts v (key_for oc is_c2s) config.connector
    unfolding with_custom_certificate_verifier
    plain-Trusts = decide is_c2s
      where
        decide :
            (c : Bool) → Trusts v (key_for oc c) (with_custom_certificate_verifier oc c v).connector
        decide true = record { verifier = refl; shows = refl }
        decide false = record { verifier = refl; shows = refl }

    pub alpn-Trusts : Trusts v (key_for oc is_c2s) config.config_alpn
    unfolding with_custom_certificate_verifier
    alpn-Trusts = record { verifier = plain-Trusts.verifier; shows = plain-Trusts.shows }

    connector_alpn-Trusts : Trusts v (key_for oc is_c2s) config.connector_alpn
    unfolding with_custom_certificate_verifier
    connector_alpn-Trusts = record { verifier = plain-Trusts.verifier; shows = plain-Trusts.shows }

    pub webtransport-Trusts : Trusts v (key_for oc is_c2s) (webtransport_config config)
    unfolding webtransport_config
    webtransport-Trusts = record { verifier = alpn-Trusts.verifier; shows = alpn-Trusts.shows }

    pub tls_connect-IsSecured :
        (ip : IpAddr) (port : ℕ) (name : Bytes) (w : Wires)
        → tls_connect lib config ip port name ≡ ok w
        → Safe name w
    unfolding tls_connect
    tls_connect-IsSecured ip port name w h =
        let (n, h₁, q) = ok-of_>>= _ (named (x.server_name name)) (sym h) in
        let (s, h₂, c) = ok-of_>>= _ (lib.connect_tcp ip port) h₁ in
        let (t, h₃, e) = ok-of_>>= _ (lib.connect_tls config.connector_alpn n s) h₂ in
        subst (Safe name) (sym (ok-inj h₃))
          (by_tls connector_alpn-Trusts (named-ok (x.server_name name) q) e)

    proceed-IsSecured :
        (name : Bytes) (n : x.ServerName) (s : Stream) (rest : Bytes) (out : Sink) (w : Wires)
        → x.server_name name ≡ some n
        → ok w ≡ proceed lib config n s rest out
        → Safe name w
    unfolding proceed
    proceed-IsSecured name n s rest out w q h =
        let (t, h₁, e) =
          ok-of_>>= (λ t. ok (stream_wires t))
            (lib.connect_tls config.connector n
              (record { src = lib.unread rest; ending = s.ending; sink = out }))
            h in
        subst (Safe name) (sym (ok-inj h₁)) (by_tls plain-Trusts q e)

    start_over-IsSecured :
        (name header : Bytes) (f : StanzaFilter) (n : x.ServerName) (s : Stream) (w : Wires)
        → x.server_name name ≡ some n
        → (start_over lib config header f n s).0 ≡ ok w
        → Safe name w
    unfolding start_over
    start_over-IsSecured name header f n s w q h =
        let (out, h₁, e) =
          ok-of_>>= (proceed lib config n s (starttls_left header f s.sink s.src s.ending).1)
            (starttls_connect header f s.sink s.src s.ending) (sym h) in
        proceed-IsSecured name n s _ out w q h₁

    start_with-IsSecured :
        (name header : Bytes) (f : StanzaFilter) (o : Outcome (x.ServerName × Stream)) (w : Wires)
        → ((n : x.ServerName) (s : Stream) → o ≡ ok (n, s) → x.server_name name ≡ some n)
        → (start_with lib config o header f).0 ≡ ok w
        → Safe name w
    start_with-IsSecured name header f (ok (n, s)) w q h =
        start_over-IsSecured name header f n s w (q n s refl) h
    start_with-IsSecured name header f (err e) w q h = cc
    start_with-IsSecured name header f panic w q h = cc

    pub dial_starttls-IsSecured :
        (ip : IpAddr) (port : ℕ) (name header : Bytes) (f : StanzaFilter) (w : Wires)
        → (dial_starttls lib config ip port name header f).0 ≡ ok w
        → Safe name w
    unfolding dial_starttls
    dial_starttls-IsSecured ip port name header f w h =
        start_with-IsSecured name header f
          (named (x.server_name name) >>= λ n. lib.connect_tcp ip port >>= λ s. ok (n, s)) w
          (λ n s e.
            let (m, h₁, q) = ok-of_>>= _ (named (x.server_name name)) (sym e) in
            let (t, h₂, c) = ok-of_>>= _ (lib.connect_tcp ip port) h₁ in
            named-ok (x.server_name name) q ∙ ap some (sym (ap (λ r. r.0) (ok-inj h₂))))
          h
