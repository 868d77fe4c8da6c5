-- ===== src/Outgoing/Secured.antt =====
-- src/outgoing.rs with the transports of src/tls, src/quic, src/websocket and src/webtransport: who a
-- client is linked with.
use xmpp_proxy.Prelude.{ℕ, ◌≡◌, ap, Bool, take, Outcome, ok}
use xmpp_proxy.Starttls.{sniffed}
use xmpp_proxy.Session.{Peer}
use xmpp_proxy.Handle.{Stream, WebSocket}
use xmpp_proxy.Startup.Certs.{KeyProvider}
use xmpp_proxy.Startup.Tls.{OutgoingConfig, with_custom_certificate_verifier}
use xmpp_proxy.Srv.Types.{External}
use xmpp_proxy.Srv.Lookup.{Network}
use xmpp_proxy.Srv.Connect.{Transports}
use xmpp_proxy.Verify.{XmppServerCertVerifier}
use xmpp_proxy.Dial.{Library, transports}
use xmpp_proxy.Dial.Secured.{IsSecured, key_for}
use xmpp_proxy.Dial.Secured.Dials.{dial-IsSecured}
use xmpp_proxy.Outgoing.Handles.{
  Linked, handle_outgoing_connection, IsLinked, Speaks, handle_outgoing_connection-IsLinked,
}

module _ {x : External} {k : KeyProvider} (net : Network)
    (lib : Library x k (XmppServerCertVerifier x)) (config : OutgoingConfig k) where
  -- in `srv_connect`, the configuration is made of the verifier that was found
  abbrev pub dial_with : Bool → XmppServerCertVerifier x → Transports x
  dial_with is_c2s v = transports lib (with_custom_certificate_verifier config is_c2s v)

  -- A client is linked only with a server for the domain that its header is for: one of the
  -- connections found for this domain. The connection was opened behind a handshake of TLS or QUIC,
  -- under the domain's name or, where the connection is secure, its target's, with the verifier that
  -- was found with it, and with the program's key where the client is a server. Behind its opening the
  -- client was sent the server's response and nothing else, over a websocket if it began with "GET".
  pub handle_outgoing_connection-IsSecured :
      (accept_websocket : ℕ → Stream → Outcome WebSocket) (s : Stream) (u : Linked net dial_with)
      → handle_outgoing_connection net dial_with accept_websocket config.max_stanza_size_bytes s
        ≡ ok u
      → (p : Peer) × Speaks net dial_with accept_websocket config.max_stanza_size_bytes s
          (sniffed config.max_stanza_size_bytes (take 3 s.src))
          p
        × (l : IsLinked net dial_with p u) × IsSecured lib u.connections.1
            (key_for config u.opening.1)
            l.served_by.opened.name
            l.served_by.wires
  handle_outgoing_connection-IsSecured accept_websocket s u h =
      let (p, speaks, l) =
        handle_outgoing_connection-IsLinked net dial_with accept_websocket
          config.max_stanza_size_bytes s u h in
      let o = l.served_by.opened in
      (
        p,
        speaks,
        l,
        dial-IsSecured lib config u.opening.1 u.connections.1 l.served_by.srv.conn_type o.ip
            l.served_by.srv.port o.name u.opening.0 o.before l.served_by.wires
            (ap (λ r. r.0) o.opened),
      )
