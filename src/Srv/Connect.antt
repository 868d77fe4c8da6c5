-- ===== src/Srv/Connect.antt =====
-- src/srv.rs: `XmppConnection::connect` and `srv_connect`. The transports are an interface.
pub mod Reaches
pub mod Serves
use xmpp_proxy.Prelude.{
  ℕ, Bool, true, false, not, ◌&&◌, if◌then◌else◌, Bytes, length, bytes_eq, List, [], ◌∷◌, ◌++◌,
  Option, none, some, Outcome, ok, err, panic, ◌>>=◌, no_ip_reached, all_attempts_failed,
}
use xmpp_proxy.Filter.{StanzaFilter}
use xmpp_proxy.Preamble.{Opening}
use xmpp_proxy.Websocket.Messages.{StanzaWrite}
use xmpp_proxy.Websocket.Messages.Writes.{write_flush_stanza}
use xmpp_proxy.Session.{StanzaRead, Peer, open_stream}
use xmpp_proxy.Srv.Types.{
  IpAddr, External, XmppConnectionType, start_tls, direct_tls, quic, web_socket, web_transport,
  XmppConnection,
}

-- `StanzaWrite` and `StanzaRead` of a connection
pub record Wires : Type 0 where
  pub writer : StanzaWrite
  pub reader : StanzaRead

-- The connect functions of the transports, by the kind of connection: to an address and a port, with
-- the name that the certificate is for, and the client's header. A call may use the filter. And the
-- resolver.
pub record Transports (x : External) : Type 0 where
  pub dial :
      XmppConnectionType x
      → IpAddr
      → ℕ
      → Bytes
      → Bytes
      → StanzaFilter
      → Outcome Wires × StanzaFilter
  pub lookup_ip : Bytes → Outcome (List IpAddr)

-- the protocol for the log
pub data Proto : Type 0 where
  starttls_out directtls_out quic_out websocket_out webtransport_out : Proto

pub record Reached : Type 0 where
  pub wires : Wires
  pub to_addr : IpAddr × ℕ
  pub proto : Proto

module _ {x : External} (net : Transports x) where
  abbrev proto_of : XmppConnectionType x → Proto
  proto_of start_tls = starttls_out
  proto_of direct_tls = directtls_out
  proto_of quic = quic_out
  proto_of (web_socket _ _) = websocket_out
  proto_of (web_transport _) = webtransport_out

  abbrev tries_twice : XmppConnectionType x → Bool
  tries_twice (web_socket _ _) = true
  tries_twice (web_transport _) = true
  tries_twice _ = false

  -- `let domain = if self.secure { &self.target } else { domain }`
  abbrev pub name_for : XmppConnection x → Bytes → Bytes
  name_for c domain = if c.secure then c.target else domain

  -- a second try for the domain itself
  abbrev second_try :
      Outcome Wires × StanzaFilter
      → XmppConnection x
      → IpAddr
      → Bytes
      → Bytes
      → Outcome Wires × StanzaFilter
  second_try (err e, f) c ip domain stream_open =
      if tries_twice c.conn_type && (c.secure && not (bytes_eq c.target domain))
      then net.dial c.conn_type ip c.port domain stream_open f
      else (err e, f)
  second_try (ok w, f) c ip domain stream_open = (ok w, f)
  second_try (panic, f) c ip domain stream_open = (panic, f)

  unfoldable pub try_ip :
      XmppConnection x → IpAddr → Bytes → Bytes → StanzaFilter → Outcome Wires × StanzaFilter
  try_ip c ip domain stream_open f =
      second_try (net.dial c.conn_type ip c.port (name_for c domain) stream_open f) c ip domain
        stream_open

  abbrev reached_or :
      Outcome Wires × StanzaFilter
      → XmppConnection x
      → IpAddr
      → (StanzaFilter → Outcome Reached × StanzaFilter)
      → Outcome Reached × StanzaFilter
  reached_or (ok w, f) c ip more =
      (ok (record { wires = w; to_addr = (ip, c.port); proto = proto_of c.conn_type }), f)
  reached_or (err e, f) c ip more = more f
  reached_or (panic, f) c ip more = (panic, f)

  unfoldable pub try_ips :
      XmppConnection x → List IpAddr → Bytes → Bytes → StanzaFilter → Outcome Reached × StanzaFilter
  try_ips c [] domain stream_open f = (err no_ip_reached, f)
  try_ips c (ip ∷ ips) domain stream_open f =
      reached_or (try_ip c ip domain stream_open f) c ip (λ g. try_ips c ips domain stream_open g)

  abbrev ips_of : List IpAddr → Bytes → Outcome (List IpAddr)
  ips_of [] target = net.lookup_ip target
  ips_of (ip ∷ ips) target = ok (ip ∷ ips)

  abbrev with_ips :
      Outcome (List IpAddr)
      → XmppConnection x
      → Bytes
      → Bytes
      → StanzaFilter
      → Outcome Reached × StanzaFilter
  with_ips (ok ips) c domain stream_open f = try_ips c ips domain stream_open f
  with_ips (err e) c domain stream_open f = (err e, f)
  with_ips panic c domain stream_open f = (panic, f)

  -- `XmppConnection::connect`
  unfoldable pub connect :
      XmppConnection x → Bytes → Bytes → StanzaFilter → Outcome Reached × StanzaFilter
  connect c domain stream_open f = with_ips (ips_of c.ips c.target) c domain stream_open f

  -- what the client is served from: the wires behind the server's preamble, and its text
  pub record Served : Type 0 where
    pub wires : Wires
    pub server_response : Bytes
    pub filter : StanzaFilter

  abbrev pub peer_for : Wires → StanzaWrite → StanzaFilter → Peer
  peer_for w v f = record { filter = f; reader = w.reader; writer = v }

  abbrev served_or : Outcome Opening × Peer → (StanzaFilter → Outcome Served) → Outcome Served
  served_or (ok (response, _), p) more = ok (record {
    wires = record { writer = p.writer; reader = p.reader };
    server_response = response;
    filter = p.filter;
  })
  served_or (err e, p) more = more p.filter
  served_or (panic, p) more = panic

  -- the header is sent, and the server's awaited; an error of the writer ends it all
  abbrev greet :
      Bool
      → Outcome Reached × StanzaFilter
      → Bytes
      → (StanzaFilter → Outcome Served)
      → Outcome Served
  greet is_c2s (ok r, f) stream_open more =
      write_flush_stanza is_c2s stream_open (length stream_open) r.wires.writer >>= λ v.
      served_or (open_stream (peer_for r.wires v f)) more
  greet is_c2s (err e, f) stream_open more = more f
  greet is_c2s (panic, f) stream_open more = panic

  -- the loop of `srv_connect`
  unfoldable pub connect_any :
      Bool → List (XmppConnection x) → Bytes → Bytes → StanzaFilter → Outcome Served
  connect_any is_c2s [] domain stream_open f = err all_attempts_failed
  connect_any is_c2s (srv ∷ srvs) domain stream_open f =
      greet is_c2s (connect srv domain stream_open f) stream_open
        (λ g. connect_any is_c2s srvs domain stream_open g)
