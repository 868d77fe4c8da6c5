-- ===== src/Outgoing.antt =====
-- src/outgoing.rs: `handle_outgoing_connection` on a byte stream, up to the relay; and `srv_connect`
-- of src/srv.rs, whose transports use the verifier that was found.
pub mod Handles
pub mod Secured
use xmpp_proxy.Prelude.{
  ◌≡◌, Bool, sym, ap, ◌∙◌, subst, Bytes, codes, ◌++◌, Outcome, ok, ◌>>=◌, ok-of_>>=, ok-inj,
}
use xmpp_proxy.Filter.{StanzaFilter}
use xmpp_proxy.Filter.Reader.{Ending}
use xmpp_proxy.Wire.{Sink, write_flush, write_flush-sent}
use xmpp_proxy.Websocket.Text.{from_utf8}
use xmpp_proxy.Websocket.Declares.{from_utf8-ok}
use xmpp_proxy.Preamble.{Opening, stream_preamble}
use xmpp_proxy.Incoming.{quoted}
use xmpp_proxy.Srv.Types.{External}
use xmpp_proxy.Srv.Lookup.{Network}
use xmpp_proxy.Srv.Connections.{Connections, get_xmpp_connections}
use xmpp_proxy.Srv.Connect.{Transports, Served, connect_any}
use xmpp_proxy.Srv.Connect.Serves.{ServedBy, connect_any-ServedBy}
use xmpp_proxy.Verify.{XmppServerCertVerifier}

module _ {x : External} (net : Network)
    (dial_with : Bool → XmppServerCertVerifier x → Transports x) where
  -- the two ends of the relay, and the filter that goes on with the client's stream
  pub record Started : Type 0 where
    pub opening : Opening
    pub connections : Connections x net
    pub served : Served (dial_with opening.1 connections.1)
    pub in_sink : Sink
    pub in_rest : Bytes

  -- `srv_connect`, and the response of the server passed on to the client
  unfoldable pub serve : Opening → Sink → StanzaFilter → Bytes → Bytes → Outcome Started
  serve opening s f rest domain = get_xmpp_connections x net domain opening.1 >>= λ c.
      connect_any (dial_with opening.1 c.1) opening.1 c.0 domain opening.0 f >>= λ served.
      write_flush served.server_response s >>= λ t.
      ok (record {
        opening = opening;
        connections = c;
        served = served;
        in_sink = t;
        in_rest = rest;
      })

  -- the domain that the header is for; without one the connection fails
  unfoldable pub serve_header : Sink → StanzaFilter → Bytes → Opening → Outcome Started
  serve_header s f rest opening =
      quoted (codes "to") opening.0 >>= from_utf8 >>= serve opening s f rest

  -- `handle_outgoing_connection`, behind the peek that found no websocket
  unfoldable pub handle_stream : Sink → StanzaFilter → Bytes → Ending → Outcome Started
  handle_stream s f src ending =
      let (o, g, rest) = stream_preamble f src ending in o >>= serve_header s g rest

  -- A client is connected under the domain that its header is for. `found` are the connections of
  -- this domain, the server is one of them, reached with the verifier found with them, and the client
  -- was sent its response and nothing else.
  pub record IsServed (s : Sink) (u : Started) : Type 0 where
    pub domain : Bytes
    pub claimed : quoted (codes "to") u.opening.0 ≡ ok domain
    pub found : get_xmpp_connections x net domain u.opening.1 ≡ ok u.connections
    pub served_by :
        ServedBy
          (dial_with u.opening.1 u.connections.1)
          u.opening.1
          u.connections.0
          domain
          u.opening.0
          u.served
    pub sent : u.in_sink.sent ≡ s.sent ++ u.served.server_response

  serve-IsServed :
      (opening : Opening) (s : Sink) (f : StanzaFilter) (rest domain : Bytes) (u : Started)
      → quoted (codes "to") opening.0 ≡ ok domain
      → ok u ≡ serve opening s f rest domain
      → IsServed s u
  unfolding serve
  serve-IsServed opening s f rest domain u q h =
      let (c, h₁, e) = ok-of_>>= _ (get_xmpp_connections x net domain opening.1) h in
      let (served, h₂, g) =
        ok-of_>>= _ (connect_any (dial_with opening.1 c.1) opening.1 c.0 domain opening.0 f) h₁ in
      let (t, h₃, w) = ok-of_>>= _ (write_flush served.server_response s) h₂ in
      subst (IsServed s) (sym (ok-inj h₃)) (record {
        domain = domain;
        claimed = q;
        found = e;
        served_by =
            connect_any-ServedBy (dial_with opening.1 c.1) opening.1 c.0 domain opening.0 f served
              g;
        sent = write_flush-sent served.server_response s t (sym w);
      })

  serve_header-IsServed :
      (s : Sink) (f : StanzaFilter) (rest : Bytes) (opening : Opening) (u : Started)
      → ok u ≡ serve_header s f rest opening
      → IsServed s u
  unfolding serve_header
  serve_header-IsServed s f rest opening u h =
      let (domain, h₁, e) =
        ok-of_>>= (serve opening s f rest) (quoted (codes "to") opening.0 >>= from_utf8) h in
      let (raw, d, q) = ok-of_>>= from_utf8 (quoted (codes "to") opening.0) (sym e) in
      serve-IsServed opening s f rest domain u (q ∙ ap ok (sym (from_utf8-ok raw domain d))) h₁

  -- An outgoing stream is relayed only under the domain that its header is for: the server is one of
  -- the connections found for this domain, reached with the verifier found with them, and the client
  -- was sent the server's response and nothing else.
  pub handle_stream-IsServed :
      (s : Sink) (f : StanzaFilter) (src : Bytes) (ending : Ending) (u : Started)
      → handle_stream s f src ending ≡ ok u
      → IsServed s u
  unfolding handle_stream
  handle_stream-IsServed s f src ending u h =
      let r = stream_preamble f src ending in
      let (opening, h₁, e) = ok-of_>>= (serve_header s r.1 r.2) r.0 (sym h) in
      serve_header-IsServed s r.1 r.2 opening u h₁
