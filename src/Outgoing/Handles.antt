-- ===== src/Outgoing/Handles.antt =====
-- src/outgoing.rs: `handle_outgoing_connection` from the first byte to the relay, for a client that
-- speaks over a stream of bytes or a websocket.
use xmpp_proxy.Prelude.{
  ℕ, ◌≡◌, inl, inr, sym, ap, ◌∙◌, subst, Bool, true, false, ltb, Bool-cases, if◌then◌else◌, Bytes,
  codes, take, Outcome, ok, panic, ◌>>=◌, ok-of_>>=, ok-inj,
}
use xmpp_proxy.Filter.{StanzaFilter}
use xmpp_proxy.Starttls.{sniffed}
use xmpp_proxy.Starttls.Upgrade.{peek_bytes-ok}
use xmpp_proxy.Wire.{peek_bytes}
use xmpp_proxy.Websocket.Text.{from_utf8}
use xmpp_proxy.Websocket.Declares.{from_utf8-ok}
use xmpp_proxy.Websocket.Messages.Writes.{Sends, write_flush_stanza, write_flush_stanza-Sends}
use xmpp_proxy.Preamble.{Opening}
use xmpp_proxy.Session.{Peer, open_stream}
use xmpp_proxy.Session.Opens.{IsOpened, open_stream-IsOpened}
use xmpp_proxy.Incoming.{quoted}
use xmpp_proxy.Handle.{Stream, WebSocket, bytes_peer, websocket_peer, is_get}
use xmpp_proxy.Srv.Types.{External}
use xmpp_proxy.Srv.Lookup.{Network}
use xmpp_proxy.Srv.Connections.{Connections, get_xmpp_connections}
use xmpp_proxy.Srv.Connect.{Transports, Served, connect_any}
use xmpp_proxy.Srv.Connect.Serves.{ServedBy, connect_any-ServedBy}
use xmpp_proxy.Verify.{XmppServerCertVerifier}

module _ {x : External} (net : Network)
    (dial_with : Bool → XmppServerCertVerifier x → Transports x) where
  -- the two ends of the relay; the filter of the server's response goes on with the client's stream
  pub record Linked : Type 0 where
    pub opening : Opening
    pub connections : Connections x net
    pub served : Served (dial_with opening.1 connections.1)
    pub peer : Peer

  -- `srv_connect`, and the server's response passed on to the client
  unfoldable pub serve_peer : Opening → Peer → Bytes → Outcome Linked
  serve_peer opening p domain = get_xmpp_connections x net domain opening.1 >>= λ c.
      connect_any (dial_with opening.1 c.1) opening.1 c.0 domain opening.0 p.filter >>= λ served.
      write_flush_stanza opening.1 served.server_response 0 p.writer >>= λ w. ok (record {
        opening = opening;
        connections = c;
        served = served;
        peer = record p { filter = served.filter; writer = w };
      })

  unfoldable pub serve_opened : Peer → Opening → Outcome Linked
  serve_opened p opening = quoted (codes "to") opening.0 >>= from_utf8 >>= serve_peer opening p

  -- behind the peek
  unfoldable pub handle_peer : Peer → Outcome Linked
  handle_peer p = let (o, q) = open_stream p in o >>= serve_opened q

  module _ (accept_websocket : ℕ → Stream → Outcome WebSocket) (size : ℕ) where
    abbrev pub peer_of : StanzaFilter → Stream → Bool → Outcome Peer
    peer_of f s true = accept_websocket size s >>= λ ws. ok (websocket_peer f ws)
    peer_of f s false = ok (bytes_peer f s)

    -- `handle_outgoing_connection`; a buffer of less than three bytes cannot lend them to the peek
    unfoldable pub handle_outgoing_connection : Stream → Outcome Linked
    handle_outgoing_connection s =
        if ltb size 3
        then panic
        else (peek_bytes 3 s.src s.ending >>= λ p.
            peer_of (sniffed size p) s (is_get p) >>= handle_peer)

  -- The client's header is for the domain, whose server was reached as one of the connections found
  -- for it, with the verifier found with them; the client was sent the server's response.
  pub record IsLinked (p : Peer) (u : Linked) : Type 0 where
    pub behind : Peer
    pub opened : IsOpened p u.opening behind
    pub domain : Bytes
    pub claimed : quoted (codes "to") u.opening.0 ≡ ok domain
    pub found : get_xmpp_connections x net domain u.opening.1 ≡ ok u.connections
    pub served_by :
        ServedBy
          (dial_with u.opening.1 u.connections.1)
          u.opening.1
          u.connections.0
          domain
          u.opening.0
          u.served
    pub sends : Sends u.opening.1 u.served.server_response 0 behind.writer u.peer.writer

  serve_peer-IsLinked :
      (p q : Peer) (opening : Opening) (domain : Bytes) (u : Linked)
      → IsOpened p opening q
      → quoted (codes "to") opening.0 ≡ ok domain
      → ok u ≡ serve_peer opening q domain
      → IsLinked p u
  unfolding serve_peer
  serve_peer-IsLinked p q opening domain u o claimed h =
      let (c, h₁, e) = ok-of_>>= _ (get_xmpp_connections x net domain opening.1) h in
      let (served, h₂, g) =
        ok-of_>>= _ (connect_any (dial_with opening.1 c.1) opening.1 c.0 domain opening.0 q.filter)
          h₁ in
      let (w, h₃, s) =
        ok-of_>>= _ (write_flush_stanza opening.1 served.server_response 0 q.writer) h₂ in
      subst (IsLinked p) (sym (ok-inj h₃)) (record {
        behind = q;
        opened = o;
        domain = domain;
        claimed = claimed;
        found = e;
        served_by =
            connect_any-ServedBy (dial_with opening.1 c.1) opening.1 c.0 domain opening.0 q.filter
              served g;
        sends = write_flush_stanza-Sends opening.1 served.server_response 0 q.writer w (sym s);
      })

  handle_peer-IsLinked : (p : Peer) (u : Linked) → ok u ≡ handle_peer p → IsLinked p u
  unfolding handle_peer serve_opened
  handle_peer-IsLinked p u h =
      let q = (open_stream p).1 in
      let (opening, h₁, e) = ok-of_>>= (serve_opened q) (open_stream p).0 h in
      let (domain, h₂, t) =
        ok-of_>>= (serve_peer opening q) (quoted (codes "to") opening.0 >>= from_utf8) h₁ in
      let (raw, v, r) = ok-of_>>= from_utf8 (quoted (codes "to") opening.0) (sym t) in
      serve_peer-IsLinked p q opening domain u (open_stream-IsOpened p opening e)
        (r ∙ ap ok (sym (from_utf8-ok raw domain v))) h₂

  module _ (accept_websocket : ℕ → Stream → Outcome WebSocket) (size : ℕ) where
    -- A client that begins with "GET" is spoken to over a websocket, and any other over the bytes.
    pub data Speaks (s : Stream) (f : StanzaFilter) : Peer → Type 0 where
      in_bytes : is_get (take 3 s.src) ≡ false → Speaks s f (bytes_peer f s)
      in_messages :
          {ws : WebSocket}
          → is_get (take 3 s.src) ≡ true
          → accept_websocket size s ≡ ok ws
          → Speaks s f (websocket_peer f ws)

    peer_of-Speaks :
        (s : Stream) (f : StanzaFilter) (get : Bool) (p : Peer)
        → is_get (take 3 s.src) ≡ get
        → ok p ≡ peer_of accept_websocket size f s get
        → Speaks s f p
    peer_of-Speaks s f false p g h = subst (Speaks s f) (sym (ok-inj h)) (in_bytes g)
    peer_of-Speaks s f true p g h =
        let (ws, h₁, e) = ok-of_>>= _ (accept_websocket size s) h in
        subst (Speaks s f) (sym (ok-inj h₁)) (in_messages g e)

    -- A client is linked only with a server for the domain that its header is for: one of the
    -- connections found for this domain, reached with the verifier found with them. Behind its opening
    -- it was sent the server's response and nothing else, over a websocket if it began with "GET".
    pub handle_outgoing_connection-IsLinked :
        (s : Stream) (u : Linked)
        → handle_outgoing_connection accept_websocket size s ≡ ok u
        → (p : Peer) × Speaks s (sniffed size (take 3 s.src)) p × IsLinked p u
    unfolding handle_outgoing_connection
    handle_outgoing_connection-IsLinked s u h = elim (Bool-cases (ltb size 3)) [
      | inl small ↦ cc
      | inr large ↦
          let rest = λ (p : Bytes).
            peer_of accept_websocket size (sniffed size p) s (is_get p) >>= handle_peer in
          let h₀ =
            subst (λ b. (if b then panic else peek_bytes 3 s.src s.ending >>= rest) ≡ ok u) large
              h in
          let (p, h₁, e) = ok-of_>>= rest (peek_bytes 3 s.src s.ending) (sym h₀) in
          let first = peek_bytes-ok 3 s.src p s.ending e in
          let (peer, h₂, q) =
            ok-of_>>= handle_peer (peer_of accept_websocket size (sniffed size p) s (is_get p))
              h₁ in
          (
            peer,
            subst (λ b. Speaks s (sniffed size b) peer) first
                (peer_of-Speaks s (sniffed size p) (is_get p) peer (ap is_get (sym first)) (sym q)),
            handle_peer-IsLinked peer u h₂,
          )
    ]
