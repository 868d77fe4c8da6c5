-- ===== src/Handle.antt =====
-- What becomes of an incoming connection: `handle_tls_connection` of src/tls/incoming.rs,
-- `handle_websocket_connection` of src/websocket/incoming.rs, the sessions of src/quic/incoming.rs and
-- src/webtransport/incoming.rs, and `shuffle_rd_wr_filter` of src/common/incoming.rs, which they end
-- in. The handshakes are parameters.
pub mod Forwards
pub mod Sessions
use xmpp_proxy.Prelude.{
  ℕ, Bool, true, false, if◌then◌else◌, Bytes, bytes_eq, codes, List, [], ◌∷◌, map, Option, none,
  some, Outcome, ok, err, panic, ◌>>=◌,
}
use xmpp_proxy.Filter.{StanzaFilter, new}
use xmpp_proxy.Filter.Reader.{Ending}
use xmpp_proxy.Wire.{Sink}
use xmpp_proxy.Starttls.{Upgraded, open_tls}
use xmpp_proxy.Preamble.{Opening}
use xmpp_proxy.Peek.{BufRead, first_bytes_match_buf_timeout}
use xmpp_proxy.Websocket.Messages.{Message, WsWr, async_write, web_socket_client_write}
use xmpp_proxy.Session.{async_read, web_socket_read, Peer, open_stream}
use xmpp_proxy.Srv.Types.{External}
use xmpp_proxy.Srv.Posh.{Digests}
use xmpp_proxy.Srv.Lookup.{Network}
use xmpp_proxy.Verify.{Webpki}
use xmpp_proxy.Incoming.{Addresses, IncomingConfig, check_peer, open_incoming}
use xmpp_proxy.Startup.Tls.{alpn_webtransport}

-- a stream of bytes with its writer
pub record Stream : Type 0 where
  pub src : Bytes
  pub ending : Ending
  pub sink : Sink

-- behind the TLS handshake: `ServerCerts`, the stream, and its buffer
pub record Secured (r : BufRead) : Type 0 where
  pub peer_certificates : Option (List Bytes)
  pub stream : Stream
  pub buffer : r.State

-- behind the handshake of a websocket
pub record WebSocket : Type 0 where
  pub msgs : List Message
  pub ending : Ending
  pub writer : WsWr

-- behind the handshake of QUIC, with the streams that the peer opens
pub record QuicConnection : Type 0 where
  pub peer_certificates : Option (List Bytes)
  pub alpn : Option Bytes
  pub streams : List Stream

-- The handshakes; of a websocket under a limit for a stanza, and of a session of WebTransport with the
-- streams that are opened in it. `clock` is what the buffered peek reads, with its rounds.
pub record Handshakes (r : BufRead) : Type 0 where
  pub accept_tls : Upgraded → Outcome (Secured r)
  pub accept_websocket : ℕ → Stream → Outcome WebSocket
  pub accept_webtransport : QuicConnection → Outcome (List Stream)
  pub clock : ℕ → ℕ
  pub rounds : ℕ

abbrev pub bytes_peer : StanzaFilter → Stream → Peer
bytes_peer f s = record {
  filter = f;
  reader = async_read s.src s.ending;
  writer = async_write s.sink;
}

abbrev pub websocket_peer : StanzaFilter → WebSocket → Peer
websocket_peer f s = record {
  filter = f;
  reader = web_socket_read s.msgs s.ending;
  writer = web_socket_client_write s.writer;
}

abbrev pub is_get : Bytes → Bool
is_get p = bytes_eq p (codes "GET")

module _ {x : External} (net : Network) (w : Webpki x) (d : Digests) (now : ℕ) where
  -- the two ends of the relay
  pub record Forwarded : Type 0 where
    pub opening : Opening
    pub peer : Peer
    pub target : Sink

  -- `shuffle_rd_wr_filter`, up to the relay
  unfoldable pub shuffle_rd_wr_filter :
      IncomingConfig → Addresses → Option (List Bytes) → Peer → Outcome Forwarded
  shuffle_rd_wr_filter config a certs p =
      let (o, q) = open_stream p in
      o >>= λ opening. check_peer net w d now opening certs >>= λ _.
      open_incoming config a opening.0 opening.1 q.filter >>= λ target.
      ok (record { opening = opening; peer = q; target = target })

  -- `shuffle_rd_wr`, for a stream of a QUIC or WebTransport session
  abbrev pub shuffle_rd_wr :
      ℕ → IncomingConfig → Addresses → Option (List Bytes) → Stream → Outcome Forwarded
  shuffle_rd_wr size config a certs s =
      shuffle_rd_wr_filter config a certs (bytes_peer (new size) s)

  module _ {r : BufRead} (hs : Handshakes r) (size : ℕ) (config : IncomingConfig)
      (a : Addresses) where
    -- `handle_websocket_connection`
    unfoldable pub handle_websocket_connection : Secured r → StanzaFilter → Outcome Forwarded
    handle_websocket_connection s f = hs.accept_websocket size s.stream >>= λ ws.
        shuffle_rd_wr_filter config a s.peer_certificates (websocket_peer f ws)

    abbrev pub behind_sniff : Secured r → StanzaFilter → Bool → Outcome Forwarded
    behind_sniff s f true = handle_websocket_connection s f
    behind_sniff s f false =
        shuffle_rd_wr_filter config a s.peer_certificates (bytes_peer f s.stream)

    unfoldable pub behind_handshake : StanzaFilter → Secured r → Outcome Forwarded
    behind_handshake f s =
        first_bytes_match_buf_timeout r hs.rounds hs.clock s.buffer 3 is_get >>= behind_sniff s f

    -- `handle_tls_connection`
    unfoldable pub handle_tls_connection : Sink → Bytes → Ending → Outcome Forwarded
    handle_tls_connection sink src ending =
        open_tls size sink src ending >>= λ u. hs.accept_tls u >>= behind_handshake u.filter

    -- each stream of a session is a task of its own
    abbrev pub handle_quic_session : QuicConnection → List (Outcome Forwarded)
    handle_quic_session c = map (shuffle_rd_wr size config a c.peer_certificates) c.streams

    abbrev of_session : Option (List Bytes) → Outcome (List Stream) → List (Outcome Forwarded)
    of_session certs (ok streams) = map (shuffle_rd_wr size config a certs) streams
    of_session certs (err e) = []
    of_session certs panic = []

    unfoldable pub handle_webtransport_session : QuicConnection → List (Outcome Forwarded)
    handle_webtransport_session c = of_session c.peer_certificates (hs.accept_webtransport c)

    abbrev is_webtransport : Option Bytes → Bool
    is_webtransport none = false
    is_webtransport (some alpn) = bytes_eq alpn alpn_webtransport

    -- what `internal_spawn_quic_listener` does with a connection
    unfoldable pub handle_quic_connection : QuicConnection → List (Outcome Forwarded)
    handle_quic_connection c =
        if is_webtransport c.alpn then handle_webtransport_session c else handle_quic_session c
