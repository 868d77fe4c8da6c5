-- ===== src/Handle/Forwards.antt =====
-- What an incoming connection had to show before its target was sent anything.
use xmpp_proxy.Prelude.{
  ℕ, ◌≡◌, sym, subst, Bool, true, false, if◌then◌else◌, Bytes, List, ◌++◌, Option, ok, ok-of_>>=,
  ok-inj, take,
}
use xmpp_proxy.Filter.{StanzaFilter}
use xmpp_proxy.Filter.Reader.{Ending}
use xmpp_proxy.Wire.{Sink}
use xmpp_proxy.Starttls.{Upgraded, open_tls, sniffed}
use xmpp_proxy.Starttls.Upgrade.{IsUpgrade, open_tls-IsUpgrade}
use xmpp_proxy.Peek.{BufRead, first_bytes_match_buf_timeout}
use xmpp_proxy.Session.{Peer, open_stream}
use xmpp_proxy.Session.Opens.{IsOpened, open_stream-IsOpened}
use xmpp_proxy.Srv.Types.{External}
use xmpp_proxy.Srv.Posh.{Digests}
use xmpp_proxy.Srv.Lookup.{Network}
use xmpp_proxy.Verify.{Webpki}
use xmpp_proxy.Incoming.{Addresses, IncomingConfig, check_peer, open_incoming, target_of}
use xmpp_proxy.Incoming.Admits.{IsProven, check_peer-IsProven}
use xmpp_proxy.Incoming.Forwards.{OneLine, announced, open_incoming-sent}
use xmpp_proxy.Handle.{
  Secured, WebSocket, Handshakes, bytes_peer, websocket_peer, is_get, Forwarded,
  shuffle_rd_wr_filter, handle_websocket_connection, behind_sniff, behind_handshake,
  handle_tls_connection,
}

module _ {x : External} (net : Network) (w : Webpki x) (d : Digests) (now : ℕ)
    (config : IncomingConfig) (a : Addresses) where
  -- The header is the one that the peer's stanzas open with; a server's peer has proven the domain
  -- that it claims; and the target was sent the PROXY line, if asked for, and the header.
  pub record IsForwarded (certs : Option (List Bytes)) (p : Peer) (f : Forwarded net w d now)
      : Type 0 where
    pub opened : IsOpened p f.opening f.peer
    pub proven : f.opening.1 ≡ false → IsProven net w d now f.opening.0 certs
    pub connected : Sink
    pub is_target :
        target_of (if f.opening.1 then config.c2s_target else config.s2s_target) ≡ ok connected
    pub sent : f.target.sent ≡ connected.sent ++ (announced config.proxy a ++ f.opening.0)

  pub shuffle_rd_wr_filter-IsForwarded :
      (certs : Option (List Bytes)) (p : Peer) (f : Forwarded net w d now)
      → OneLine a
      → shuffle_rd_wr_filter net w d now config a certs p ≡ ok f
      → IsForwarded certs p f
  unfolding shuffle_rd_wr_filter
  shuffle_rd_wr_filter-IsForwarded certs p f o h =
      let (opening, h₁, e) = ok-of_>>= _ (open_stream p).0 (sym h) in
      let (u, h₂, c) = ok-of_>>= _ (check_peer net w d now opening certs) h₁ in
      let q = (open_stream p).1 in
      let (target, h₃, t) = ok-of_>>= _ (open_incoming config a opening.0 opening.1 q.filter) h₂ in
      let (connected, is_target, sent) =
        open_incoming-sent config a opening.0 opening.1 q.filter target o t in
      subst (IsForwarded certs p) (sym (ok-inj h₃)) (record {
        opened = open_stream-IsOpened p opening e;
        proven = check_peer-IsProven net w d now opening certs c;
        connected = connected;
        is_target = is_target;
        sent = sent;
      })

  module _ {r : BufRead} (hs : Handshakes r) (size : ℕ) where
    -- the stream that carries the stanzas, by the first bytes behind the handshake
    pub data Carries (s : Secured r) (f : StanzaFilter) : Peer → Type 0 where
      over_bytes :
          first_bytes_match_buf_timeout r hs.rounds hs.clock s.buffer 3 is_get ≡ ok false
          → Carries s f (bytes_peer f s.stream)
      over_websocket :
          {ws : WebSocket}
          → first_bytes_match_buf_timeout r hs.rounds hs.clock s.buffer 3 is_get ≡ ok true
          → hs.accept_websocket size s.stream ≡ ok ws
          → Carries s f (websocket_peer f ws)

    pub record IsHandled (sink : Sink) (src : Bytes) (ending : Ending) (f : Forwarded net w d now)
        : Type 0 where
      pub upgraded : Upgraded
      pub upgrade : IsUpgrade sink (sniffed size (take 3 src)) src ending upgraded
      pub secured : Secured r
      pub handshake : hs.accept_tls upgraded ≡ ok secured
      pub peer : Peer
      pub carries : Carries secured upgraded.filter peer
      pub forwarded : IsForwarded secured.peer_certificates peer f

    abbrev Behind : StanzaFilter → Secured r → Forwarded net w d now → Type 0
    Behind f s fwd = (p : Peer) × Carries s f p × IsForwarded s.peer_certificates p fwd

    behind_sniff-Behind :
        (f : StanzaFilter) (s : Secured r) (websocket : Bool) (fwd : Forwarded net w d now)
        → OneLine a
        → first_bytes_match_buf_timeout r hs.rounds hs.clock s.buffer 3 is_get ≡ ok websocket
        → behind_sniff net w d now hs size config a s f websocket ≡ ok fwd
        → Behind f s fwd
    unfolding handle_websocket_connection
    behind_sniff-Behind f s false fwd o m h = (
      bytes_peer f s.stream,
      over_bytes m,
      shuffle_rd_wr_filter-IsForwarded s.peer_certificates (bytes_peer f s.stream) fwd o h,
    )
    behind_sniff-Behind f s true fwd o m h =
        let (ws, h₁, e) = ok-of_>>= _ (hs.accept_websocket size s.stream) (sym h) in
        (
          websocket_peer f ws,
          over_websocket m e,
          shuffle_rd_wr_filter-IsForwarded s.peer_certificates (websocket_peer f ws) fwd o (sym h₁),
        )

    -- An incoming connection reaches a target only behind a TLS handshake, which was begun directly or
    -- behind the dialogue that asks for it. What it opens with behind the handshake, as bytes or over
    -- a websocket, is what the target is sent, after the PROXY line if asked for; and a server has
    -- proven the domain that it claims with the certificate of this handshake.
    pub handle_tls_connection-IsHandled :
        (sink : Sink) (src : Bytes) (ending : Ending) (fwd : Forwarded net w d now)
        → OneLine a
        → handle_tls_connection net w d now hs size config a sink src ending ≡ ok fwd
        → IsHandled sink src ending fwd
    unfolding handle_tls_connection behind_handshake
    handle_tls_connection-IsHandled sink src ending fwd o h =
        let (u, h₁, e) = ok-of_>>= _ (open_tls size sink src ending) (sym h) in
        let (s, h₂, t) =
          ok-of_>>= (behind_handshake net w d now hs size config a u.filter) (hs.accept_tls u) h₁ in
        let (websocket, h₃, m) =
          ok-of_>>= (behind_sniff net w d now hs size config a s u.filter)
            (first_bytes_match_buf_timeout r hs.rounds hs.clock s.buffer 3 is_get) h₂ in
        let (p, carries, forwarded) = behind_sniff-Behind u.filter s websocket fwd o m (sym h₃) in
        record {
          upgraded = u;
          upgrade = open_tls-IsUpgrade size sink src ending u e;
          secured = s;
          handshake = t;
          peer = p;
          carries = carries;
          forwarded = forwarded;
        }
