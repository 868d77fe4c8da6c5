-- ===== src/Handle/Sessions.antt =====
-- The streams of a QUIC connection, and those of a WebTransport session on one.
use xmpp_proxy.Prelude.{
  ℕ, ◌≡◌, inl, inr, refl, sym, true, false, Bool-cases, Bytes, List, [], ◌∷◌, map, Option, Outcome,
  ok, err, panic,
}
use xmpp_proxy.Filter.{new}
use xmpp_proxy.Srv.Sort.{Among, first, later}
use xmpp_proxy.Peek.{BufRead}
use xmpp_proxy.Srv.Types.{External}
use xmpp_proxy.Srv.Posh.{Digests}
use xmpp_proxy.Srv.Lookup.{Network}
use xmpp_proxy.Verify.{Webpki}
use xmpp_proxy.Incoming.{Addresses, IncomingConfig}
use xmpp_proxy.Incoming.Forwards.{OneLine}
use xmpp_proxy.Handle.{
  Stream, QuicConnection, Handshakes, bytes_peer, Forwarded, shuffle_rd_wr, of_session,
  handle_webtransport_session, is_webtransport, handle_quic_connection,
}
use xmpp_proxy.Handle.Forwards.{IsForwarded, shuffle_rd_wr_filter-IsForwarded}

Among-map {ℓ κ} :
    {A : Type ℓ} {B : Type κ} (f : A → B) (xs : List A) {y : B}
    → Among y (map f xs)
    → (x : A) × Among x xs × (y ≡ f x)
Among-map f (x ∷ xs) first = (x, first, refl)
Among-map f (x ∷ xs) (later m) = let (z, n, e) = Among-map f xs m in (z, later n, e)
Among-map f [] m = elim m [ ]

module _ {x : External} (net : Network) (w : Webpki x) (d : Digests) (now : ℕ) {r : BufRead}
    (hs : Handshakes r) (size : ℕ) (config : IncomingConfig) (a : Addresses) where
  -- a stream of the connection, or of the session that was accepted on it
  pub data OfConnection (c : QuicConnection) (s : Stream) : Type 0 where
    of_quic :
        is_webtransport net w d now hs size config a c.alpn ≡ false
        → Among s c.streams
        → OfConnection c s
    of_webtransport :
        {streams : List Stream}
        → is_webtransport net w d now hs size config a c.alpn ≡ true
        → hs.accept_webtransport c ≡ ok streams
        → Among s streams
        → OfConnection c s

  map-IsForwarded :
      (certs : Option (List Bytes)) (streams : List Stream) (fwd : Forwarded net w d now)
      → OneLine a
      → Among (ok fwd) (map (shuffle_rd_wr net w d now size config a certs) streams)
      → (s : Stream) × Among s streams
        × IsForwarded net w d now config a certs (bytes_peer (new size) s) fwd
  map-IsForwarded certs streams fwd o m =
      let (s, n, e) = Among-map (shuffle_rd_wr net w d now size config a certs) streams m in
      (
        s,
        n,
        shuffle_rd_wr_filter-IsForwarded net w d now config a certs (bytes_peer (new size) s) fwd o
            (sym e),
      )

  abbrev Forwards : QuicConnection → Forwarded net w d now → Type 0
  Forwards c fwd =
      (s : Stream) × OfConnection c s
      × IsForwarded net w d now config a c.peer_certificates (bytes_peer (new size) s) fwd

  session-Forwards :
      (c : QuicConnection) (fwd : Forwarded net w d now) (o : Outcome (List Stream))
      → OneLine a
      → is_webtransport net w d now hs size config a c.alpn ≡ true
      → hs.accept_webtransport c ≡ o
      → Among (ok fwd) (of_session net w d now hs size config a c.peer_certificates o)
      → Forwards c fwd
  session-Forwards c fwd (ok streams) l h e m =
      let (s, n, f) = map-IsForwarded c.peer_certificates streams fwd l m in
      (s, of_webtransport h e n, f)
  session-Forwards c fwd (err x) l h e m = elim m [ ]
  session-Forwards c fwd panic l h e m = elim m [ ]

  -- Over QUIC each stream that is passed on is one that the peer opened, on the connection or, where
  -- the protocol is that of WebTransport, in the session accepted on it. It begins with a filter of
  -- its own, and a server's has proven its domain with the certificate of the connection.
  pub handle_quic_connection-Forwards :
      (c : QuicConnection) (fwd : Forwarded net w d now)
      → OneLine a
      → Among (ok fwd) (handle_quic_connection net w d now hs size config a c)
      → (s : Stream) × OfConnection c s
        × IsForwarded net w d now config a c.peer_certificates (bytes_peer (new size) s) fwd
  unfolding handle_quic_connection handle_webtransport_session
  handle_quic_connection-Forwards c fwd l m =
      elim (Bool-cases (is_webtransport net w d now hs size config a c.alpn)) [
        | inl h ↦ session-Forwards c fwd (hs.accept_webtransport c) l h refl (rw h at m)
        | inr n ↦
            let (s, k, f) = map-IsForwarded c.peer_certificates c.streams fwd l (rw n at m) in
            (s, of_quic n k, f)
      ]
