-- ===== src/Incoming/Admits.antt =====
-- A server's stream is passed on only with a certificate for the domain that it claims.
use xmpp_proxy.Prelude.{
  ℕ, ◌≡◌, refl, sym, ap, ◌∙◌, subst, true, false, Bytes, codes, List, [], ◌∷◌, Option, none, some,
  ok, ◌>>=◌, ok-of_>>=, ok-inj,
}
use xmpp_proxy.Filter.{StanzaFilter}
use xmpp_proxy.Filter.Reader.{Ending}
use xmpp_proxy.Websocket.Text.{from_utf8}
use xmpp_proxy.Websocket.Declares.{from_utf8-ok}
use xmpp_proxy.Preamble.{Opening, stream_preamble}
use xmpp_proxy.Srv.Types.{External}
use xmpp_proxy.Srv.Posh.{Digests}
use xmpp_proxy.Srv.Lookup.{Network}
use xmpp_proxy.Srv.Connections.{Connections, get_xmpp_connections}
use xmpp_proxy.Verify.{Webpki}
use xmpp_proxy.Verify.Accepts.{Accepted, verify_cert_iff}
use xmpp_proxy.Incoming.{quoted, verify_peer, check_server, check_peer, Admitted, admit}

module _ {x : External} (net : Network) (w : Webpki x) (d : Digests) (now : ℕ) where
  -- The header claims a domain, and the peer showed a certificate that the verifier found for this
  -- domain accepts.
  pub record IsProven (stream_open : Bytes) (certs : Option (List Bytes)) : Type 0 where
    pub domain : Bytes
    pub claimed : quoted (codes "from") stream_open ≡ ok domain
    pub connections : Connections x net
    pub found : get_xmpp_connections x net domain false ≡ ok connections
    pub cert : Bytes
    pub chain : List Bytes
    pub shown : certs ≡ some (cert ∷ chain)
    pub accepted : Accepted w d connections.1 cert chain now

  verify_peer-Accepted :
      (certs : Option (List Bytes)) (c : Connections x net)
      → verify_peer net w d now certs c ≡ ok tt
      → (cert : Bytes) × (chain : List Bytes) × (certs ≡ some (cert ∷ chain))
        × Accepted w d c.1 cert chain now
  verify_peer-Accepted none c h = cc
  verify_peer-Accepted (some []) c h = cc
  verify_peer-Accepted (some (cert ∷ chain)) c h =
      (cert, chain, refl, (verify_cert_iff w d c.1 cert chain now).0 h)

  check_server-IsProven :
      (stream_open : Bytes) (certs : Option (List Bytes))
      → check_server net w d now stream_open certs ≡ ok tt
      → IsProven stream_open certs
  unfolding check_server
  check_server-IsProven stream_open certs h =
      let (domain, h₁, e) = ok-of_>>= _ (quoted (codes "from") stream_open >>= from_utf8) (sym h) in
      let (c, h₂, f) =
        ok-of_>>= (verify_peer net w d now certs) (get_xmpp_connections x net domain false) h₁ in
      let (raw, u, q) = ok-of_>>= from_utf8 (quoted (codes "from") stream_open) (sym e) in
      let (cert, chain, shown, accepted) = verify_peer-Accepted certs c (sym h₂) in
      record {
        domain = domain;
        claimed = q ∙ ap ok (sym (from_utf8-ok raw domain u));
        connections = c;
        found = f;
        cert = cert;
        chain = chain;
        shown = shown;
        accepted = accepted;
      }

  pub check_peer-IsProven :
      (o : Opening) (certs : Option (List Bytes))
      → check_peer net w d now o certs ≡ ok tt
      → o.1 ≡ false
      → IsProven o.0 certs
  check_peer-IsProven (stream_open, true) certs h k = cc
  check_peer-IsProven (stream_open, false) certs h k = check_server-IsProven stream_open certs h

  -- A stream that is not a client's is passed on only if its header claims a domain and the peer's
  -- certificate is accepted for that domain.
  pub admit-IsProven :
      (f : StanzaFilter) (src : Bytes) (ending : Ending) (certs : Option (List Bytes))
      (a : Admitted net w d now)
      → admit net w d now f src ending certs ≡ ok a
      → a.opening.1 ≡ false
      → IsProven a.opening.0 certs
  unfolding admit
  admit-IsProven f src ending certs a h k =
      let (o, h₁, e) = ok-of_>>= _ (stream_preamble f src ending).0 (sym h) in
      let (u, h₂, c) = ok-of_>>= _ (check_peer net w d now o certs) h₁ in
      let same : a.opening ≡ o = ap (λ b. b.opening) (ok-inj h₂) in
      subst (λ p. IsProven p.0 certs) (sym same)
        (check_peer-IsProven o certs c (ap (λ p. p.1) (sym same) ∙ k))
