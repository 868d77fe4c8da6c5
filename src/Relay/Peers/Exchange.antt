-- ===== src/Relay/Peers/Exchange.antt =====
-- What the two ends of a relay were sent.
use xmpp_proxy.Prelude.{ℕ, ◌≡◌, Bool, Bytes, Error, List, some, Outcome, ok, err}
use xmpp_proxy.Session.{Peer, next_stanza}
use xmpp_proxy.Websocket.Messages.{StanzaWrite}
use xmpp_proxy.Websocket.Messages.Writes.{Sends}
use xmpp_proxy.Relay.Peers.{Passed, passed, stopped, waits, Ends, Shuffled, relaying, finished}
use xmpp_proxy.Relay.Peers.Sent.{Gave, Wrote}

module _ (is_c2s : Bool) where
  -- what each end was sent between two moments of the relay, and what the other's reader gave
  pub record Exchange (e f : Ends) : Type 0 where
    pub inward : List (Bytes × ℕ)
    pub in_pings : List Bytes
    pub in_gave :
        Gave e.incoming.reader e.incoming.filter inward in_pings f.incoming.reader f.incoming.filter
    pub outward : List (Bytes × ℕ)
    pub out_pings : List Bytes
    pub out_gave :
        Gave e.outgoing.reader e.outgoing.filter outward out_pings f.outgoing.reader
          f.outgoing.filter
    pub in_wrote : Wrote is_c2s e.outgoing.writer inward out_pings f.outgoing.writer
    pub out_wrote : Wrote is_c2s e.incoming.writer outward in_pings f.incoming.writer

  -- what a branch has done
  data Did (a b : Peer) : Passed → Type 0 where
    did_pass :
        {buf : Bytes} {eoft : ℕ} {w : StanzaWrite}
        → (next_stanza a).0 ≡ ok (some (buf, eoft))
        → Sends is_c2s buf eoft b.writer w
        → Did a b (passed (next_stanza a).1 (record b { writer = w }))
    did_fail : {e : Error} → (next_stanza a).0 ≡ err e → Did a b (waits (next_stanza a).1)
    did_stop : {r : Outcome {0} Unit} → Did a b (stopped r)

  abbrev Follows : Ends → Shuffled → Type 0
  Follows e (relaying f) = Exchange e f
  Follows e (finished r) = Unit
