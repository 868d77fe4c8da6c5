-- ===== src/Srv/Connect/Serves.antt =====
-- Which server a client is connected to.
use xmpp_proxy.Prelude.{
  ◌≡◌, refl, sym, subst, Bool, Bytes, List, [], ◌∷◌, length, Outcome, ok, err, panic, ◌>>=◌,
}
use xmpp_proxy.Filter.{StanzaFilter}
use xmpp_proxy.Preamble.{Opening}
use xmpp_proxy.Websocket.Messages.{StanzaWrite}
use xmpp_proxy.Websocket.Messages.Writes.{Sends, write_flush_stanza, write_flush_stanza-Sends}
use xmpp_proxy.Session.{open_stream}
use xmpp_proxy.Session.Opens.{IsOpened, open_stream-IsOpened}
use xmpp_proxy.Srv.Types.{External, XmppConnection}
use xmpp_proxy.Srv.Sort.{Among, first, later}
use xmpp_proxy.Srv.Connect.{
  Wires, Transports, Reached, connect, Served, peer_for, served_or, greet, connect_any,
}
use xmpp_proxy.Srv.Connect.Reaches.{OpenedFor, Reaches, connect-Reaches}

module _ {x : External} (net : Transports x) where
  -- One of the connections was reached by a dial, behind what this sent the header was sent next, and
  -- the server answered with a preamble, which is the response.
  pub record ServedBy (is_c2s : Bool) (srvs : List (XmppConnection x)) (domain stream_open : Bytes)
      (s : Served net) : Type 0 where
    pub srv : XmppConnection x
    pub listed : Among srv srvs
    pub wires : Wires
    pub opened : OpenedFor net srv domain stream_open wires
    pub writer : StanzaWrite
    pub sent : Sends is_c2s stream_open (length stream_open) wires.writer writer
    pub before : StanzaFilter
    pub c2s : Bool
    pub answered :
        IsOpened
          (peer_for net wires writer before)
          (s.server_response, c2s)
          (peer_for net s.wires s.wires.writer s.filter)

  module _ (is_c2s : Bool) where
    abbrev Serves : List (XmppConnection x) → Bytes → Bytes → Outcome (Served net) → Type 0
    Serves srvs domain stream_open (ok s) = ServedBy is_c2s srvs domain stream_open s
    Serves srvs domain stream_open (err e) = Unit
    Serves srvs domain stream_open panic = Unit

    Serves-later :
        (c : XmppConnection x) (srvs : List (XmppConnection x)) (domain stream_open : Bytes)
        (o : Outcome (Served net))
        → Serves srvs domain stream_open o
        → Serves (c ∷ srvs) domain stream_open o
    Serves-later c srvs domain stream_open (ok s) h = record {
      srv = h.srv;
      listed = later h.listed;
      wires = h.wires;
      opened = h.opened;
      writer = h.writer;
      sent = h.sent;
      before = h.before;
      c2s = h.c2s;
      answered = h.answered;
    }
    Serves-later c srvs domain stream_open (err e) h = tt
    Serves-later c srvs domain stream_open panic h = tt

    served_or-Serves :
        (c : XmppConnection x) (srvs : List (XmppConnection x)) (domain stream_open : Bytes)
        (w : Wires) (v : StanzaWrite) (f : StanzaFilter) (o : Outcome Opening)
        (more : StanzaFilter → Outcome (Served net))
        → (open_stream (peer_for net w v f)).0 ≡ o
        → OpenedFor net c domain stream_open w
        → Sends is_c2s stream_open (length stream_open) w.writer v
        → ((g : StanzaFilter) → Serves srvs domain stream_open (more g))
        → Serves
            (c ∷ srvs)
            domain
            stream_open
            (served_or net (o, (open_stream (peer_for net w v f)).1) more)
    served_or-Serves c srvs domain stream_open w v f (ok (response, c2s)) more e o s k = record {
      srv = c;
      listed = first;
      wires = w;
      opened = o;
      writer = v;
      sent = s;
      before = f;
      c2s = c2s;
      answered = open_stream-IsOpened (peer_for net w v f) (response, c2s) e;
    }
    served_or-Serves c srvs domain stream_open w v f (err _) more e o s k =
        Serves-later c srvs domain stream_open _ (k (open_stream (peer_for net w v f)).1.filter)
    served_or-Serves c srvs domain stream_open w v f panic more e o s k = tt

    written-Serves :
        (c : XmppConnection x) (srvs : List (XmppConnection x)) (domain stream_open : Bytes)
        (w : Wires) (f : StanzaFilter) (o : Outcome StanzaWrite)
        (more : StanzaFilter → Outcome (Served net))
        → write_flush_stanza is_c2s stream_open (length stream_open) w.writer ≡ o
        → OpenedFor net c domain stream_open w
        → ((g : StanzaFilter) → Serves srvs domain stream_open (more g))
        → Serves
            (c ∷ srvs)
            domain
            stream_open
            (o >>= λ v. served_or net (open_stream (peer_for net w v f)) more)
    written-Serves c srvs domain stream_open w f (ok v) more e o k =
        served_or-Serves c srvs domain stream_open w v f (open_stream (peer_for net w v f)).0 more
          refl o
          (write_flush_stanza-Sends is_c2s stream_open (length stream_open) w.writer v (sym e)) k
    written-Serves c srvs domain stream_open w f (err _) more e o k = tt
    written-Serves c srvs domain stream_open w f panic more e o k = tt

    greet-Serves :
        (c : XmppConnection x) (srvs : List (XmppConnection x)) (domain stream_open : Bytes)
        (r : Outcome Reached × StanzaFilter) (more : StanzaFilter → Outcome (Served net))
        → Reaches net c domain stream_open r.0
        → ((g : StanzaFilter) → Serves srvs domain stream_open (more g))
        → Serves (c ∷ srvs) domain stream_open (greet net is_c2s r stream_open more)
    greet-Serves c srvs domain stream_open (ok r, f) more h k =
        written-Serves c srvs domain stream_open r.wires f
          (write_flush_stanza is_c2s stream_open (length stream_open) r.wires.writer) more refl h k
    greet-Serves c srvs domain stream_open (err e, f) more h k =
        Serves-later c srvs domain stream_open (more f) (k f)
    greet-Serves c srvs domain stream_open (panic, f) more h k = tt

    connect_any-Serves :
        (srvs : List (XmppConnection x)) (domain stream_open : Bytes) (f : StanzaFilter)
        → Serves srvs domain stream_open (connect_any net is_c2s srvs domain stream_open f)
    unfolding connect_any
    connect_any-Serves [] domain stream_open f = tt
    connect_any-Serves (c ∷ srvs) domain stream_open f =
        greet-Serves c srvs domain stream_open (connect net c domain stream_open f)
          (λ g. connect_any net is_c2s srvs domain stream_open g)
          (connect-Reaches net c domain stream_open f)
          (λ g. connect_any-Serves srvs domain stream_open g)

    -- A client is served only by one of the connections found, reached by a dial for the name of the
    -- domain or, if the connection is secure, of its target. Behind what the dial sent, the header was
    -- sent next, as bytes or as a message; and what the client gets first is the preamble with which
    -- the server answered.
    pub connect_any-ServedBy :
        (srvs : List (XmppConnection x)) (domain stream_open : Bytes) (f : StanzaFilter)
        (s : Served net)
        → connect_any net is_c2s srvs domain stream_open f ≡ ok s
        → ServedBy is_c2s srvs domain stream_open s
    connect_any-ServedBy srvs domain stream_open f s h =
        subst (Serves srvs domain stream_open) h (connect_any-Serves srvs domain stream_open f)
