-- ===== src/Srv/Connect/Reaches.antt =====
-- Under which name a connection is opened.
use xmpp_proxy.Prelude.{
  ◌≡◌, ◌⊎◌, inl, inr, refl, true, not, ◌&&◌, Bool-cases, Bytes, bytes_eq, List, [], ◌∷◌, Outcome,
  ok, err, panic,
}
use xmpp_proxy.Filter.{StanzaFilter}
use xmpp_proxy.Srv.Types.{IpAddr, External, XmppConnection}
use xmpp_proxy.Srv.Connect.{
  Wires, Transports, Reached, name_for, tries_twice, second_try, try_ip, reached_or, try_ips,
  ips_of, with_ips, connect,
}

module _ {x : External} (net : Transports x) where
  -- The wires are what a dial came to, for the name of the domain or, where the connection is secure,
  -- for its target's.
  pub record OpenedFor (c : XmppConnection x) (domain stream_open : Bytes) (w : Wires)
      : Type 0 where
    pub ip : IpAddr
    pub name : Bytes
    pub before : StanzaFilter
    pub after : StanzaFilter
    pub opened : net.dial c.conn_type ip c.port name stream_open before ≡ (ok w, after)
    pub allowed : (name ≡ domain) ⊎ ((c.secure ≡ true) × (name ≡ c.target))

  name_for-allowed :
      (c : XmppConnection x) (domain : Bytes)
      → (name_for net c domain ≡ domain) ⊎ ((c.secure ≡ true) × (name_for net c domain ≡ c.target))
  name_for-allowed c domain = elim (Bool-cases c.secure) [
    | inl s ↦ inr (s, rw s refl)
    | inr p ↦ inl (rw p refl)
  ]

  abbrev Opens : XmppConnection x → Bytes → Bytes → Outcome Wires → Type 0
  Opens c domain stream_open (ok w) = OpenedFor c domain stream_open w
  Opens c domain stream_open (err e) = Unit
  Opens c domain stream_open panic = Unit

  open-Opens :
      (c : XmppConnection x) (ip : IpAddr) (domain name stream_open : Bytes) (f : StanzaFilter)
      (r : Outcome Wires × StanzaFilter)
      → net.dial c.conn_type ip c.port name stream_open f ≡ r
      → (name ≡ domain) ⊎ ((c.secure ≡ true) × (name ≡ c.target))
      → Opens c domain stream_open r.0
  open-Opens c ip domain name stream_open f (ok w, g) e a = record {
    ip = ip;
    name = name;
    before = f;
    after = g;
    opened = e;
    allowed = a;
  }
  open-Opens c ip domain name stream_open f (err _, g) e a = tt
  open-Opens c ip domain name stream_open f (panic, g) e a = tt

  second_try-Opens :
      (c : XmppConnection x) (ip : IpAddr) (domain stream_open : Bytes)
      (r : Outcome Wires × StanzaFilter)
      → Opens c domain stream_open r.0
      → Opens c domain stream_open (second_try net r c ip domain stream_open).0
  second_try-Opens c ip domain stream_open (ok w, f) h = h
  second_try-Opens c ip domain stream_open (panic, f) h = tt
  second_try-Opens c ip domain stream_open (err e, f) h =
      elim (Bool-cases
        (tries_twice net c.conn_type && (c.secure && not (bytes_eq c.target domain)))) [
          | inl t ↦ rw t (
              open-Opens c ip domain domain stream_open f
                (net.dial c.conn_type ip c.port domain stream_open f) refl (inl refl))
          | inr n ↦ rw n tt
        ]

  try_ip-Opens :
      (c : XmppConnection x) (ip : IpAddr) (domain stream_open : Bytes) (f : StanzaFilter)
      → Opens c domain stream_open (try_ip net c ip domain stream_open f).0
  unfolding try_ip
  try_ip-Opens c ip domain stream_open f =
      second_try-Opens c ip domain stream_open
        (net.dial c.conn_type ip c.port (name_for net c domain) stream_open f)
        (open-Opens c ip domain (name_for net c domain) stream_open f _ refl
          (name_for-allowed c domain))

  abbrev pub Reaches : XmppConnection x → Bytes → Bytes → Outcome Reached → Type 0
  Reaches c domain stream_open (ok r) = OpenedFor c domain stream_open r.wires
  Reaches c domain stream_open (err e) = Unit
  Reaches c domain stream_open panic = Unit

  reached_or-Reaches :
      (c : XmppConnection x) (ip : IpAddr) (domain stream_open : Bytes)
      (r : Outcome Wires × StanzaFilter) (more : StanzaFilter → Outcome Reached × StanzaFilter)
      → Opens c domain stream_open r.0
      → ((g : StanzaFilter) → Reaches c domain stream_open (more g).0)
      → Reaches c domain stream_open (reached_or net r c ip more).0
  reached_or-Reaches c ip domain stream_open (ok w, f) more h k = h
  reached_or-Reaches c ip domain stream_open (err e, f) more h k = k f
  reached_or-Reaches c ip domain stream_open (panic, f) more h k = tt

  try_ips-Reaches :
      (c : XmppConnection x) (ips : List IpAddr) (domain stream_open : Bytes) (f : StanzaFilter)
      → Reaches c domain stream_open (try_ips net c ips domain stream_open f).0
  unfolding try_ips
  try_ips-Reaches c [] domain stream_open f = tt
  try_ips-Reaches c (ip ∷ ips) domain stream_open f =
      reached_or-Reaches c ip domain stream_open (try_ip net c ip domain stream_open f)
        (λ g. try_ips net c ips domain stream_open g) (try_ip-Opens c ip domain stream_open f)
        (λ g. try_ips-Reaches c ips domain stream_open g)

  pub connect-Reaches :
      (c : XmppConnection x) (domain stream_open : Bytes) (f : StanzaFilter)
      → Reaches c domain stream_open (connect net c domain stream_open f).0
  unfolding connect
  connect-Reaches c domain stream_open f = decide (ips_of net c.ips c.target)
    where
      decide :
          (ips : Outcome (List IpAddr))
          → Reaches c domain stream_open (with_ips net ips c domain stream_open f).0
      decide (ok ips) = try_ips-Reaches c ips domain stream_open f
      decide (err e) = tt
      decide panic = tt
