-- ===== src/Srv/Dedup/Kept.antt =====
-- Which connections `sort_dedup` keeps.
use xmpp_proxy.Prelude.{
  ◌≤◌, ◌≡◌, ◌⊎◌, inl, inr, refl, sym, subst, Bool, true, false, ◌&&◌, ◌==◌, ==_iff, Bytes, bytes_eq,
  bytes_eq_iff, length, List, [], ◌∷◌, ok, ok-of_>>=, ok-inj, arith,
}
use xmpp_proxy.Srv.Order.{
  type_eq, compare_connection, compare_preference, connection_eq, sort_dedup,
}
use xmpp_proxy.Srv.Sort.{
  Among, first, later, Among-sort_by, sort_by-Among, sort_by, insert_by, dedup, dedup_from,
  dedup-Among, Kept-dedup,
}
use xmpp_proxy.Srv.Types.{
  External, XmppConnectionType, start_tls, direct_tls, quic, web_socket, web_transport,
  XmppConnection,
}

and-both : (a b : Bool) → (a && b) ≡ true → (a ≡ true) × (b ≡ true)
and-both true b h = (refl, h)
and-both false b h = cc

module _ {x : External} where
  -- One protocol, with the same address of its own where it has one.
  pub data SameType : XmppConnectionType x → XmppConnectionType x → Type 0 where
    both_start_tls : SameType start_tls start_tls
    both_direct_tls : SameType direct_tls direct_tls
    both_quic : SameType quic quic
    both_web_socket :
        {uri uri' : x.Uri} {origin origin' : Bytes}
        → x.uri_eq uri uri' ≡ true
        → origin ≡ origin'
        → SameType (web_socket uri origin) (web_socket uri' origin')
    both_web_transport :
        {url url' : x.Url}
        → x.url_eq url url' ≡ true
        → SameType (web_transport url) (web_transport url')

  -- Two connections are the same but for how they are weighed.
  pub record Same (a b : XmppConnection x) : Type 0 where
    pub conn_type : SameType a.conn_type b.conn_type
    pub port : a.port ≡ b.port
    pub target : a.target ≡ b.target

  type_eq-SameType : (a b : XmppConnectionType x) → type_eq a b ≡ true → SameType a b
  unfolding type_eq
  type_eq-SameType start_tls start_tls h = both_start_tls
  type_eq-SameType direct_tls direct_tls h = both_direct_tls
  type_eq-SameType quic quic h = both_quic
  type_eq-SameType (web_socket uri origin) (web_socket uri' origin') h =
      let (u, o) = and-both (x.uri_eq uri uri') (bytes_eq origin origin') h in
      both_web_socket u ((bytes_eq_iff origin origin').0 o)
  type_eq-SameType (web_transport url) (web_transport url') h = both_web_transport h
  type_eq-SameType start_tls direct_tls h = cc
  type_eq-SameType start_tls quic h = cc
  type_eq-SameType start_tls (web_socket _ _) h = cc
  type_eq-SameType start_tls (web_transport _) h = cc
  type_eq-SameType direct_tls start_tls h = cc
  type_eq-SameType direct_tls quic h = cc
  type_eq-SameType direct_tls (web_socket _ _) h = cc
  type_eq-SameType direct_tls (web_transport _) h = cc
  type_eq-SameType quic start_tls h = cc
  type_eq-SameType quic direct_tls h = cc
  type_eq-SameType quic (web_socket _ _) h = cc
  type_eq-SameType quic (web_transport _) h = cc
  type_eq-SameType (web_socket _ _) start_tls h = cc
  type_eq-SameType (web_socket _ _) direct_tls h = cc
  type_eq-SameType (web_socket _ _) quic h = cc
  type_eq-SameType (web_socket _ _) (web_transport _) h = cc
  type_eq-SameType (web_transport _) start_tls h = cc
  type_eq-SameType (web_transport _) direct_tls h = cc
  type_eq-SameType (web_transport _) quic h = cc
  type_eq-SameType (web_transport _) (web_socket _ _) h = cc

  SameType-type_eq : {a b : XmppConnectionType x} → SameType a b → type_eq a b ≡ true
  unfolding type_eq
  SameType-type_eq both_start_tls = refl
  SameType-type_eq both_direct_tls = refl
  SameType-type_eq both_quic = refl
  SameType-type_eq (both_web_socket {origin = o} {origin' = p} u e) =
      rw (u, (bytes_eq_iff o p).1 e) refl
  SameType-type_eq (both_web_transport u) = u

  connection_eq-Same : (a b : XmppConnection x) → connection_eq a b ≡ true → Same a b
  unfolding connection_eq
  connection_eq-Same a b h =
      let (t, r) =
        and-both (type_eq a.conn_type b.conn_type) (a.port == b.port && bytes_eq a.target b.target)
          h in
      let (p, e) = and-both (a.port == b.port) (bytes_eq a.target b.target) r in
      record {
        conn_type = type_eq-SameType a.conn_type b.conn_type t;
        port = (==_iff a.port b.port).0 p;
        target = (bytes_eq_iff a.target b.target).0 e;
      }

  Same-connection_eq : (a b : XmppConnection x) → Same a b → connection_eq a b ≡ true
  unfolding connection_eq
  Same-connection_eq a b s =
      rw
        (
          SameType-type_eq s.conn_type,
          (==_iff a.port b.port).1 s.port,
          (bytes_eq_iff a.target b.target).1 s.target,
        )
        refl

  -- a list of one connection over and over
  abbrev pub AllSame : List (XmppConnection x) → Type 0
  AllSame srvs = (a b : XmppConnection x) → Among a srvs → Among b srvs → Same a b

  dedup_from-AllSame :
      (kept : XmppConnection x) (srvs : List (XmppConnection x))
      → ((a : XmppConnection x) → Among a srvs → Same a kept)
      → dedup_from connection_eq kept srvs ≡ []
  unfolding dedup_from
  dedup_from-AllSame kept [] h = refl
  dedup_from-AllSame kept (a ∷ srvs) h =
      rw (Same-connection_eq a kept (h a first))
        (dedup_from-AllSame kept srvs (λ b m. h b (later m)))

  dedup-AllSame :
      (srvs : List (XmppConnection x))
      → AllSame srvs
      → length (sort_by compare_preference (dedup connection_eq srvs)) ≤ 1
  unfolding dedup sort_by insert_by
  dedup-AllSame [] h = omega arith
  dedup-AllSame (a ∷ srvs) h =
      rw (dedup_from-AllSame a srvs (λ b m. h b a (later m) first)) (omega arith)

  -- The list that `sort_dedup` leaves holds only connections that it was given. For each of those it
  -- holds that connection, or one with its protocol, port and target; and where all of them are alike
  -- in these, it holds at most one.
  pub sort_dedup-Keeps :
      (ret srvs : List (XmppConnection x))
      → sort_dedup ret ≡ ok srvs
      → ((c : XmppConnection x) → Among c srvs → Among c ret)
        × ((c : XmppConnection x)
            → Among c ret
            → (b : XmppConnection x) × Among b srvs × (Same c b ⊎ (c ≡ b)))
        × (AllSame ret → length srvs ≤ 1)
  unfolding sort_dedup
  sort_dedup-Keeps ret srvs h =
      let (sorted, h₁, e) = ok-of_>>= _ (x.sort compare_connection ret) (sym h) in
      let keeps = x.sort_keeps compare_connection ret sorted e in
      let kept = dedup connection_eq sorted in
      let out = ok-inj h₁ in
      (
        (λ c m. (keeps c).1 (
            dedup-Among connection_eq c sorted
              (sort_by-Among compare_preference c kept (subst (λ l. Among c l) out m)))),
        (λ c m.
            let (b, n, s) = Kept-dedup connection_eq c sorted ((keeps c).0 m) in
            (
              b,
              subst (λ l. Among b l) (sym out) (Among-sort_by compare_preference b kept n),
              elim s [ inl q ↦ inl (connection_eq-Same c b q) | inr q ↦ inr q ],
            )),
        (λ alike.
            subst (λ l. length l ≤ 1) (sym out)
              (dedup-AllSame sorted (λ a b m n. alike a b ((keeps a).1 m) ((keeps b).1 n)))),
      )
