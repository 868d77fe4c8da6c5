-- ===== src/Srv/Dedup.antt =====
-- The order that `sort_dedup` leaves, and what is wrong with the order it sorts by first.
pub mod Kept
use xmpp_proxy.Prelude.{
  ℕ, ◌≤◌, ◌<◌, ◌⊎◌, compare, Ordering, ◌≡◌, refl, sym, subst, Bool, true, false, List, [], ◌∷◌,
  Bytes, arith, Outcome, ok, ok-of_>>=, ok-inj,
}
use xmpp_proxy.Srv.Order.{
  compare_bytes, compare_bool, compare_web, compare_type, compare_connection, compare_preference,
  connection_eq, idx, sort_dedup,
}
use xmpp_proxy.Srv.Sort.{
  is_gt, Among, IsOrdered, no_element, before, Among-sort_by, sort_by-Among, sort_by-IsOrdered,
  sort_by, dedup, dedup-Among,
}
use xmpp_proxy.Srv.Types.{
  External, XmppConnectionType, start_tls, direct_tls, quic, web_socket, web_transport,
  XmppConnection,
}

module _ {x : External} where
  preference_total :
      (a b : XmppConnection x)
      → is_gt (compare_preference a b) ≡ true
      → is_gt (compare_preference b a) ≡ false
  unfolding compare_preference
  preference_total a b h = ground arith

  preference_trans :
      (a b c : XmppConnection x)
      → is_gt (compare_preference a b) ≡ false
      → is_gt (compare_preference b c) ≡ false
      → is_gt (compare_preference a c) ≡ false
  unfolding compare_preference
  preference_trans a b c h k = ground arith

  -- the order of the protocols: QUIC, WebTransport, direct TLS, STARTTLS, websocket
  abbrev pub rank : XmppConnectionType x → ℕ
  rank quic = 0
  rank (web_transport url) = 1
  rank direct_tls = 2
  rank start_tls = 3
  rank (web_socket uri origin) = 4

  -- `a` may stand before `b`: a lower priority, or else a better protocol, or else a weight that is
  -- not less
  abbrev pub MayPrecede : XmppConnection x → XmppConnection x → Type 0
  MayPrecede a b =
      (a.priority < b.priority)
      ⊎ ((a.priority ≡ b.priority)
          × ((rank a.conn_type < rank b.conn_type)
              ⊎ ((rank a.conn_type ≡ rank b.conn_type) × (b.weight ≤ a.weight))))

  pub data InOrder : List (XmppConnection x) → Type 0 where
    in_order_none : InOrder []
    in_order :
        {a : XmppConnection x} {srvs : List (XmppConnection x)}
        → ((b : XmppConnection x) → Among b srvs → MayPrecede a b)
        → InOrder srvs
        → InOrder (a ∷ srvs)

  rank-idx : (t : XmppConnectionType x) → idx t ≡ rank t
  rank-idx quic = refl
  rank-idx (web_transport url) = refl
  rank-idx direct_tls = refl
  rank-idx start_tls = refl
  rank-idx (web_socket uri origin) = refl

  compare-MayPrecede :
      (a b : XmppConnection x) → is_gt (compare_preference a b) ≡ false → MayPrecede a b
  unfolding compare_preference
  compare-MayPrecede a b h = ground (arith, rank-idx a.conn_type, rank-idx b.conn_type)

  IsOrdered-InOrder :
      {srvs : List (XmppConnection x)} → IsOrdered compare_preference srvs → InOrder srvs
  IsOrdered-InOrder no_element = in_order_none
  IsOrdered-InOrder (before {x = a} f o) =
      in_order (λ b m. compare-MayPrecede a b (f b m)) (IsOrdered-InOrder o)

  -- What `sort_dedup` leaves is in the order in which the connections are to be tried: by priority,
  -- the least first; of one priority by protocol; and of one protocol by weight, the greatest first.
  pub sort_dedup-InOrder :
      (ret srvs : List (XmppConnection x)) → sort_dedup ret ≡ ok srvs → InOrder srvs
  unfolding sort_dedup
  sort_dedup-InOrder ret srvs h =
      let (sorted, h₁, _) = ok-of_>>= _ (x.sort compare_connection ret) (sym h) in
      subst InOrder (sym (ok-inj h₁)) (
        IsOrdered-InOrder (
          sort_by-IsOrdered compare_preference preference_total preference_trans
            (dedup connection_eq sorted)))

compare_refl : (n : ℕ) → compare n n ≡ Ordering.eq
compare_refl n = ground arith

compare_bytes_refl : (xs : Bytes) → compare_bytes xs xs ≡ Ordering.eq
unfolding compare_bytes
compare_bytes_refl [] = refl
compare_bytes_refl (x ∷ xs) = rw (compare_refl x) (compare_bytes_refl xs)

compare_bool_refl : (b : Bool) → compare_bool b b ≡ Ordering.eq
unfolding compare_bool
compare_bool_refl true = refl
compare_bool_refl false = refl

module _ {x : External} where
  compare_web_refl : (t : XmppConnectionType x) → compare_web t t ≡ Ordering.eq
  unfolding compare_web
  compare_web_refl start_tls = refl
  compare_web_refl direct_tls = refl
  compare_web_refl quic = refl
  compare_web_refl (web_socket uri origin) =
      rw (compare_bytes_refl (x.uri_text uri)) (compare_bytes_refl origin)
  compare_web_refl (web_transport url) = compare_bytes_refl (x.url_text url)

  compare_type_refl : (t : XmppConnectionType x) → compare_type t t ≡ Ordering.eq
  unfolding compare_type
  compare_type_refl t = rw (compare_refl (idx t)) (compare_web_refl t)

  -- Compared with itself, a connection is equal exactly when its weight and its priority are the
  -- same number: `cmp` ends with the weight of one side against the priority of the other.
  pub compare_connection_refl :
      (c : XmppConnection x) → compare_connection c c ≡ compare c.weight c.priority
  unfolding compare_connection
  compare_connection_refl c = rw (compare_type_refl c.conn_type) (
      rw (compare_refl c.port) (
        rw (compare_bytes_refl c.target)
          (rw (compare_bool_refl c.secure) (rw (compare_refl c.priority) refl))))
