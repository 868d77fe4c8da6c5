-- ===== src/Srv/Order.antt =====
-- src/srv.rs: `PartialEq` and `Ord` of connection types and connections, and `sort_dedup`.
use xmpp_proxy.Prelude.{
  ℕ, compare, Ordering, ◌==◌, Bool, true, false, ◌&&◌, if◌then◌else◌, Bytes, bytes_eq, [], ◌∷◌,
  List, Outcome, ok, ◌>>=◌,
}
use xmpp_proxy.Srv.Sort.{sort_by, dedup}
use xmpp_proxy.Srv.Types.{
  External, XmppConnectionType, start_tls, direct_tls, quic, web_socket, web_transport,
  XmppConnection,
}

-- `if cmp != Ordering::Equal { return cmp }`, and then the next one
infixr 20 ◌then◌
abbrev pub ◌then◌ : Ordering → Ordering → Ordering
Ordering.eq then o = o
Ordering.lt then o = Ordering.lt
Ordering.gt then o = Ordering.gt

-- `Ord` of byte strings: lexicographic
unfoldable pub compare_bytes : Bytes → Bytes → Ordering
compare_bytes [] [] = Ordering.eq
compare_bytes [] (y ∷ ys) = Ordering.lt
compare_bytes (x ∷ xs) [] = Ordering.gt
compare_bytes (x ∷ xs) (y ∷ ys) = compare x y then compare_bytes xs ys

-- `Ord` of `bool`: false before true
unfoldable pub compare_bool : Bool → Bool → Ordering
compare_bool false true = Ordering.lt
compare_bool true false = Ordering.gt
compare_bool _ _ = Ordering.eq

module _ {x : External} where
  -- `XmppConnectionType::idx`
  abbrev pub idx : XmppConnectionType x → ℕ
  idx quic = 0
  idx direct_tls = 2
  idx start_tls = 3
  idx (web_socket _ _) = 4
  idx (web_transport _) = 1

  -- the special cases behind `idx`
  unfoldable pub compare_web : XmppConnectionType x → XmppConnectionType x → Ordering
  compare_web (web_socket uri origin) (web_socket uri' origin') =
      compare_bytes (x.uri_text uri) (x.uri_text uri') then compare_bytes origin origin'
  compare_web (web_transport url) (web_transport url') =
      compare_bytes (x.url_text url) (x.url_text url')
  compare_web _ _ = Ordering.eq

  -- `Ord::cmp` of `XmppConnectionType`
  unfoldable pub compare_type : XmppConnectionType x → XmppConnectionType x → Ordering
  compare_type a b = compare (idx a) (idx b) then compare_web a b

  -- the derived `PartialEq` of `XmppConnectionType`
  unfoldable pub type_eq : XmppConnectionType x → XmppConnectionType x → Bool
  type_eq start_tls start_tls = true
  type_eq direct_tls direct_tls = true
  type_eq quic quic = true
  type_eq (web_socket uri origin) (web_socket uri' origin') =
      x.uri_eq uri uri' && bytes_eq origin origin'
  type_eq (web_transport url) (web_transport url') = x.url_eq url url'
  type_eq _ _ = false

  -- `PartialEq` of `XmppConnection`
  unfoldable pub connection_eq : XmppConnection x → XmppConnection x → Bool
  connection_eq a b =
      type_eq a.conn_type b.conn_type && (a.port == b.port && bytes_eq a.target b.target)

  -- `Ord::cmp` of `XmppConnection`; the last line compares a weight with a priority, as the source
  unfoldable pub compare_connection : XmppConnection x → XmppConnection x → Ordering
  compare_connection a b =
      compare_type a.conn_type b.conn_type
      then compare a.port b.port
      then compare_bytes a.target b.target
      then compare_bool b.secure a.secure
      then compare a.priority b.priority
      then compare b.weight a.priority

  -- the closure of `sort_dedup`
  unfoldable pub compare_preference : XmppConnection x → XmppConnection x → Ordering
  compare_preference a b =
      compare a.priority b.priority
      then compare (idx a.conn_type) (idx b.conn_type)
      then compare b.weight a.weight

  -- `cmp` is no total order, and the closure of the second sort is one
  unfoldable pub sort_dedup : List (XmppConnection x) → Outcome (List (XmppConnection x))
  sort_dedup ret = x.sort compare_connection ret >>= λ sorted.
      ok (sort_by compare_preference (dedup connection_eq sorted))
