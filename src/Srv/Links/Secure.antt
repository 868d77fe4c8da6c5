-- ===== src/Srv/Links/Secure.antt =====
-- Every connection of a host-meta document is validated against its own target.
use xmpp_proxy.Prelude.{
  ℕ, ◌≡◌, ◌⊎◌, inl, inr, refl, subst, Bool, true, false, Bytes, List, [], ◌∷◌, Option, none, some,
}
use xmpp_proxy.Srv.Types.{External, IpAddr, XmppConnectionType, XmppConnection}
use xmpp_proxy.Srv.Sort.{Among, Among-snoc}
use xmpp_proxy.Srv.Links.{
  LinkCommon, Link, ws_link, wt_link, s2s_wt_link, s2s_ws_link, tls_link, quic_link, s2s_tls_link,
  s2s_quic_link, unknown_link, HostMeta, HostMetaXmpp, from_host, from_uri, wss_to_srv, wt_to_srv,
  with_ips, common_connection, with_link, with_url, if_for, link_connection, Found, push_some,
  collect_links, with_xmpp, collect,
}

module _ (x : External) where
  abbrev pub AllSecure : Option (XmppConnection x) → Type 0
  AllSecure none = Unit
  AllSecure (some srv) = srv.secure ≡ true

  from_host-secure : (url : x.Uri) (o : Option Bytes) → AllSecure (from_host x url true o)
  from_host-secure url none = tt
  from_host-secure url (some name) = refl

  from_uri-secure : (o : Option x.Uri) → AllSecure (from_uri x o true)
  from_uri-secure none = tt
  from_uri-secure (some url) = from_host-secure url (x.host url)

  wss_to_srv-secure : (href : Bytes) → AllSecure (wss_to_srv x href true)
  unfolding wss_to_srv
  wss_to_srv-secure href = from_uri-secure (x.parse_uri href)

  common_connection-secure :
      (link : LinkCommon) (t : XmppConnectionType x) (port : ℕ)
      → AllSecure (common_connection x link t port)
  unfolding common_connection
  common_connection-secure link t port = decide link.ips
    where
      decide : (ips : List IpAddr) → AllSecure (with_ips x ips link t port)
      decide [] = tt
      decide (ip ∷ ips) = refl

  with_link-secure :
      (link : Option LinkCommon) (o : Option (XmppConnection x))
      → AllSecure o
      → AllSecure (with_link x link o)
  with_link-secure link none h = tt
  with_link-secure none (some srv) h = h
  with_link-secure (some link) (some srv) h = common_connection-secure link srv.conn_type srv.port

  with_url-secure :
      (link : LinkCommon) (o : Option (XmppConnectionType x × ℕ)) → AllSecure (with_url x link o)
  with_url-secure link none = tt
  with_url-secure link (some (t, port)) = common_connection-secure link t port

  if_for-secure :
      (a b : Bool) (o : Option (XmppConnection x)) → AllSecure o → AllSecure (if_for x a b o)
  if_for-secure true true o h = h
  if_for-secure false false o h = h
  if_for-secure true false o h = tt
  if_for-secure false true o h = tt

  link_connection-secure : (link : Link) (is_c2s : Bool) → AllSecure (link_connection x link is_c2s)
  unfolding link_connection
  link_connection-secure (ws_link href link) c =
      if_for-secure true c _ (with_link-secure link _ (wss_to_srv-secure href))
  link_connection-secure (s2s_ws_link href link) c =
      if_for-secure false c _ (with_link-secure (some link) _ (wss_to_srv-secure href))
  link_connection-secure (wt_link href link) c =
      if_for-secure true c _ (with_url-secure link (wt_to_srv x href))
  link_connection-secure (s2s_wt_link href link) c =
      if_for-secure false c _ (with_url-secure link (wt_to_srv x href))
  link_connection-secure (tls_link link port) c =
      if_for-secure true c _ (common_connection-secure link _ port)
  link_connection-secure (quic_link link port) c =
      if_for-secure true c _ (common_connection-secure link _ port)
  link_connection-secure (s2s_tls_link link port) c =
      if_for-secure false c _ (common_connection-secure link _ port)
  link_connection-secure (s2s_quic_link link port) c =
      if_for-secure false c _ (common_connection-secure link _ port)
  link_connection-secure unknown_link c = tt

  -- a connection that stood there before, or a secure one
  abbrev pub OldOrSecure : List (XmppConnection x) → XmppConnection x → Type 0
  OldOrSecure ret c = Among c ret ⊎ (c.secure ≡ true)

  push_some-OldOrSecure :
      (o : Option (XmppConnection x)) (ret : List (XmppConnection x)) (c : XmppConnection x)
      → AllSecure o
      → Among c (push_some x o ret)
      → OldOrSecure ret c
  push_some-OldOrSecure none ret c h m = inl m
  push_some-OldOrSecure (some srv) ret c h m = elim (Among-snoc ret m) [
    | inl n ↦ inl n
    | inr e ↦ inr (subst (λ d. d.secure ≡ true) e h)
  ]

  collect_links-OldOrSecure :
      (links : List Link) (is_c2s : Bool) (ret : List (XmppConnection x)) (c : XmppConnection x)
      → Among c (collect_links x links is_c2s ret)
      → OldOrSecure ret c
  unfolding collect_links
  collect_links-OldOrSecure [] is_c2s ret c m = inl m
  collect_links-OldOrSecure (link ∷ links) is_c2s ret c m =
      elim (collect_links-OldOrSecure links is_c2s (push_some x (link_connection x link is_c2s) ret)
        c m) [
          | inl n ↦
              push_some-OldOrSecure (link_connection x link is_c2s) ret c
                (link_connection-secure link is_c2s) n
          | inr s ↦ inr s
        ]

  -- Every connection that a host-meta document adds is marked to be validated against its own target.
  pub collect-OldOrSecure :
      (meta : HostMeta) (found : Found x) (is_c2s : Bool) (c : XmppConnection x)
      → Among c (collect x meta found is_c2s).1.ret
      → OldOrSecure found.ret c
  unfolding collect
  collect-OldOrSecure meta found is_c2s c m = decide meta.xmpp m
    where
      decide :
          (o : Option HostMetaXmpp)
          → Among c
              (with_xmpp x o
                (record found { ret = collect_links x meta.links is_c2s found.ret })).1.ret
          → OldOrSecure found.ret c
      decide none m = collect_links-OldOrSecure meta.links is_c2s found.ret c m
      decide (some xmpp) m = collect_links-OldOrSecure meta.links is_c2s found.ret c m
