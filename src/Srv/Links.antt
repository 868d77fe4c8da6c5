-- ===== src/Srv/Links.antt =====
-- src/srv.rs: the links of a host-meta document and the addresses of websockets, as connections.
pub mod Secure
use xmpp_proxy.Prelude.{
  ℕ, zero, suc, Bool, true, false, not, ◌==◌, if◌then◌else◌, Bytes, codes, List, [], ◌∷◌, ◌++◌,
  Option, none, some,
}
use xmpp_proxy.Srv.Types.{
  IpAddr, External, XmppConnectionType, start_tls, direct_tls, quic, web_socket, web_transport,
  XmppConnection, u16_max,
}

pub record LinkCommon : Type 0 where
  pub ips : List IpAddr
  pub priority : ℕ
  pub weight : ℕ
  pub sni : Bytes
  pub ech : Option Bytes

-- `Link`, as the library reads it from JSON
pub data Link : Type 0 where
  ws_link : Bytes → Option LinkCommon → Link
  wt_link s2s_wt_link s2s_ws_link : Bytes → LinkCommon → Link
  tls_link quic_link s2s_tls_link s2s_quic_link : LinkCommon → ℕ → Link
  unknown_link : Link

pub record HostMetaXmpp : Type 0 where
  pub ttl : ℕ
  pub public_key_pins_sha_256 : List Bytes

pub record HostMeta : Type 0 where
  pub xmpp : Option HostMetaXmpp
  pub links : List Link

module _ (x : External) where
  -- the origin and the port of an address
  abbrev with_port : Option (Bytes × ℕ) → Bytes → Bytes × ℕ
  with_port none server_name = (codes "https://" ++ server_name, 443)
  with_port (some (port_text, port)) server_name =
      ((codes "https://" ++ server_name) ++ (codes ":" ++ port_text), port)

  abbrev from_host : x.Uri → Bool → Option Bytes → Option (XmppConnection x)
  from_host url secure none = none
  from_host url secure (some server_name) =
      let (origin, port) = with_port (x.uri_port url) server_name in
      some (record {
        conn_type = web_socket url origin;
        priority = u16_max;
        weight = 0;
        port = port;
        target = server_name;
        secure = secure;
        ips = [];
        ech = none;
      })

  abbrev from_uri : Option x.Uri → Bool → Option (XmppConnection x)
  from_uri none secure = none
  from_uri (some url) secure = from_host url secure (x.host url)

  unfoldable pub wss_to_srv : Bytes → Bool → Option (XmppConnection x)
  wss_to_srv url secure = from_uri (x.parse_uri url) secure

  -- `url.port().unwrap_or(443)`
  abbrev port_or : Option ℕ → ℕ
  port_or none = 443
  port_or (some port) = port

  abbrev from_url : Option x.Url → Option (XmppConnectionType x × ℕ)
  from_url none = none
  from_url (some url) = some (web_transport url, port_or (x.url_port url))

  unfoldable pub wt_to_srv : Bytes → Option (XmppConnectionType x × ℕ)
  wt_to_srv url = from_url (x.parse_url url)

  -- `LinkCommon::into_xmpp_connection`; a link without addresses is refused
  abbrev with_ips : List IpAddr → LinkCommon → XmppConnectionType x → ℕ → Option (XmppConnection x)
  with_ips [] link conn_type port = none
  with_ips (ip ∷ ips) link conn_type port = some (record {
    conn_type = conn_type;
    priority = link.priority;
    weight = link.weight;
    port = port;
    target = link.sni;
    secure = true;
    ips = ip ∷ ips;
    ech = link.ech;
  })

  unfoldable pub common_connection :
      LinkCommon → XmppConnectionType x → ℕ → Option (XmppConnection x)
  common_connection link conn_type port = with_ips link.ips link conn_type port

  abbrev with_link : Option LinkCommon → Option (XmppConnection x) → Option (XmppConnection x)
  with_link link none = none
  with_link none (some srv) = some srv
  with_link (some link) (some srv) = common_connection link srv.conn_type srv.port

  abbrev with_url : LinkCommon → Option (XmppConnectionType x × ℕ) → Option (XmppConnection x)
  with_url link none = none
  with_url link (some (conn_type, port)) = common_connection link conn_type port

  -- a link is for clients, or for servers
  abbrev if_for : Bool → Bool → Option (XmppConnection x) → Option (XmppConnection x)
  if_for true true srv = srv
  if_for false false srv = srv
  if_for _ _ srv = none

  -- `Link::into_xmpp_connection`
  unfoldable pub link_connection : Link → Bool → Option (XmppConnection x)
  link_connection (ws_link href link) is_c2s =
      if_for true is_c2s (with_link link (wss_to_srv href true))
  link_connection (s2s_ws_link href link) is_c2s =
      if_for false is_c2s (with_link (some link) (wss_to_srv href true))
  link_connection (wt_link href link) is_c2s = if_for true is_c2s (with_url link (wt_to_srv href))
  link_connection (s2s_wt_link href link) is_c2s =
      if_for false is_c2s (with_url link (wt_to_srv href))
  link_connection (tls_link link port) is_c2s =
      if_for true is_c2s (common_connection link direct_tls port)
  link_connection (quic_link link port) is_c2s =
      if_for true is_c2s (common_connection link quic port)
  link_connection (s2s_tls_link link port) is_c2s =
      if_for false is_c2s (common_connection link direct_tls port)
  link_connection (s2s_quic_link link port) is_c2s =
      if_for false is_c2s (common_connection link quic port)
  link_connection unknown_link is_c2s = none

  -- what the collectors add to
  pub record Found : Type 0 where
    pub ret : List (XmppConnection x)
    pub sha256_pinnedpubkeys : List Bytes

  abbrev pub push_some :
      Option (XmppConnection x) → List (XmppConnection x) → List (XmppConnection x)
  push_some none ret = ret
  push_some (some srv) ret = ret ++ srv ∷ []

  unfoldable pub collect_links :
      List Link → Bool → List (XmppConnection x) → List (XmppConnection x)
  collect_links [] is_c2s ret = ret
  collect_links (link ∷ links) is_c2s ret =
      collect_links links is_c2s (push_some (link_connection link is_c2s) ret)

  abbrev with_xmpp : Option HostMetaXmpp → Found → Option ℕ × Found
  with_xmpp none found = (none, found)
  with_xmpp (some xmpp) found = (
    some xmpp.ttl,
    record found {
      sha256_pinnedpubkeys = found.sha256_pinnedpubkeys ++ xmpp.public_key_pins_sha_256;
    },
  )

  -- `HostMeta::collect`
  unfoldable pub collect : HostMeta → Found → Bool → Option ℕ × Found
  collect meta found is_c2s =
      with_xmpp meta.xmpp (record found { ret = collect_links meta.links is_c2s found.ret })
