-- ===== src/Srv/Connections.antt =====
-- src/srv.rs: `get_xmpp_connections`.
pub mod Names
use xmpp_proxy.Prelude.{
  ℕ, Bool, true, false, not, if◌then◌else◌, Bytes, codes, List, [], ◌∷◌, ◌++◌, Option, none, some,
  Outcome, ok, err, panic, ◌>>=◌, invalid_name,
}
use xmpp_proxy.Srv.Types.{External, XmppConnectionType, start_tls, direct_tls, quic, XmppConnection}
use xmpp_proxy.Srv.Sort.{contains}
use xmpp_proxy.Srv.Order.{sort_dedup}
use xmpp_proxy.Srv.Posh.{Posh}
use xmpp_proxy.Srv.Links.{Found}
use xmpp_proxy.Srv.Lookup.{Answer, Network, collect_srvs, collect_txts, collect_host_meta}
use xmpp_proxy.Verify.{XmppServerCertVerifier}

module _ (x : External) (net : Network) where
  abbrev named : Option x.ServerName → Outcome x.ServerName
  named none = err invalid_name
  named (some name) = ok name

  -- `format!("{}.{}.", service, domain).into_name()`
  abbrev into_name : Bytes → Bytes → Outcome Bytes
  into_name service domain =
      let name = service ++ (codes "." ++ (domain ++ codes ".")) in
      if x.is_dns_name name then ok name else err invalid_name

  -- the names to ask for
  pub record Queries : Type 0 where
    pub starttls : Bytes
    pub direct : Bytes
    pub quics : Bytes
    pub websocket_txt : Bytes

  abbrev service : Bool → Bytes → Bytes → Bytes
  service is_c2s c s = if is_c2s then c else s

  unfoldable pub queries : Bytes → Bool → Outcome Queries
  queries domain is_c2s =
      into_name (service is_c2s (codes "_xmpp-client._tcp") (codes "_xmpp-server._tcp")) domain
      >>= λ a.
          into_name (service is_c2s (codes "_xmpps-client._tcp") (codes "_xmpps-server._tcp"))
            domain
          >>= λ b.
              into_name (service is_c2s (codes "_xmppq-client._udp") (codes "_xmppq-server._udp"))
                domain
              >>= λ c.
                  into_name (service is_c2s (codes "_xmppconnect") (codes "_xmppconnect-server"))
                    domain
                  >>= λ d. ok (record { starttls = a; direct = b; quics = c; websocket_txt = d })

  -- what the records of DNS add, unless a host-meta document gave a time to live
  abbrev dns_records : Queries → Bool → List (XmppConnection x) → List (XmppConnection x)
  dns_records q is_c2s ret = collect_srvs x (net.srv_lookup q.quics) quic (
      collect_srvs x (net.srv_lookup q.direct) direct_tls (
        collect_srvs x (net.srv_lookup q.starttls) start_tls
          (collect_txts x (net.txt_lookup q.websocket_txt) is_c2s ret)))

  abbrev with_records :
      Outcome (Option ℕ)
      → Queries
      → Bool
      → List (XmppConnection x)
      → Outcome (List (XmppConnection x))
  with_records (ok (some ttl)) q is_c2s ret = ok ret
  with_records (ok none) q is_c2s ret = ok (dns_records q is_c2s ret)
  with_records (err _) q is_c2s ret = ok (dns_records q is_c2s ret)
  with_records panic q is_c2s ret = panic

  -- the targets of secure connections are valid names too
  abbrev push_name : Option x.ServerName → List x.ServerName → List x.ServerName
  push_name none names = names
  push_name (some name) names =
      if contains x.server_name_eq names name then names else names ++ name ∷ []

  unfoldable pub push_targets : List (XmppConnection x) → List x.ServerName → List x.ServerName
  push_targets [] names = names
  push_targets (srv ∷ srvs) names =
      push_targets srvs (if srv.secure then push_name (x.server_name srv.target) names else names)

  abbrev default_connection : Bytes → XmppConnectionType x → ℕ → XmppConnection x
  default_connection domain conn_type port = record {
    conn_type = conn_type;
    priority = 0;
    weight = 0;
    port = port;
    target = domain;
    secure = false;
    ips = [];
    ech = none;
  }

  abbrev pub or_defaults : List (XmppConnection x) → Bytes → Bool → List (XmppConnection x)
  or_defaults [] domain is_c2s =
      default_connection domain start_tls (if is_c2s then 5222 else 5269)
      ∷ default_connection domain direct_tls 443
      ∷ default_connection domain quic 443
      ∷ []
  or_defaults (srv ∷ srvs) domain is_c2s = srv ∷ srvs

  abbrev posh_ok : Outcome Posh → Option Posh
  posh_ok (ok posh) = some posh
  posh_ok (err _) = none
  posh_ok panic = none

  abbrev pub Connections : Type 0
  Connections = List (XmppConnection x) × XmppServerCertVerifier x

  -- what is made of the connections found, sorted
  unfoldable pub with_verifier :
      Bytes → Bool → x.ServerName → Found x → List (XmppConnection x) → Connections
  with_verifier domain is_c2s name found ret = (
    or_defaults ret domain is_c2s,
    record {
      names = push_targets ret (name ∷ []);
      posh = posh_ok (net.get_posh domain);
      sha256_pinnedpubkeys = found.sha256_pinnedpubkeys;
    },
  )

  abbrev none_found : Found x
  none_found = record { ret = []; sha256_pinnedpubkeys = [] }

  unfoldable pub get_xmpp_connections : Bytes → Bool → Outcome Connections
  get_xmpp_connections domain is_c2s = named (x.server_name domain) >>= λ name.
      queries domain is_c2s >>= λ q.
      let (ttl, found) = collect_host_meta x net domain is_c2s none_found in
      with_records ttl q is_c2s found.ret >>= λ ret.
      sort_dedup ret >>= λ srvs. ok (with_verifier domain is_c2s name found srvs)
