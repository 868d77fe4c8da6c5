-- ===== src/Srv/Types.antt =====
-- src/srv.rs: connection types, connections, and what the program takes from its libraries.
use xmpp_proxy.Prelude.{ℕ, Ordering, ◌≡◌, Bool, Bytes, List, Option, Outcome, ok}
use xmpp_proxy.Srv.Sort.{Among}

-- `IpAddr`
pub data IpAddr : Type 0 where
  v4 v6 : ℕ → IpAddr

-- `http::Uri`, `reqwest::Url` and `rustls::ServerName`, with the functions that the program calls, and
-- the sort of a list by an order that the program defines
pub record External : Type 1 where
  pub Uri : Type 0
  pub parse_uri : Bytes → Option Uri
  pub uri_text : Uri → Bytes
  pub uri_eq : Uri → Uri → Bool
  pub host : Uri → Option Bytes
  -- the text and the value of a port
  pub uri_port : Uri → Option (Bytes × ℕ)
  pub Url : Type 0
  pub parse_url : Bytes → Option Url
  pub url_text : Url → Bytes
  pub url_eq : Url → Url → Bool
  pub url_port : Url → Option ℕ
  pub ServerName : Type 0
  pub server_name : Bytes → Option ServerName
  pub server_name_eq : ServerName → ServerName → Bool
  -- whether `into_name` accepts a text
  pub is_dns_name : Bytes → Bool
  -- `sort` by an `Ord`: where this is no total order it may panic, or leave any order
  pub sort : {A : Type 0} → (A → A → Ordering) → List A → Outcome (List A)
  pub sort_keeps :
      {A : Type 0} (cmp : A → A → Ordering) (xs ys : List A)
      → sort cmp xs ≡ ok ys
      → (a : A) → (Among a xs → Among a ys) × (Among a ys → Among a xs)

-- `XmppConnectionType`, with every feature compiled in
pub data XmppConnectionType (x : External) : Type 0 where
  start_tls direct_tls quic : XmppConnectionType x
  web_socket : x.Uri → Bytes → XmppConnectionType x
  web_transport : x.Url → XmppConnectionType x

pub record XmppConnection (x : External) : Type 0 where
  pub conn_type : XmppConnectionType x
  pub priority : ℕ
  pub weight : ℕ
  pub port : ℕ
  pub target : Bytes
  pub secure : Bool
  pub ips : List IpAddr
  pub ech : Option Bytes

abbrev pub u16_max : ℕ
u16_max = 65535
