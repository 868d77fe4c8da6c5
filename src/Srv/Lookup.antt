-- ===== src/Srv/Lookup.antt =====
-- src/srv.rs: what is looked up for a domain. The answers of the resolver and of HTTPS are
-- parameters; the lookups run beside each other, and only `collect_host_meta` changes what they share.
use xmpp_proxy.Prelude.{
  ℕ, suc, ◌+◌, ◌||◌, leb, Bool, true, false, not, if◌then◌else◌, Bytes, codes, length, take, drop,
  starts_with, List, [], ◌∷◌, ◌++◌, Option, none, some, Outcome, ok, err, panic, ◌>>=◌, http_status,
  host_meta_s2s,
}
use xmpp_proxy.Slice.{contains_seq, first_index_of}
use xmpp_proxy.Filter.{new}
use xmpp_proxy.Filter.Reader.{eof, emit_stanza, emit_eoft}
use xmpp_proxy.Filter.Loops.{
  Round, go_on, leave, End, left, ended, failed, crashed, out_of_fuel, while_next,
}
use xmpp_proxy.Websocket.Text.{from_utf8}
use xmpp_proxy.Srv.Types.{External, XmppConnectionType, XmppConnection}
use xmpp_proxy.Srv.Sort.{contains}
use xmpp_proxy.Srv.Order.{connection_eq}
use xmpp_proxy.Srv.Posh.{Posh, Response}
use xmpp_proxy.Srv.Links.{HostMeta, Found, wss_to_srv, push_some, collect}

-- `RData` of an answer
pub record SrvRecord : Type 0 where
  pub priority : ℕ
  pub weight : ℕ
  pub port : ℕ
  pub target : Bytes
  pub is_root : Bool

pub data Answer : Type 0 where
  srv_answer : SrvRecord → Answer
  txt_answer : List Bytes → Answer
  other_answer : Answer

-- `RESOLVER`, and the two documents over HTTPS
pub record Network : Type 0 where
  pub srv_lookup : Bytes → Outcome (List Answer)
  pub txt_lookup : Bytes → Outcome (List Answer)
  pub get_json : Bytes → Outcome (Response HostMeta)
  pub get_bytes : Bytes → Outcome (Response Bytes)
  pub get_posh : Bytes → Outcome Posh

module _ (x : External) where
  abbrev from_srv : SrvRecord → XmppConnectionType x → XmppConnection x
  from_srv srv conn_type = record {
    conn_type = conn_type;
    priority = srv.priority;
    weight = srv.weight;
    port = srv.port;
    target = srv.target;
    secure = false;
    ips = [];
    ech = none;
  }

  unfoldable pub push_srvs :
      List Answer → XmppConnectionType x → List (XmppConnection x) → List (XmppConnection x)
  push_srvs [] conn_type ret = ret
  push_srvs (srv_answer srv ∷ more) conn_type ret =
      push_srvs more conn_type (if srv.is_root then ret else ret ++ from_srv srv conn_type ∷ [])
  push_srvs (txt_answer _ ∷ more) conn_type ret = push_srvs more conn_type ret
  push_srvs (other_answer ∷ more) conn_type ret = push_srvs more conn_type ret

  abbrev pub collect_srvs :
      Outcome (List Answer)
      → XmppConnectionType x
      → List (XmppConnection x)
      → List (XmppConnection x)
  collect_srvs (ok answers) conn_type ret = push_srvs answers conn_type ret
  collect_srvs (err _) conn_type ret = ret
  collect_srvs panic conn_type ret = ret

  -- `if !ret.contains(&srv) { ret.push(srv) }`
  abbrev push_new : Option (XmppConnection x) → List (XmppConnection x) → List (XmppConnection x)
  push_new none ret = ret
  push_new (some srv) ret = if contains connection_eq ret srv then ret else ret ++ srv ∷ []

  abbrev push_url : Outcome Bytes → List (XmppConnection x) → List (XmppConnection x)
  push_url (ok url) ret = push_new (wss_to_srv x url false) ret
  push_url (err _) ret = ret
  push_url panic ret = ret

  abbrev websocket_key : Bool → Bytes
  websocket_key is_c2s =
      if is_c2s
      then codes "_xmpp-client-websocket=wss://"
      else codes "_xmpp-server-websocket=wss://"

  -- the texts of one record; 23 bytes are the key and its `=`
  unfoldable pub push_txts : List Bytes → Bool → List (XmppConnection x) → List (XmppConnection x)
  push_txts [] is_c2s ret = ret
  push_txts (txt ∷ txts) is_c2s ret = push_txts txts is_c2s (
      if starts_with txt (websocket_key is_c2s)
      then push_url (from_utf8 (drop 23 txt)) ret
      else ret)

  unfoldable pub push_answers :
      List Answer → Bool → List (XmppConnection x) → List (XmppConnection x)
  push_answers [] is_c2s ret = ret
  push_answers (txt_answer txts ∷ more) is_c2s ret =
      push_answers more is_c2s (push_txts txts is_c2s ret)
  push_answers (srv_answer _ ∷ more) is_c2s ret = push_answers more is_c2s ret
  push_answers (other_answer ∷ more) is_c2s ret = push_answers more is_c2s ret

  abbrev pub collect_txts :
      Outcome (List Answer) → Bool → List (XmppConnection x) → List (XmppConnection x)
  collect_txts (ok answers) is_c2s ret = push_answers answers is_c2s ret
  collect_txts (err _) is_c2s ret = ret
  collect_txts panic is_c2s ret = ret

  -- `parse_host_meta_xml`: the address behind `="wss://`, in a quote of either kind
  abbrev href_end : Outcome ℕ → Bytes → List Bytes → Outcome (List Bytes)
  href_end (ok idx) stanza vec = from_utf8 (take idx stanza) >>= λ url. ok (vec ++ url ∷ [])
  href_end (err _) stanza vec = ok vec
  href_end panic stanza vec = panic

  abbrev href_start : Outcome ℕ → Bytes → Bytes → List Bytes → Outcome (List Bytes)
  href_start (ok idx) stanza quote vec =
      href_end (first_index_of (drop (idx + 2) stanza) quote) (drop (idx + 2) stanza) vec
  href_start (err _) stanza quote vec = ok vec
  href_start panic stanza quote vec = panic

  unfoldable pub push_href : Bytes → Bytes → Bytes → List Bytes → Outcome (List Bytes)
  push_href stanza needle quote vec = href_start (first_index_of stanza needle) stanza quote vec

  abbrev vec_round : Outcome (List Bytes) → Round (List Bytes) (Outcome (List Bytes))
  vec_round (ok vec) = go_on vec
  vec_round (err e) = leave (err e)
  vec_round panic = leave panic

  abbrev vec_end : End (List Bytes) (Outcome (List Bytes)) → Outcome (List Bytes)
  vec_end (left r) = r
  vec_end (ended vec) = ok vec
  vec_end (failed e vec) = ok vec
  vec_end crashed = panic
  vec_end out_of_fuel = panic

  unfoldable pub link_round : Bytes → List Bytes → Bytes → Round (List Bytes) (Outcome (List Bytes))
  link_round rel vec stanza =
      if contains_seq stanza rel
      then vec_round (
          push_href stanza (codes "='wss://") (codes "'") vec
          >>= push_href stanza (codes "=\"wss://") (codes "\""))
      else go_on vec

  abbrev pub links_of : Bytes → Bytes → List Bytes → Outcome (List Bytes)
  links_of rel stanza vec =
      vec_end
        (while_next emit_stanza (link_round rel) (suc (length stanza)) vec (new 4096) stanza
          eof).end

  abbrev xrd_links : Bool → Bytes → Bytes → List Bytes → Outcome (List Bytes)
  xrd_links true rel stanza vec = links_of rel stanza vec
  xrd_links false rel stanza vec = panic

  unfoldable pub xrd_round :
      Bytes → List Bytes → Bytes × ℕ → Round (List Bytes) (Outcome (List Bytes))
  xrd_round rel vec (stanza, eoft) =
      if starts_with stanza (codes "<XRD") || starts_with stanza (codes "<xrd")
      then vec_round (xrd_links (leb eoft (length stanza)) rel (drop eoft stanza) vec)
      else go_on vec

  -- the outer loop passes on an error of its reader
  abbrev xrd_end : End (List Bytes) (Outcome (List Bytes)) → Outcome (List Bytes)
  xrd_end (left r) = r
  xrd_end (ended vec) = ok vec
  xrd_end (failed e vec) = err e
  xrd_end crashed = panic
  xrd_end out_of_fuel = panic

  unfoldable pub parse_host_meta_xml : Bytes → Bytes → Outcome (List Bytes)
  parse_host_meta_xml rel bytes =
      xrd_end
        (while_next emit_eoft (xrd_round rel) (suc (length bytes)) [] (new 8192) bytes eof).end

  abbrev push_hosts : List Bytes → List (XmppConnection x) → List (XmppConnection x)
  push_hosts [] ret = ret
  push_hosts (host ∷ hosts) ret = push_hosts hosts (push_some x (wss_to_srv x host true) ret)

  module _ (net : Network) where
    abbrev hosts_of : Response Bytes → Outcome (List (XmppConnection x))
    hosts_of resp =
        if resp.is_success
        then (resp.body
            >>= parse_host_meta_xml (codes "urn:xmpp:alt-connections:websocket")
            >>= λ hosts. ok (push_hosts hosts []))
        else err http_status

    -- `collect_host_meta_xml`, on a list that is empty
    unfoldable pub collect_host_meta_xml : Bytes → Bool → Outcome (List (XmppConnection x))
    collect_host_meta_xml domain is_c2s =
        if not is_c2s
        then err host_meta_s2s
        else net.get_bytes (codes "https://" ++ (domain ++ codes "/.well-known/host-meta"))
          >>= hosts_of

    abbrev meta_of : Response HostMeta → Found x → Bool → Outcome (Option ℕ × Found x)
    meta_of resp found is_c2s =
        if resp.is_success
        then (resp.body >>= λ meta. ok (collect x meta found is_c2s))
        else err http_status

    unfoldable pub collect_host_meta_json : Bytes → Found x → Bool → Outcome (Option ℕ × Found x)
    collect_host_meta_json domain found is_c2s =
        net.get_json (codes "https://" ++ (domain ++ codes "/.well-known/host-meta.json"))
        >>= λ resp. meta_of resp found is_c2s

    -- what the two documents come to; without a time to live the JSON's connections stay
    abbrev found_of : Outcome (Option ℕ × Found x) → Found x → Found x
    found_of (ok (ttl, found)) before = found
    found_of (err _) before = before
    found_of panic before = before

    abbrev join_host_meta :
        Outcome (Option ℕ × Found x)
        → Outcome (List (XmppConnection x))
        → Found x
        → Outcome (Option ℕ) × Found x
    join_host_meta json panic before = (panic, before)
    join_host_meta (ok (some ttl, found)) xml before = (ok (some ttl), found)
    join_host_meta json (ok xml) before =
        (ok none, record (found_of json before) { ret = (found_of json before).ret ++ xml })
    join_host_meta (ok (none, found)) xml before = (ok none, found)
    join_host_meta (err e) xml before = (err e, before)
    join_host_meta panic xml before = (panic, before)

    unfoldable pub collect_host_meta : Bytes → Bool → Found x → Outcome (Option ℕ) × Found x
    collect_host_meta domain is_c2s before =
        join_host_meta (collect_host_meta_json domain before is_c2s)
          (collect_host_meta_xml domain is_c2s) before
