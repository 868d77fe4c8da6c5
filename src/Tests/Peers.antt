-- ===== src/Tests/Peers.antt =====
-- src/verify.rs, the lookups of src/srv.rs and src/common/incoming.rs at concrete inputs.
use xmpp_proxy.Prelude.{
  ℕ, ◌≡◌, ◌↔◌, refl, true, false, Bytes, codes, bytes_eq, starts_with, [], ◌∷◌, ◌++◌, none, some,
  Outcome, ok, err, invalid_name, http_status, if◌then◌else◌,
}
use xmpp_proxy.Slice.{contains_seq, first_index_of, scan_from}
use xmpp_proxy.Filter.{
  new, process_next_byte_idx, process_byte, dispatch, settle, stanza_end, checked_sub, last_equals,
  last_num_bytes, mark_first_tag, self_closing, close_tag, previous_byte, tag_end, outside_stanza,
}
use xmpp_proxy.Filter.Reader.{eof, read_loop, next_eoft}
use xmpp_proxy.Session.{async_read, open_stream, preamble_loop, next_by}
use xmpp_proxy.Websocket.Messages.{async_write, write_stanza, flush_stanza}
use xmpp_proxy.Wire.{Sink, write_all, flush}
use xmpp_proxy.Preamble.{preamble_round, is_client}
use xmpp_proxy.Srv.Types.{XmppConnection, start_tls, direct_tls, v4}
use xmpp_proxy.Srv.Sort.{Among, first, dedup, sort_by, contains}
use xmpp_proxy.Srv.Order.{sort_dedup}
use xmpp_proxy.Srv.Posh.{
  Digests, Posh, PoshJson, posh_fingerprints, posh_redirect_to, Response, posh_url, valid_cert,
  collect_posh, collect_posh_service, new_posh, hashes_256, hashes_512, least,
}
use xmpp_proxy.Srv.Posh.Collected.{Vouches, collect_posh-Vouches}
use xmpp_proxy.Srv.Links.{
  HostMeta, Found, LinkCommon, tls_link, collect, collect_links, link_connection, common_connection,
}
use xmpp_proxy.Srv.Links.Secure.{OldOrSecure, collect-OldOrSecure}
use xmpp_proxy.Srv.Lookup.{
  Network, collect_host_meta, collect_host_meta_json, collect_host_meta_xml,
}
use xmpp_proxy.Srv.Connections.{
  Connections, get_xmpp_connections, queries, with_verifier, push_targets, or_defaults,
}
use xmpp_proxy.Srv.Connections.Names.{IsBounded, get_xmpp_connections-IsBounded}
use xmpp_proxy.Srv.Connect.{Wires, Transports, Served, connect_any, connect, try_ips, try_ip}
use xmpp_proxy.Srv.Connect.Serves.{ServedBy, connect_any-ServedBy}
use xmpp_proxy.Verify.{Webpki, XmppServerCertVerifier, verify_cert}
use xmpp_proxy.Verify.Accepts.{Accepted, verify_cert_iff}
use xmpp_proxy.Tests.Connections.{plain_texts, connection}

abbrev pub digests : Digests
digests = record { sha_256 = λ s. s; sha_512 = λ s. s; encode = λ s. s }

-- a certificate is its own name
abbrev pub webpki : Webpki plain_texts
webpki = record {
  subject_key = λ cert. some cert;
  parses = λ cert. true;
  verify_for_usage = λ cert chain now. true;
  valid_for_name = bytes_eq;
}

abbrev verifier : XmppServerCertVerifier plain_texts
verifier = record { names = codes "a.org" ∷ []; posh = none; sha256_pinnedpubkeys = [] }

verify_cert_iff_example :
    (verify_cert webpki digests verifier (codes "a.org") [] 0 ≡ ok tt)
    ↔ Accepted webpki digests verifier (codes "a.org") [] 0
verify_cert_iff_example = verify_cert_iff webpki digests verifier (codes "a.org") [] 0

abbrev posh : Bytes → ℕ → Posh
posh hash expires = record {
  sha_256_fingerprints = hash ∷ [];
  sha_512_fingerprints = [];
  expires = expires;
}

-- the service of the clients redirects, and that of the servers is not there
abbrev https : Bytes → Outcome (Response PoshJson)
https url =
    if bytes_eq url (posh_url (codes "a.org") (codes "xmpp-client"))
    then ok (record { is_success = true; body = ok (posh_redirect_to (codes "https://b.org") 9) })
    else if bytes_eq url (codes "https://b.org")
    then ok (record {
      is_success = true;
      body = ok (posh_fingerprints (record { sha_256 = some (codes "x"); sha_512 = none } ∷ []) 5);
    })
    else err http_status

test_collected : collect_posh https (codes "a.org") ≡ ok (posh (codes "x") 5)
unfolding collect_posh collect_posh_service new_posh hashes_256 hashes_512 least bytes_eq
test_collected = refl

test_listed : valid_cert digests (posh (codes "x") 5) (codes "x") ≡ true
unfolding valid_cert contains bytes_eq
test_listed = refl

collect_posh-Vouches_example : Vouches https digests (codes "a.org") (codes "x") 5
collect_posh-Vouches_example =
    collect_posh-Vouches https digests (codes "a.org") (codes "x") (posh (codes "x") 5)
      test_collected test_listed

abbrev link : LinkCommon
link = record { ips = v4 1 ∷ []; priority = 1; weight = 1; sni = codes "b.org"; ech = none }

abbrev meta : HostMeta
meta = record { xmpp = none; links = tls_link link 443 ∷ [] }

abbrev nothing_found : Found plain_texts
nothing_found = record { ret = []; sha256_pinnedpubkeys = [] }

abbrev linked : XmppConnection plain_texts
linked = record {
  conn_type = direct_tls;
  priority = 1;
  weight = 1;
  port = 443;
  target = codes "b.org";
  secure = true;
  ips = v4 1 ∷ [];
  ech = none;
}

linked-Among : Among linked (collect plain_texts meta nothing_found true).1.ret
unfolding collect collect_links link_connection common_connection
linked-Among = first

collect-OldOrSecure_example : OldOrSecure plain_texts [] linked
collect-OldOrSecure_example =
    collect-OldOrSecure plain_texts meta nothing_found true linked linked-Among

-- a network that knows nothing of the domain
abbrev pub offline : Network
offline = record {
  srv_lookup = λ name. err invalid_name;
  txt_lookup = λ name. err invalid_name;
  get_json = λ url. err invalid_name;
  get_bytes = λ url. err invalid_name;
  get_posh = λ domain. err invalid_name;
}

abbrev pub defaults : Connections plain_texts offline
defaults = (or_defaults plain_texts offline [] (codes "a.org") false, verifier)

pub test_offline : get_xmpp_connections plain_texts offline (codes "a.org") false ≡ ok defaults
unfolding get_xmpp_connections queries with_verifier push_targets collect_host_meta
    collect_host_meta_json collect_host_meta_xml sort_dedup sort_by dedup
test_offline = refl

get_xmpp_connections-IsBounded_example : IsBounded plain_texts offline (codes "a.org") defaults
get_xmpp_connections-IsBounded_example =
    get_xmpp_connections-IsBounded plain_texts offline (codes "a.org") false defaults test_offline

abbrev pub sink : Sink
sink = record { sent = []; calls = 9 }

abbrev answering : Wires
answering = record { writer = async_write sink; reader = async_read (codes "<stream:stream >") eof }

abbrev pub transports : Transports plain_texts
transports = record {
  dial = λ conn_type ip port name stream_open f. (ok answering, f);
  lookup_ip = λ target. ok (v4 1 ∷ []);
}

abbrev served : Served transports
served = record {
  wires = record {
    writer = async_write (record { sent = codes "<h>"; calls = 7 });
    reader = async_read [] eof;
  };
  server_response = codes "<stream:stream >";
  filter = record {
    buf_size = 18;
    buf = codes "<stream:stream >" ++ (0 ∷ 0 ∷ []);
    end_of_first_tag = 0;
    cnt = 0;
    tag_cnt = 0;
    state = outside_stanza;
  };
}

test_served :
    connect_any transports true
      (connection start_tls 5 1 5222 ∷ [])
      (codes "a.org")
      (codes "<h>")
      (new 18)
    ≡ ok served
unfolding connect_any connect try_ips try_ip write_stanza flush_stanza write_all flush open_stream
    preamble_loop next_by next_eoft preamble_round is_client contains_seq first_index_of scan_from
    read_loop process_next_byte_idx process_byte dispatch settle stanza_end checked_sub last_equals
    last_num_bytes mark_first_tag self_closing close_tag previous_byte tag_end bytes_eq starts_with
test_served = refl

connect_any-ServedBy_example :
    ServedBy transports true
      (connection start_tls 5 1 5222 ∷ [])
      (codes "a.org")
      (codes "<h>")
      served
connect_any-ServedBy_example =
    connect_any-ServedBy transports true (connection start_tls 5 1 5222 ∷ []) (codes "a.org")
      (codes "<h>") (new 18) served test_served
