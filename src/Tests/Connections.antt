-- ===== src/Tests/Connections.antt =====
-- src/srv.rs at concrete inputs.
use xmpp_proxy.Prelude.{
  ℕ, ◌≤◌, ◌⊎◌, Ordering, ◌≡◌, refl, sym, subst, true, false, Bytes, codes, bytes_eq, List, [], ◌∷◌,
  none, some, length, ok, ok-inj,
}
use xmpp_proxy.Srv.Types.{External, XmppConnection, XmppConnectionType, start_tls, direct_tls}
use xmpp_proxy.Srv.Sort.{Among, sort_by, insert_by, dedup, dedup_from, Among-sort_by, sort_by-Among}
use xmpp_proxy.Srv.Order.{
  compare_connection, compare_preference, compare_type, compare_web, compare_bytes, compare_bool,
  connection_eq, type_eq, sort_dedup,
}
use xmpp_proxy.Srv.Dedup.{InOrder, sort_dedup-InOrder, compare_connection_refl}
use xmpp_proxy.Srv.Dedup.Kept.{Same, AllSame, sort_dedup-Keeps}

pub sort_by-keeps :
    {A : Type 0} (cmp : A → A → Ordering) (xs ys : List A)
    → ok (sort_by cmp xs) ≡ ok ys
    → (a : A) → (Among a xs → Among a ys) × (Among a ys → Among a xs)
sort_by-keeps cmp xs ys h a = (
  (λ m. subst (λ l. Among a l) (ok-inj h) (Among-sort_by cmp a xs m)),
  (λ m. sort_by-Among cmp a xs (subst (λ l. Among a l) (sym (ok-inj h)) m)),
)

-- a library in which every text is its own address
abbrev pub plain_texts : External
plain_texts = record {
  Uri = Bytes;
  parse_uri = λ s. some s;
  uri_text = λ s. s;
  uri_eq = bytes_eq;
  host = λ s. some s;
  uri_port = λ s. none;
  Url = Bytes;
  parse_url = λ s. some s;
  url_text = λ s. s;
  url_eq = bytes_eq;
  url_port = λ s. none;
  ServerName = Bytes;
  server_name = λ s. some s;
  server_name_eq = bytes_eq;
  is_dns_name = λ s. true;
  sort = λ cmp xs. ok (sort_by cmp xs);
  sort_keeps = sort_by-keeps;
}

abbrev pub connection : XmppConnectionType plain_texts → ℕ → ℕ → ℕ → XmppConnection plain_texts
connection conn_type priority weight port = record {
  conn_type = conn_type;
  priority = priority;
  weight = weight;
  port = port;
  target = codes "example.org";
  secure = false;
  ips = [];
  ech = none;
}

abbrev found : List (XmppConnection plain_texts)
found =
    connection start_tls 5 1 5222
    ∷ connection direct_tls 5 1 443
    ∷ connection start_tls 5 1 5222
    ∷ []

abbrev kept : List (XmppConnection plain_texts)
kept = connection direct_tls 5 1 443 ∷ connection start_tls 5 1 5222 ∷ []

test_sorted : sort_dedup found ≡ ok kept
unfolding sort_dedup sort_by insert_by dedup dedup_from compare_connection compare_preference
    compare_type compare_web compare_bytes compare_bool connection_eq type_eq bytes_eq
test_sorted = refl

sort_dedup-InOrder_example : InOrder kept
sort_dedup-InOrder_example = sort_dedup-InOrder found kept test_sorted

sort_dedup-Keeps_example :
    ((c : XmppConnection plain_texts) → Among c kept → Among c found)
    × ((c : XmppConnection plain_texts)
        → Among c found
        → (b : XmppConnection plain_texts) × Among b kept × (Same c b ⊎ (c ≡ b)))
    × (AllSame found → length kept ≤ 1)
sort_dedup-Keeps_example = sort_dedup-Keeps found kept test_sorted

compare_connection_refl_example :
    compare_connection (connection start_tls 5 1 5222) (connection start_tls 5 1 5222) ≡ Ordering.lt
compare_connection_refl_example = compare_connection_refl (connection start_tls 5 1 5222)
