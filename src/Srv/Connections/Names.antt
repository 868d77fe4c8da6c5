-- ===== src/Srv/Connections/Names.antt =====
-- The names for which the certificate of a server is accepted.
use xmpp_proxy.Prelude.{
  ◌≡◌, ◌⊎◌, inl, inr, refl, sym, ap, subst, Bool, true, if◌then◌else◌, Bool-cases, Bytes, List, [],
  ◌∷◌, ◌++◌, Option, none, some, ok, ok-of_>>=, ok-inj,
}
use xmpp_proxy.Srv.Types.{External, XmppConnection}
use xmpp_proxy.Srv.Sort.{Among, first, later, Among-snoc, contains}
use xmpp_proxy.Srv.Order.{sort_dedup}
use xmpp_proxy.Srv.Links.{Found}
use xmpp_proxy.Srv.Lookup.{Network, collect_host_meta}
use xmpp_proxy.Srv.Connections.{
  named, queries, with_records, push_name, push_targets, Connections, with_verifier, none_found,
  get_xmpp_connections,
}

module _ (x : External) (net : Network) where
  -- the target of a connection that is secure
  pub record IsTarget (srvs : List (XmppConnection x)) (name : x.ServerName) : Type 0 where
    pub srv : XmppConnection x
    pub listed : Among srv srvs
    pub is_secure : srv.secure ≡ true
    pub is_target : x.server_name srv.target ≡ some name

  IsTarget-later :
      {srvs : List (XmppConnection x)} {name : x.ServerName} (s : XmppConnection x)
      → IsTarget srvs name
      → IsTarget (s ∷ srvs) name
  IsTarget-later s t = record {
    srv = t.srv;
    listed = later t.listed;
    is_secure = t.is_secure;
    is_target = t.is_target;
  }

  push_name-Among :
      (o : Option x.ServerName) (names : List x.ServerName) {name : x.ServerName}
      → Among name (push_name x net o names)
      → Among name names ⊎ (o ≡ some name)
  push_name-Among none names m = inl m
  push_name-Among (some new) names {name} m =
      elim (Bool-cases (contains x.server_name_eq names new)) [
        | inl c ↦ inl (subst (λ b. Among name (if b then names else names ++ new ∷ [])) c m)
        | inr c ↦
            elim (Among-snoc names
              (subst (λ b. Among name (if b then names else names ++ new ∷ [])) c m)) [
                | inl n ↦ inl n
                | inr e ↦ inr (ap (λ n. some n) e)
              ]
      ]

  push_targets-Among :
      (srvs : List (XmppConnection x)) (names : List x.ServerName) {name : x.ServerName}
      → Among name (push_targets x net srvs names)
      → Among name names ⊎ IsTarget srvs name
  unfolding push_targets
  push_targets-Among [] names m = inl m
  push_targets-Among (s ∷ srvs) names {name} m =
      elim (push_targets-Among srvs
        (if s.secure then push_name x net (x.server_name s.target) names else names) m) [
          | inr t ↦ inr (IsTarget-later s t)
          | inl n ↦ elim (Bool-cases s.secure) [
            | inr f ↦ inl (
                subst
                  (λ b.
                    Among name
                      (if b then push_name x net (x.server_name s.target) names else names))
                  f n)
            | inl e ↦
                elim (push_name-Among (x.server_name s.target) names (
                  subst
                    (λ b.
                      Among name
                        (if b then push_name x net (x.server_name s.target) names else names))
                    e n)) [
                      | inl k ↦ inl k
                      | inr t ↦
                          inr (record { srv = s; listed = first; is_secure = e; is_target = t })
                    ]
          ]
        ]

  named-ok :
      (o : Option x.ServerName) (name : x.ServerName) → ok name ≡ named x net o → o ≡ some name
  named-ok none name h = cc
  named-ok (some n) name h = ap (λ k. some k) (sym (ok-inj h))

  -- connections to try, and a verifier whose names are the domain's and secure targets'
  pub record IsBounded (domain : Bytes) (c : Connections x net) : Type 0 where
    pub srv : XmppConnection x
    pub some_connection : Among srv c.0
    pub domain_name : x.ServerName
    pub is_domain : x.server_name domain ≡ some domain_name
    pub bounded :
        (name : x.ServerName) → Among name c.1.names → (domain_name ≡ name) ⊎ IsTarget c.0 name

  with_verifier-IsBounded :
      (domain : Bytes) (is_c2s : Bool) (name : x.ServerName) (found : Found x)
      (ret : List (XmppConnection x))
      → x.server_name domain ≡ some name
      → IsBounded domain (with_verifier x net domain is_c2s name found ret)
  unfolding with_verifier push_targets
  with_verifier-IsBounded domain is_c2s name found [] e = record {
    srv = _;
    some_connection = first;
    domain_name = name;
    is_domain = e;
    bounded = λ n m. only m;
  }
    where
      only :
          {n : x.ServerName} {c : List (XmppConnection x)}
          → Among n (name ∷ [])
          → (name ≡ n) ⊎ IsTarget c n
      only first = inl refl
      only (later m) = elim m [ ]
  with_verifier-IsBounded domain is_c2s name found (s ∷ srvs) e = record {
    srv = s;
    some_connection = first;
    domain_name = name;
    is_domain = e;
    bounded = λ n m. elim (push_targets-Among (s ∷ srvs) (name ∷ []) m) [
      | inl k ↦ inl (only k)
      | inr t ↦ inr t
    ];
  }
    where
      only : {n : x.ServerName} → Among n (name ∷ []) → name ≡ n
      only first = refl
      only (later m) = elim m [ ]

  -- Where connections are found for a domain, there is at least one, and each name that the verifier
  -- accepts is that of the domain or of the target of a connection marked secure; the targets of
  -- DNS records, which are not, add no name.
  pub get_xmpp_connections-IsBounded :
      (domain : Bytes) (is_c2s : Bool) (c : Connections x net)
      → get_xmpp_connections x net domain is_c2s ≡ ok c
      → IsBounded domain c
  unfolding get_xmpp_connections
  get_xmpp_connections-IsBounded domain is_c2s c h =
      let (name, h₁, n) = ok-of_>>= _ (named x net (x.server_name domain)) (sym h) in
      let (q, h₂, _) = ok-of_>>= _ (queries x net domain is_c2s) h₁ in
      let r = collect_host_meta x net domain is_c2s (none_found x net) in
      let (ret, h₃, _) = ok-of_>>= _ (with_records x net r.0 q is_c2s r.1.ret) h₂ in
      let (srvs, h₄, _) = ok-of_>>= _ (sort_dedup ret) h₃ in
      subst (IsBounded domain) (sym (ok-inj h₄)) (
        with_verifier-IsBounded domain is_c2s name r.1 srvs
          (named-ok (x.server_name domain) name (sym n)))
