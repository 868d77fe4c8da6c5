-- ===== src/Startup/Run/Serves.antt =====
-- What runs when `main` waits: a task for each listener, and nothing that could not serve.
use xmpp_proxy.Prelude.{◌≡◌, ◌⊎◌, Bool, true, false, ◌&&◌, Bytes, List, [], ◌∷◌, ◌++◌, map, ok}
use xmpp_proxy.Startup.Addresses.{Host, Listener, UdpListener}
use xmpp_proxy.Startup.Config.{Config, get_incoming_cfg}
use xmpp_proxy.Startup.Certs.{KeyProvider, CertifiedKey, CertsKey, parse, certs_key}
use xmpp_proxy.Startup.Tls.{ServerConfig, alpn_xmpp_client, alpn_xmpp_server, alpn_webtransport}
use xmpp_proxy.Startup.Place.{Listens}
use xmpp_proxy.Startup.Run.{
  Machine, Task, tls_task, quic_task, outgoing_task, listens, is_empty, has_target, outgoing_cfg,
  spawn_refresh,
}

module _ (h : Host) (k : KeyProvider) where
  -- what a peer is shown over TLS, and over QUIC
  abbrev pub over_tls : CertsKey k → ServerConfig k
  over_tls key = record {
    cert_resolver = key;
    alpn_protocols = alpn_xmpp_client ∷ alpn_xmpp_server ∷ [];
  }

  abbrev pub over_quic : CertsKey k → ServerConfig k
  over_quic key = record {
    cert_resolver = key;
    alpn_protocols = alpn_xmpp_client ∷ alpn_xmpp_server ∷ alpn_webtransport ∷ [];
  }

  -- a task for each listener, in order
  abbrev pub tasks_of : Config h → CertsKey k → Listens → List (Task h k)
  tasks_of c key ls =
      map (λ l. tls_task l (get_incoming_cfg h c) (over_tls key)) ls.incoming_listen
      ++ (map (λ l. quic_task l (get_incoming_cfg h c) (over_quic key)) ls.quic_listen
          ++ map (λ l. outgoing_task l (outgoing_cfg h k c key)) ls.outgoing_listen)

  -- what incoming connections need: somewhere to go, and a key to show
  pub record IsReady (c : Config h) (key : CertsKey k) : Type 0 where
    pub target : has_target h k c ≡ true
    pub shown : CertifiedKey k
    pub has_key : key ≡ ok shown

  abbrev pub is_idle : Listens → Bool
  is_idle ls =
      is_empty h k ls.incoming_listen
      && (is_empty h k ls.quic_listen && is_empty h k ls.outgoing_listen)

  pub record IsServing (m : Machine h) (cfg_path : Bytes) (ts : List (Task h k)) : Type 0 where
    pub config : Config h
    pub is_parsed : parse h k m.files cfg_path ≡ ok config
    pub lists : Listens
    pub are_bound : listens h k m config ≡ ok lists
    pub not_idle : is_idle lists ≡ false
    pub tls_ready :
        (is_empty h k lists.incoming_listen ≡ true) ⊎ IsReady config (certs_key h k m.files config)
    pub quic_ready :
        (is_empty h k lists.quic_listen ≡ true) ⊎ IsReady config (certs_key h k m.files config)
    pub serve_all :
        ts
        ≡ tasks_of config (certs_key h k m.files config) lists
          ++ spawn_refresh h k cfg_path (certs_key h k m.files config)

  abbrev TlsServed : Config h → CertsKey k → List Listener → List (Task h k) → Type 0
  TlsServed c key ls ts =
      (ts ≡ map (λ l. tls_task l (get_incoming_cfg h c) (over_tls key)) ls)
      × ((is_empty h k ls ≡ true) ⊎ IsReady c key)

  abbrev QuicServed : Config h → CertsKey k → List UdpListener → List (Task h k) → Type 0
  QuicServed c key ls ts =
      (ts ≡ map (λ l. quic_task l (get_incoming_cfg h c) (over_quic key)) ls)
      × ((is_empty h k ls ≡ true) ⊎ IsReady c key)
