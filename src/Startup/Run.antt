-- ===== src/Startup/Run.antt =====
-- src/main.rs: `main`, up to the wait for its tasks. Logging is left out.
pub mod Serves
use xmpp_proxy.Prelude.{
  ℕ, Bool, true, false, not, ◌&&◌, if◌then◌else◌, Bytes, bytes_eq, codes, List, [], ◌∷◌, ◌++◌, map,
  Option, none, some, Outcome, ok, err, panic, ◌>>=◌, died,
}
use xmpp_proxy.Systemd.{Sockets, Environment, FileDescriptor, receive_descriptors_with_names}
use xmpp_proxy.Startup.Addresses.{
  Host, SocketAddrPath, Listener, UdpListener, bind, bind_udp, socket_addr, path,
}
use xmpp_proxy.Startup.Config.{Config, IncomingConfig, get_incoming_cfg}
use xmpp_proxy.Startup.Certs.{Files, KeyProvider, CertsKey, parse, certs_key}
use xmpp_proxy.Startup.Tls.{
  CipherSuite, ServerConfig, server_config, quic_server_config, OutgoingConfig,
}
use xmpp_proxy.Startup.Place.{Listens, place_all}

-- what `main` finds when it starts
pub record Machine (h : Host) : Type 0 where
  pub files : Files
  pub os : h.Os
  pub sockets : Sockets
  pub process_id : ℕ
  pub environment : Environment
  -- the suites of the provider, if it can be installed
  pub provider : Option (List CipherSuite)
  pub opens : ℕ → Bool
  -- of which sockets `quinn` makes an endpoint
  pub has_endpoint : UdpListener → Bool

module _ (h : Host) (k : KeyProvider) where
  pub data Task : Type 0 where
    tls_task : Listener → IncomingConfig h → ServerConfig k → Task
    quic_task : UdpListener → IncomingConfig h → ServerConfig k → Task
    outgoing_task : Listener → OutgoingConfig k → Task
    refresh_task : Bytes → Task

  abbrev onto : {L : Type 0} → L → Outcome (List L × h.Os) → Outcome (List L × h.Os)
  onto l r = r >>= λ p. ok (l ∷ p.0, p.1)

  -- the three loops that bind the addresses of the configuration
  unfoldable pub bind_all :
      {L : Type 0}
      → (SocketAddrPath h → h.Os → Outcome (L × h.Os))
      → List (SocketAddrPath h)
      → h.Os
      → Outcome (List L × h.Os)
  bind_all one [] os = ok ([], os)
  bind_all one (a ∷ addresses) os = one a os >>= λ p. onto p.0 (bind_all one addresses p.1)

  abbrev bind_config : Config h → h.Os → Outcome Listens
  bind_config c os = bind_all (bind h) c.incoming_listen os >>= λ i.
      bind_all (bind_udp h) c.quic_listen i.1 >>= λ q.
      bind_all (bind h) c.outgoing_listen q.1 >>= λ o.
      ok (record { incoming_listen = i.0; quic_listen = q.0; outgoing_listen = o.0 })

  -- `if let Ok(fds)`: what systemd did not pass is passed over
  abbrev place_passed : (ℕ → Bool) → Outcome (List FileDescriptor) → Listens → Outcome Listens
  place_passed opens (ok fds) ls = place_all opens fds ls
  place_passed opens (err e) ls = ok ls
  place_passed opens panic ls = panic

  unfoldable pub listens : Machine h → Config h → Outcome Listens
  listens m c = bind_config c m.os >>= λ ls.
      place_passed m.opens
        (receive_descriptors_with_names m.sockets m.process_id true m.environment).0 ls

  abbrev pub is_empty : {L : Type 0} → List L → Bool
  is_empty [] = true
  is_empty (l ∷ ls) = false

  unfoldable pub has_target : Config h → Bool
  has_target c = elim c.c2s_target [
    | some t ↦ true
    | none ↦ elim c.s2s_target [ some t ↦ true | none ↦ false ]
  ]

  unfoldable pub spawn_tls : Config h → CertsKey k → List Listener → Outcome (List Task)
  spawn_tls c key [] = ok []
  spawn_tls c key (l ∷ ls) =
      if has_target c
      then (server_config key >>= λ s. ok (map (λ x. tls_task x (get_incoming_cfg h c) s) (l ∷ ls)))
      else err died

  -- each endpoint is opened before its task
  unfoldable pub quic_tasks :
      (UdpListener → Bool)
      → IncomingConfig h
      → ServerConfig k
      → List UdpListener
      → Outcome (List Task)
  quic_tasks has_endpoint c s [] = ok []
  quic_tasks has_endpoint c s (l ∷ ls) =
      let more = quic_tasks has_endpoint c s ls in
      if has_endpoint l then (more >>= λ ts. ok (quic_task l c s ∷ ts)) else err died

  unfoldable pub spawn_quic :
      Machine h → Config h → CertsKey k → List UdpListener → Outcome (List Task)
  spawn_quic m c key [] = ok []
  spawn_quic m c key (l ∷ ls) =
      if has_target c
      then (server_config key >>= quic_server_config m.provider >>= λ s.
          quic_tasks m.has_endpoint (get_incoming_cfg h c) s.0 (l ∷ ls))
      else err died

  abbrev pub outgoing_cfg : Config h → CertsKey k → OutgoingConfig k
  outgoing_cfg c key = record { max_stanza_size_bytes = c.max_stanza_size_bytes; certs_key = key }

  abbrev spawn_outgoing : Config h → CertsKey k → List Listener → List Task
  spawn_outgoing c key ls = map (λ l. outgoing_task l (outgoing_cfg c key)) ls

  -- a task that waits for signals, where there is a key to replace
  abbrev pub spawn_refresh : Bytes → CertsKey k → List Task
  spawn_refresh cfg_path (ok c) = refresh_task cfg_path ∷ []
  spawn_refresh cfg_path (err e) = []
  spawn_refresh cfg_path panic = []

  abbrev nothing_to_do : List Task → Outcome (List Task)
  nothing_to_do [] = err died
  nothing_to_do (t ∷ ts) = ok (t ∷ ts)

  unfoldable pub spawn_all :
      Machine h → Bytes → Config h → CertsKey k → Listens → Outcome (List Task)
  spawn_all m cfg_path c key ls = spawn_tls c key ls.incoming_listen >>= λ tls.
      spawn_quic m c key ls.quic_listen >>= λ quic.
      nothing_to_do (tls ++ (quic ++ spawn_outgoing c key ls.outgoing_listen)) >>= λ handles.
      ok (handles ++ spawn_refresh cfg_path key)

  unfoldable pub start : Machine h → Bytes → Outcome (List Task)
  start m cfg_path = parse h k m.files cfg_path >>= λ c.
      listens m c >>= spawn_all m cfg_path c (certs_key h k m.files c)

  -- how `main` goes on: it has exited with a code, or waits for its tasks
  pub data Main : Type 0 where
    exited : ℕ → Main
    waits_for : List Task → Main

  abbrev outcome_of_start : Outcome (List Task) → Main
  outcome_of_start (ok ts) = waits_for ts
  outcome_of_start (err e) = exited 1
  outcome_of_start panic = exited 101

  abbrev cfg_path_of : Option Bytes → Bytes
  cfg_path_of none = codes "/etc/xmpp-proxy/xmpp-proxy.toml"
  cfg_path_of (some p) = p

  abbrev installed : Option (List CipherSuite) → Outcome (List Task) → Outcome (List Task)
  installed none r = err died
  installed (some suites) r = r

  abbrev is_version : Option Bytes → Bool
  is_version none = false
  is_version (some arg) = bytes_eq arg (codes "-v")

  -- `arg` is the first argument
  unfoldable pub main : Machine h → Option Bytes → Main
  main m arg =
      if is_version arg
      then exited 0
      else outcome_of_start (installed m.provider (start m (cfg_path_of arg)))
