-- ===== src/Tests/Startups.antt =====
-- src/main.rs, src/context.rs and the reload of the key at concrete inputs.
use xmpp_proxy.Prelude.{
  ℕ, suc, ◌≡◌, refl, true, false, Bytes, codes, starts_with, List, [], ◌∷◌, none, some, ok, err,
  io_error,
}
use xmpp_proxy.Slice.{contains}
use xmpp_proxy.Systemd.{FileDescriptor, listener}
use xmpp_proxy.Startup.Addresses.{Host, deserialize, tcp_listener, udp_socket, SocketAddrPath, path}
use xmpp_proxy.Startup.Addresses
use xmpp_proxy.Startup.Config.{Table, from_table, each_address, Config, get_incoming_cfg}
use xmpp_proxy.Startup.Certs.{
  Files, KeyProvider, CertifiedKey, read_certified_key, first_key, every_cert, parse, on_hangup,
  spawn_refresh_task,
}
use xmpp_proxy.Startup.Certs.Reload.{IsLatest, spawn_refresh_task-IsLatest}
use xmpp_proxy.Startup.Place.{Listens, place_all, by_name, names_in, names_out}
use xmpp_proxy.Startup.Run.{Machine, Task, tls_task, quic_task, refresh_task}
use xmpp_proxy.Startup.Run.Serves.{over_tls, over_quic}

-- an address is its text, and a descriptor is the number of binds before it
abbrev host : Host
host = record {
  SocketAddr = Bytes;
  parse_addr = λ s. some s;
  print_addr = λ s. s;
  Os = ℕ;
  bind_tcp = λ a n. ok (n, suc n);
  bind_unix = λ p n. ok (n, suc n);
  bind_udp_socket = λ a n. ok (n, suc n);
  bind_unix_datagram = λ p n. ok (n, suc n);
}

abbrev keys : KeyProvider
keys = record { SigningKey = Bytes; load_private_key = λ pk. ok pk }

abbrev table : Table
table = record {
  tls_key = some (codes "k");
  tls_cert = some (codes "c");
  incoming_listen = some (codes "a:1" ∷ []);
  quic_listen = some (codes "a:2" ∷ []);
  outgoing_listen = none;
  max_stanza_size_bytes = none;
  s2s_target = none;
  c2s_target = some (codes "/run/c2s");
  proxy = none;
}

-- files with a key, and files without one
abbrev with_key : Bytes → Files
with_key key = record {
  read_table = λ cfg_path. ok table;
  pem_keys = λ file. ok (err io_error ∷ ok key ∷ []);
  pem_certs = λ file. ok (ok (codes "cert") ∷ []);
}

abbrev without_key : Files
without_key = record {
  read_table = λ cfg_path. ok table;
  pem_keys = λ file. err io_error;
  pem_certs = λ file. err io_error;
}

abbrev certified : Bytes → CertifiedKey keys
certified key = record { certs = codes "cert" ∷ []; key = key }

spawn_refresh_task-IsLatest_example :
    (new : CertifiedKey keys) × (spawn_refresh_task host keys
        (codes "x")
        (ok (certified (codes "old")))
        (with_key (codes "new") ∷ without_key ∷ [])
      ≡ ok new)
    × IsLatest host keys
        (codes "x")
        (certified (codes "old"))
        (with_key (codes "new") ∷ without_key ∷ [])
        new
spawn_refresh_task-IsLatest_example =
    spawn_refresh_task-IsLatest host keys (codes "x") (certified (codes "old"))
      (with_key (codes "new") ∷ without_key ∷ [])

test_reload :
    spawn_refresh_task host keys
      (codes "x")
      (ok (certified (codes "old")))
      (with_key (codes "new") ∷ without_key ∷ [])
    ≡ ok (certified (codes "new"))
unfolding spawn_refresh_task on_hangup parse from_table each_address deserialize contains
    read_certified_key first_key every_cert
test_reload = refl

abbrev machine : Machine host
machine = record {
  files = with_key (codes "key");
  os = 7;
  sockets = record { accepts = λ fd. none; sock_type = λ fd. none; address_family = λ fd. none };
  process_id = 1;
  environment = record { listen_pid = none; listen_fds = none; listen_fdnames = none };
  provider = some (record { is_aes_128_gcm_sha256 = true; tls13 = some (some 5) } ∷ []);
  opens = λ fd. true;
  has_endpoint = λ l. true;
}

abbrev config : Config host
config = record {
  tls_key = codes "k";
  tls_cert = codes "c";
  incoming_listen = Addresses.socket_addr (codes "a:1") ∷ [];
  quic_listen = Addresses.socket_addr (codes "a:2") ∷ [];
  outgoing_listen = [];
  max_stanza_size_bytes = 262144;
  s2s_target = none;
  c2s_target = some (path (codes "/run/c2s"));
  proxy = false;
}

abbrev tasks : List (Task host keys)
tasks =
    tls_task (tcp_listener 7) (get_incoming_cfg host config)
      (over_tls host keys (ok (certified (codes "key"))))
    ∷ quic_task (udp_socket 8) (get_incoming_cfg host config)
        (over_quic host keys (ok (certified (codes "key"))))
    ∷ refresh_task (codes "x")
    ∷ []

abbrev passed : List FileDescriptor
passed =
    record { raw_fd = 3; tcp_not_udp = true; inet_not_unix = true; name = some (codes "Incoming") }
    ∷ record { raw_fd = 4; tcp_not_udp = true; inet_not_unix = false; name = some (codes "out") }
    ∷ record { raw_fd = 5; tcp_not_udp = false; inet_not_unix = true; name = none }
    ∷ []

abbrev none_bound : Listens
none_bound = record { incoming_listen = []; quic_listen = []; outgoing_listen = [] }

abbrev placed : Listens
placed = record {
  incoming_listen = tcp_listener 3 ∷ [];
  quic_listen = udp_socket 5 ∷ [];
  outgoing_listen = Addresses.unix_listener 4 ∷ [];
}

test_placed : place_all (λ fd. true) passed none_bound ≡ ok placed
unfolding place_all listener by_name names_in names_out starts_with
test_placed = refl
