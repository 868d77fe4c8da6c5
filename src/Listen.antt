-- ===== src/Listen.antt =====
-- The loops that accept connections: `spawn_tls_listener` of src/tls/incoming.rs,
-- `spawn_outgoing_listener` of src/outgoing.rs and `internal_spawn_quic_listener` of
-- src/quic/incoming.rs, with the listeners of src/common/stream_listener.rs. What the calls of
-- `accept` give is a list; behind its end no further one has returned. A connection is a task of its
-- own, for which the loop does not wait: here it stands with what it comes to.
pub mod Tasks
use xmpp_proxy.Prelude.{
  ℕ, Bool, true, false, Bytes, codes, List, [], ◌∷◌, map, Option, none, some, Outcome, ok, err,
  panic, ◌>>=◌, if◌then◌else◌,
}
use xmpp_proxy.Handle.{
  Stream, WebSocket, QuicConnection, Handshakes, Forwarded, handle_tls_connection,
  handle_quic_connection,
}
use xmpp_proxy.Incoming.{Addresses, IncomingConfig}
use xmpp_proxy.Peek.{BufRead}
use xmpp_proxy.Outgoing.Handles.{Linked, handle_outgoing_connection}
use xmpp_proxy.Srv.Types.{External}
use xmpp_proxy.Srv.Posh.{Digests}
use xmpp_proxy.Srv.Lookup.{Network}
use xmpp_proxy.Srv.Connect.{Transports}
use xmpp_proxy.Verify.{Webpki, XmppServerCertVerifier}

-- an address, with its parts as they are printed
pub record SocketAddr : Type 0 where
  pub is_ipv4 : Bool
  pub ip : Bytes
  pub port : Bytes

abbrev pub addresses_of : SocketAddr → SocketAddr → Addresses
addresses_of client local = record {
  is_ipv4 = client.is_ipv4;
  client_ip = client.ip;
  local_ip = local.ip;
  client_port = client.port;
  local_port = local.port;
}

-- what stands for the addresses of a UNIX socket
abbrev pub unix_addr : SocketAddr
unix_addr = record { is_ipv4 = true; ip = codes "127.0.0.1"; port = codes "0" }

pub record Accepted (S : Type 0) : Type 0 where
  pub stream : S
  pub client_addr : SocketAddr

-- `accept` of a UNIX listener, from that of the runtime
abbrev pub accept_unix : {S : Type 0} → Outcome S → Outcome (Accepted S)
accept_unix o = o >>= λ s. ok (record { stream = s; client_addr = unix_addr })

-- the tasks of a loop, and what the loop has come to if it has ended
pub record Listened (A T : Type 0) : Type 0 where
  pub spawned : List (A × T)
  pub ended : Option (Outcome {0} Unit)

-- `loop { let .. = listener.accept().await?; tokio::spawn(..) }`
unfoldable pub accept_loop : {A T : Type 0} → (A → T) → List (Outcome A) → Listened A T
accept_loop task [] = record { spawned = []; ended = none }
accept_loop task (ok a ∷ accepts) =
    let more = accept_loop task accepts in
    record { spawned = (a, task a) ∷ more.spawned; ended = more.ended }
accept_loop task (err e ∷ accepts) = record { spawned = []; ended = some (err e) }
accept_loop task (panic ∷ accepts) = record { spawned = []; ended = some panic }

module _ {x : External} (net : Network) (w : Webpki x) (d : Digests) (now : ℕ) {r : BufRead}
    (hs : Handshakes r) (size : ℕ) (config : IncomingConfig) where
  abbrev pub tls_task : SocketAddr → Accepted Stream → Outcome (Forwarded net w d now)
  tls_task local a =
      handle_tls_connection net w d now hs size config (addresses_of a.client_addr local)
        a.stream.sink a.stream.src a.stream.ending

  unfoldable pub spawn_tls_listener :
      Outcome SocketAddr
      → List (Outcome (Accepted Stream))
      → Outcome (Listened (Accepted Stream) (Outcome (Forwarded net w d now)))
  spawn_tls_listener local_addr accepts =
      local_addr >>= λ local. ok (accept_loop (tls_task local) accepts)

  -- a handshake that fails is the end of its task
  abbrev pub quic_task :
      SocketAddr → Outcome (Accepted QuicConnection) → List (Outcome (Forwarded net w d now))
  quic_task local (ok c) =
      handle_quic_connection net w d now hs size config (addresses_of c.client_addr local) c.stream
  quic_task local (err e) = []
  quic_task local panic = []

  -- `connecting` are the connections that come in, with their handshakes; the loop ends where the
  -- endpoint is closed
  unfoldable pub internal_spawn_quic_listener :
      SocketAddr
      → List (Outcome (Accepted QuicConnection))
      → Bool
      → Listened (Outcome (Accepted QuicConnection)) (List (Outcome (Forwarded net w d now)))
  internal_spawn_quic_listener local connecting closed = record {
    spawned = map (λ c. (c, quic_task local c)) connecting;
    ended = if closed then some (ok tt) else none;
  }

module _ {x : External} (net : Network) (dial_with : Bool → XmppServerCertVerifier x → Transports x)
    (accept_websocket : ℕ → Stream → Outcome WebSocket) (size : ℕ) where
  unfoldable pub spawn_outgoing_listener :
      List (Outcome (Accepted Stream)) → Listened (Accepted Stream) (Outcome (Linked net dial_with))
  spawn_outgoing_listener accepts =
      accept_loop (λ a. handle_outgoing_connection net dial_with accept_websocket size a.stream)
        accepts
