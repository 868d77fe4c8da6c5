-- ===== src/Startup/Place.antt =====
-- src/main.rs: what each socket that systemd passes is for.
pub mod Named
use xmpp_proxy.Prelude.{
  ℕ, ◌+◌, ◌&&◌, leb, Bool, true, false, if◌then◌else◌, Bytes, codes, starts_with, List, [], ◌∷◌,
  ◌++◌, map, Option, none, some, Outcome, ok, err, ◌>>=◌, died,
}
use xmpp_proxy.Systemd.{
  FileDescriptor, SystemdListener, tcp, udp, unix_listener, unix_datagram, listener,
}
use xmpp_proxy.Startup.Addresses.{Listener, tcp_listener, UdpListener, udp_socket}
use xmpp_proxy.Startup.Addresses

-- the listeners by what they are for
pub record Listens : Type 0 where
  pub incoming_listen : List Listener
  pub quic_listen : List UdpListener
  pub outgoing_listen : List Listener

-- `to_ascii_lowercase`
abbrev lower : ℕ → ℕ
lower c = if leb 65 c && leb c 90 then c + 32 else c

unfoldable pub names_in : Bytes → Bool
names_in name = starts_with (map lower name) (codes "in")

unfoldable pub names_out : Bytes → Bool
names_out name = starts_with (map lower name) (codes "out")

unfoldable pub by_name : Option Bytes → Listener → Listens → Outcome Listens
by_name none l ls = err died
by_name (some name) l ls =
    if names_in name
    then ok (record ls { incoming_listen = ls.incoming_listen ++ l ∷ [] })
    else if names_out name
    then ok (record ls { outgoing_listen = ls.outgoing_listen ++ l ∷ [] })
    else err died

-- `opens` says of which descriptors `from_std` makes a listener
module _ (opens : ℕ → Bool) where
  abbrev opened : ℕ → Outcome Listens → Outcome Listens
  opened fd ls = if opens fd then ls else err died

  abbrev pub place : SystemdListener → Option Bytes → Listens → Outcome Listens
  place (tcp fd) name ls = opened fd (by_name name (tcp_listener fd) ls)
  place (unix_listener fd) name ls = opened fd (by_name name (Addresses.unix_listener fd) ls)
  place (udp fd) name ls = ok (record ls { quic_listen = ls.quic_listen ++ udp_socket fd ∷ [] })
  place (unix_datagram fd) name ls =
      ok (record ls { quic_listen = ls.quic_listen ++ Addresses.unix_datagram fd ∷ [] })

  unfoldable pub place_all : List FileDescriptor → Listens → Outcome Listens
  place_all [] ls = ok ls
  place_all (fd ∷ fds) ls = place (listener fd) fd.name ls >>= λ placed. place_all fds placed
