-- ===== src/Startup/Place/Named.antt =====
-- Where each socket that systemd passes goes, by its kind and its name.
use xmpp_proxy.Prelude.{
  ℕ, ◌≡◌, Bool, true, false, ◌&&◌, ◌||◌, if◌then◌else◌, Bytes, List, [], ◌∷◌, ◌++◌, Option, none,
  some, Outcome, ok, err, died,
}
use xmpp_proxy.Systemd.{
  FileDescriptor, SystemdListener, tcp, udp, unix_listener, unix_datagram, listener,
}
use xmpp_proxy.Startup.Addresses.{Listener, tcp_listener, UdpListener, udp_socket}
use xmpp_proxy.Startup.Addresses
use xmpp_proxy.Startup.Place.{Listens, names_in, names_out}

abbrev pub has_name : (Bytes → Bool) → Option Bytes → Bool
has_name test none = false
has_name test (some name) = test name

-- the listener of a stream socket, and that of a datagram socket
abbrev pub stream_of : SystemdListener → List Listener
stream_of (tcp fd) = tcp_listener fd ∷ []
stream_of (unix_listener fd) = Addresses.unix_listener fd ∷ []
stream_of (udp fd) = []
stream_of (unix_datagram fd) = []

abbrev pub datagram_of : SystemdListener → List UdpListener
datagram_of (tcp fd) = []
datagram_of (unix_listener fd) = []
datagram_of (udp fd) = udp_socket fd ∷ []
datagram_of (unix_datagram fd) = Addresses.unix_datagram fd ∷ []

abbrev pub when {ℓ} : {A : Type ℓ} → Bool → List A → List A
when b xs = if b then xs else []

-- what one socket adds to the three lists
abbrev pub incoming_of : SystemdListener → Option Bytes → List Listener
incoming_of l name = when (has_name names_in name) (stream_of l)

abbrev pub outgoing_of : SystemdListener → Option Bytes → List Listener
outgoing_of l name =
    if has_name names_in name then [] else when (has_name names_out name) (stream_of l)

abbrev with_socket : SystemdListener → Option Bytes → Listens → Listens
with_socket l name ls = record {
  incoming_listen = ls.incoming_listen ++ incoming_of l name;
  quic_listen = ls.quic_listen ++ datagram_of l;
  outgoing_listen = ls.outgoing_listen ++ outgoing_of l name;
}

-- what they all add, in their order
abbrev pub all_of {ℓ} :
    {A : Type ℓ} → (SystemdListener → Option Bytes → List A) → List FileDescriptor → List A
all_of f [] = []
all_of f (fd ∷ fds) = f (listener fd) fd.name ++ all_of f fds

abbrev pub with_sockets : List FileDescriptor → Listens → Listens
with_sockets fds ls = record {
  incoming_listen = ls.incoming_listen ++ all_of incoming_of fds;
  quic_listen = ls.quic_listen ++ all_of (λ l name. datagram_of l) fds;
  outgoing_listen = ls.outgoing_listen ++ all_of outgoing_of fds;
}

abbrev is_named : Option Bytes → Bool
is_named name = has_name names_in name || has_name names_out name

abbrev stream_added : Listener → Option Bytes → Listens → Listens
stream_added l name ls = record {
  incoming_listen = ls.incoming_listen ++ when (has_name names_in name) (l ∷ []);
  quic_listen = ls.quic_listen ++ [];
  outgoing_listen =
      ls.outgoing_listen
      ++ (if has_name names_in name then [] else when (has_name names_out name) (l ∷ []));
}

module _ (opens : ℕ → Bool) where
  -- A stream socket is of use if a listener can be made of it and it has a name for one of the two
  -- ends; a datagram socket always is.
  abbrev pub is_useful : SystemdListener → Option Bytes → Bool
  is_useful (tcp fd) name = opens fd && is_named name
  is_useful (unix_listener fd) name = opens fd && is_named name
  is_useful (udp fd) name = true
  is_useful (unix_datagram fd) name = true

  abbrev pub AllUseful : List FileDescriptor → Type 0
  AllUseful [] = Unit
  AllUseful (fd ∷ fds) = (is_useful (listener fd) fd.name ≡ true) × AllUseful fds

  abbrev if_useful : SystemdListener → Option Bytes → Listens → Outcome Listens
  if_useful l name ls = if is_useful l name then ok (with_socket l name ls) else err died
