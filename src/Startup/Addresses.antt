-- ===== src/Startup/Addresses.antt =====
-- src/common/mod.rs: `SocketAddrPath` and the listeners that are bound at one. The socket addresses
-- of the standard library, as they are parsed and printed, and the calls that bind are parameters.
use xmpp_proxy.Prelude.{
  ℕ, ◌≡◌, refl, true, false, if◌then◌else◌, Bytes, Option, none, some, Outcome, ok, err, ◌>>=◌,
  invalid_name,
}
use xmpp_proxy.Slice.{contains}

-- `SocketAddr`, and the operating system, whose state each `bind` may change
pub record Host : Type 1 where
  pub SocketAddr : Type 0
  pub parse_addr : Bytes → Option SocketAddr
  pub print_addr : SocketAddr → Bytes
  pub Os : Type 0
  pub bind_tcp : SocketAddr → Os → Outcome (ℕ × Os)
  pub bind_unix : Bytes → Os → Outcome (ℕ × Os)
  pub bind_udp_socket : SocketAddr → Os → Outcome (ℕ × Os)
  pub bind_unix_datagram : Bytes → Os → Outcome (ℕ × Os)

pub data SocketAddrPath (h : Host) : Type 0 where
  socket_addr : h.SocketAddr → SocketAddrPath h
  path : Bytes → SocketAddrPath h

-- a listener by its descriptor
pub data Listener : Type 0 where
  tcp_listener unix_listener : ℕ → Listener

pub data UdpListener : Type 0 where
  udp_socket unix_datagram : ℕ → UdpListener

abbrev bound : {L : Type 0} (h : Host) → (ℕ → L) → Outcome (ℕ × h.Os) → Outcome (L × h.Os)
bound h listener r = r >>= λ p. ok (listener p.0, p.1)

module _ (h : Host) where
  unfoldable pub bind : SocketAddrPath h → h.Os → Outcome (Listener × h.Os)
  bind (socket_addr sa) os = bound h tcp_listener (h.bind_tcp sa os)
  bind (path p) os = bound h unix_listener (h.bind_unix p os)

  unfoldable pub bind_udp : SocketAddrPath h → h.Os → Outcome (UdpListener × h.Os)
  bind_udp (socket_addr sa) os = bound h udp_socket (h.bind_udp_socket sa os)
  bind_udp (path p) os = bound h unix_datagram (h.bind_unix_datagram p os)

  -- `Display`
  unfoldable pub to_text : SocketAddrPath h → Bytes
  to_text (socket_addr sa) = h.print_addr sa
  to_text (path p) = p

  abbrev parsed : Option h.SocketAddr → Outcome (SocketAddrPath h)
  parsed none = err invalid_name
  parsed (some sa) = ok (socket_addr sa)

  -- `Deserialize`
  unfoldable pub deserialize : Bytes → Outcome (SocketAddrPath h)
  deserialize str = if contains str b'/' then ok (path str) else parsed (h.parse_addr str)

  -- Whether the text of an address is read back as the address: a path has a slash, and the text of
  -- a socket address has none and is parsed to it.
  abbrev pub IsPrinted : SocketAddrPath h → Type 0
  IsPrinted (socket_addr sa) =
      (contains (h.print_addr sa) b'/' ≡ false) × (h.parse_addr (h.print_addr sa) ≡ some sa)
  IsPrinted (path p) = contains p b'/' ≡ true

  pub deserialize-to_text : (p : SocketAddrPath h) → IsPrinted p → deserialize (to_text p) ≡ ok p
  unfolding deserialize to_text
  deserialize-to_text (socket_addr sa) (no_slash, back) = rw (no_slash, back) refl
  deserialize-to_text (path p) slash = rw slash refl
