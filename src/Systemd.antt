-- ===== src/Systemd.antt =====
-- src/systemd.rs: the sockets that systemd passes. The environment and the calls on a socket are
-- parameters.
pub mod Descriptors
use xmpp_proxy.Prelude.{
  ℕ, zero, suc, ◌+◌, ◌*◌, ◌-◌, Bool, true, false, not, ◌&&◌, leb, ltb, ◌==◌, if◌then◌else◌, Bytes,
  codes, starts_with, List, [], ◌∷◌, ◌++◌, map, Option, none, some, Outcome, ok, err, panic, ◌>>=◌,
  missing_variable, bad_variable, pid_mismatch, overlarge_fd, died,
}

pub data SockType : Type 0 where
  stream datagram other_type : SockType

pub data AddressFamily : Type 0 where
  inet inet6 unix other_family : AddressFamily

-- `getsockopt` and `getsockname` of a descriptor
pub record Sockets : Type 0 where
  pub accepts : ℕ → Option Bool
  pub sock_type : ℕ → Option SockType
  pub address_family : ℕ → Option AddressFamily

pub record FileDescriptor : Type 0 where
  pub raw_fd : ℕ
  pub tcp_not_udp : Bool
  pub inet_not_unix : Bool
  pub name : Option Bytes

pub data SystemdListener : Type 0 where
  tcp udp unix_listener unix_datagram : ℕ → SystemdListener

abbrev by_kind : Bool → Bool → ℕ → SystemdListener
by_kind true true raw_fd = tcp raw_fd
by_kind false true raw_fd = udp raw_fd
by_kind true false raw_fd = unix_listener raw_fd
by_kind false false raw_fd = unix_datagram raw_fd

-- `FileDescriptor::listener`
unfoldable pub listener : FileDescriptor → SystemdListener
listener fd = by_kind fd.tcp_not_udp fd.inet_not_unix fd.raw_fd

-- a `continue` is `none`
abbrev pub is_stream : Option SockType → Option Bool
is_stream (some stream) = some true
is_stream (some datagram) = some false
is_stream (some other_type) = none
is_stream none = none

abbrev pub is_inet : Option AddressFamily → Option Bool
is_inet (some inet) = some true
is_inet (some inet6) = some true
is_inet (some unix) = some false
is_inet (some other_family) = none
is_inet none = none

-- `names.next()`
abbrev pub next_name : List Bytes → Option Bytes
next_name [] = none
next_name (n ∷ ns) = some n

abbrev pub other_names : List Bytes → List Bytes
other_names [] = []
other_names (n ∷ ns) = ns

abbrev listening : Option Bool → Bool
listening (some b) = b
listening none = false

abbrev kinds : Option Bool → Option Bool → ℕ → Option Bytes → Option FileDescriptor
kinds (some t) (some i) raw_fd name =
    some (record { raw_fd = raw_fd; tcp_not_udp = t; inet_not_unix = i; name = name })
kinds (some t) none raw_fd name = none
kinds none i raw_fd name = none

abbrev push_front : Option FileDescriptor → List FileDescriptor → List FileDescriptor
push_front none fds = fds
push_front (some fd) fds = fd ∷ fds

module _ (s : Sockets) where
  unfoldable pub descriptor : ℕ → Option Bytes → Option FileDescriptor
  descriptor raw_fd name =
      if listening (s.accepts raw_fd)
      then kinds (is_stream (s.sock_type raw_fd)) (is_inet (s.address_family raw_fd)) raw_fd name
      else none

  -- The loop, with the rounds left. The loop fails at the first offset at which 3 more is above the
  -- largest `i32`, so the cast of an offset never wraps.
  unfoldable pub from_offset : ℕ → ℕ → List Bytes → Outcome (List FileDescriptor)
  from_offset zero offset names = ok []
  from_offset (suc rounds) offset names =
      let rest = from_offset rounds (suc offset) (other_names names) in
      if leb (3 + offset) 2147483647
      then (rest >>= λ fds. ok (push_front (descriptor (3 + offset) (next_name names)) fds))
      else err overlarge_fd

  unfoldable pub socks_from_fds : ℕ → List Bytes → Outcome (List FileDescriptor)
  socks_from_fds num_fds names = from_offset num_fds 0 names

-- `str::parse` of an unsigned number that is at most `top`
abbrev digit : ℕ → Option ℕ
digit c = if leb 48 c && leb c 57 then some (c - 48) else none

abbrev add_digit : ℕ → ℕ → Option ℕ → Option ℕ
add_digit top n none = none
add_digit top n (some d) = if leb (n * 10 + d) top then some (n * 10 + d) else none

unfoldable pub parse_digits : ℕ → Option ℕ → Bytes → Option ℕ
parse_digits top none cs = none
parse_digits top (some n) [] = some n
parse_digits top (some n) (c ∷ cs) = parse_digits top (add_digit top n (digit c)) cs

unfoldable pub parse_number : ℕ → Bytes → Option ℕ
parse_number top [] = none
parse_number top (c ∷ []) = parse_digits top (some 0) (c ∷ [])
parse_number top (c ∷ d ∷ cs) =
    if c == b'+' then parse_digits top (some 0) (d ∷ cs) else parse_digits top (some 0) (c ∷ d ∷ cs)

-- `split(':')`
abbrev onto_first : ℕ → List Bytes → List Bytes
onto_first c [] = (c ∷ []) ∷ []
onto_first c (n ∷ ns) = (c ∷ n) ∷ ns

unfoldable pub split_names : Bytes → List Bytes
split_names [] = [] ∷ []
split_names (c ∷ cs) =
    let rest = split_names cs in if c == b':' then [] ∷ rest else onto_first c rest

-- the variables of the environment
pub record Environment : Type 0 where
  pub listen_pid : Option Bytes
  pub listen_fds : Option Bytes
  pub listen_fdnames : Option Bytes

abbrev number_of : ℕ → Option Bytes → Outcome ℕ
number_of top none = err missing_variable
number_of top (some v) = elim (parse_number top v) [ none ↦ err bad_variable | some n ↦ ok n ]

abbrev names_of : Option Bytes → List Bytes
names_of none = []
names_of (some v) = split_names v

-- what `env::remove_var` leaves
abbrev after_unset : Bool → Environment → Environment
after_unset true env = record { listen_pid = none; listen_fds = none; listen_fdnames = none }
after_unset false env = env

unfoldable pub receive_descriptors_with_names :
    Sockets → ℕ → Bool → Environment → Outcome (List FileDescriptor) × Environment
receive_descriptors_with_names s process_id unset_env env = (
  (number_of 4294967295 env.listen_pid >>= λ pid.
      number_of 18446744073709551615 env.listen_fds >>= λ fds.
      if process_id == pid
      then socks_from_fds s fds (names_of env.listen_fdnames)
      else err pid_mismatch),
  after_unset unset_env env,
)
