-- ===== src/Tests/Sockets.antt =====
-- src/systemd.rs at concrete inputs.
use xmpp_proxy.Prelude.{◌≡◌, refl, true, false, codes, [], ◌∷◌, some, ok, if◌then◌else◌, ◌==◌}
use xmpp_proxy.Srv.Sort.{first}
use xmpp_proxy.Systemd.{
  Sockets, stream, inet, FileDescriptor, socks_from_fds, from_offset, descriptor,
  receive_descriptors_with_names, parse_number, parse_digits, split_names,
}
use xmpp_proxy.Systemd.Descriptors.{IsPassed, socks_from_fds-IsPassed}

-- the first socket does not listen
abbrev two_sockets : Sockets
two_sockets = record {
  accepts = λ fd. some (if fd == 3 then false else true);
  sock_type = λ fd. some stream;
  address_family = λ fd. some inet;
}

abbrev second : FileDescriptor
second = record { raw_fd = 4; tcp_not_udp = true; inet_not_unix = true; name = some (codes "out") }

test_receive :
    (receive_descriptors_with_names two_sockets 7 true (record {
      listen_pid = some (codes "7");
      listen_fds = some (codes "2");
      listen_fdnames = some (codes "in:out");
    })).0
    ≡ ok (second ∷ [])
unfolding receive_descriptors_with_names parse_number parse_digits split_names socks_from_fds
    from_offset descriptor
test_receive = refl

test_socks : socks_from_fds two_sockets 2 (codes "in" ∷ codes "out" ∷ []) ≡ ok (second ∷ [])
unfolding socks_from_fds from_offset descriptor
test_socks = refl

socks_from_fds-IsPassed_example : IsPassed two_sockets 0 (codes "in" ∷ codes "out" ∷ []) 2 second
socks_from_fds-IsPassed_example =
    socks_from_fds-IsPassed two_sockets 2 (codes "in" ∷ codes "out" ∷ []) (second ∷ []) second
      test_socks first
