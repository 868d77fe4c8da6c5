-- ===== src/Tests/Dials.antt =====
-- An outgoing connection over STARTTLS at a concrete input.
use xmpp_proxy.Prelude.{
  ◌≡◌, refl, false, codes, bytes_eq, starts_with, [], ◌∷◌, ◌++◌, none, ok, err, io_error,
  all_attempts_failed, if◌then◌else◌, ltb,
}
use xmpp_proxy.Slice.{contains_seq, first_index_of, scan_from}
use xmpp_proxy.Filter.{
  process_next_byte_idx, process_byte, dispatch, settle, stanza_end, checked_sub, last_equals,
  last_num_bytes, mark_first_tag, self_closing, close_tag, previous_byte, tag_end,
}
use xmpp_proxy.Filter.Reader.{eof, read_loop, next_eoft}
use xmpp_proxy.Filter.Loops.{while_next}
use xmpp_proxy.Wire.{write_all, flush, peek_bytes}
use xmpp_proxy.Preamble.{preamble_round, is_client}
use xmpp_proxy.Starttls.{sniffed}
use xmpp_proxy.Starttls.Outgoing.{starttls_connect, starttls_left, connect_round}
use xmpp_proxy.Session.{async_read, open_stream, preamble_loop, next_by, Peer}
use xmpp_proxy.Websocket.Messages.{async_write, write_stanza, flush_stanza}
use xmpp_proxy.Startup.Certs.{KeyProvider}
use xmpp_proxy.Startup.Tls.{OutgoingConfig, with_custom_certificate_verifier}
use xmpp_proxy.Srv.Types.{v4, start_tls}
use xmpp_proxy.Srv.Connect.{Transports, Served, connect_any, connect, try_ips, try_ip}
use xmpp_proxy.Verify.{XmppServerCertVerifier}
use xmpp_proxy.Dial.{Library, dial, dial_starttls, start_over, proceed}
use xmpp_proxy.Dial.Secured.{IsSecured, key_for}
use xmpp_proxy.Outgoing.Handles.{
  Linked, handle_outgoing_connection, handle_peer, serve_opened, serve_peer, Speaks, IsLinked,
}
use xmpp_proxy.Outgoing.Secured.{dial_with, handle_outgoing_connection-IsSecured}
use xmpp_proxy.Tests.Connections.{plain_texts, connection}
use xmpp_proxy.Tests.Peers.{offline, defaults, test_offline}
use xmpp_proxy.Tests.Handled.{
  header, client, no_websocket, peer_behind, test_open_peer, test_claim, test_response,
  filter_after, response,
}

abbrev provider : KeyProvider
provider = record { SigningKey = Unit; load_private_key = λ key. ok tt }

abbrev config : OutgoingConfig provider
config = record { max_stanza_size_bytes = 30; certs_key = err io_error }

-- the server agrees to TLS at once, and then sends its header
abbrev library : Library plain_texts provider (XmppServerCertVerifier plain_texts)
library = record {
  connect_tcp = λ ip port.
      ok (record {
        src = codes "<proceed />";
        ending = eof;
        sink = record { sent = []; calls = 9 };
      });
  unread = λ rest. rest;
  connect_tls = λ c name s. ok (record s { src = codes "<stream:stream >" });
  default_suites = none;
  Endpoint = Unit;
  client_endpoint = λ c suite. err io_error;
  Connection = Unit;
  connect_quic = λ e ip port name. err io_error;
  connect_session = λ c url. err io_error;
  open_bi = λ c. err io_error;
  Request = Unit;
  into_client_request = λ uri. err io_error;
  append = λ name value request. err io_error;
  client_async = λ request c s. err io_error;
  lookup_ip = λ target. ok (v4 1 ∷ []);
}

abbrev served : Served (dial_with offline library config false defaults.1)
served = record {
  wires = record {
    writer = async_write (record { sent = header ++ header; calls = 5 });
    reader = async_read [] eof;
  };
  server_response = response;
  filter = filter_after (response ++ (codes "o='a.org'>" ++ (0 ∷ 0 ∷ 0 ∷ 0 ∷ [])));
}

test_dialled :
    connect_any
      (dial_with offline library config false defaults.1)
      false
      defaults.0
      (codes "a.org")
      header
      peer_behind.filter
    ≡ ok served
unfolding connect_any connect try_ips try_ip dial dial_starttls start_over proceed starttls_connect
    starttls_left connect_round with_custom_certificate_verifier write_stanza flush_stanza write_all
    flush open_stream preamble_loop next_by next_eoft preamble_round is_client contains_seq
    first_index_of scan_from while_next read_loop process_next_byte_idx process_byte dispatch settle
    stanza_end checked_sub last_equals last_num_bytes mark_first_tag self_closing close_tag
    previous_byte tag_end bytes_eq starts_with
test_dialled = refl

abbrev linked : Linked offline (dial_with offline library config)
linked = record {
  opening = (header, false);
  connections = defaults;
  served = served;
  peer = record {
    filter = served.filter;
    reader = async_read [] eof;
    writer = async_write (record { sent = response; calls = 0 });
  };
}

test_linked_over :
    handle_outgoing_connection offline (dial_with offline library config) no_websocket 30 client
    ≡ ok linked
unfolding handle_outgoing_connection peek_bytes handle_peer serve_opened serve_peer bytes_eq
test_linked_over = rw (test_open_peer, test_claim, test_offline, test_dialled, test_response) refl

handle_outgoing_connection-IsSecured_example :
    (p : Peer) × Speaks offline
      (dial_with offline library config)
      no_websocket
      30
      client
      (sniffed 30 (codes "<st"))
      p
    × (l : IsLinked offline (dial_with offline library config) p linked) × IsSecured library
        defaults.1
        (key_for config false)
        l.served_by.opened.name
        l.served_by.wires
handle_outgoing_connection-IsSecured_example =
    handle_outgoing_connection-IsSecured offline library config no_websocket client linked
      test_linked_over

-- The servers of `a.org`, of which the first breaks off in its header.
abbrev first_breaks_off : Transports plain_texts
first_breaks_off = record {
  dial = λ conn_type ip port name stream_open f. (
    ok (record {
      writer = async_write (record { sent = []; calls = 9 });
      reader = async_read (if ltb port 2 then codes "<stream:st" else codes "<stream:stream >") eof;
    }),
    f,
  );
  lookup_ip = λ target. ok (v4 1 ∷ []);
}

-- The second server answers as it should, and is turned away: the filter still holds what the first
-- one sent.
test_fallback :
    connect_any first_breaks_off false
      (connection start_tls 1 1 1 ∷ connection start_tls 2 1 2 ∷ [])
      (codes "a.org")
      header
      peer_behind.filter
    ≡ err all_attempts_failed
unfolding connect_any connect try_ips try_ip write_stanza flush_stanza write_all flush open_stream
    preamble_loop next_by next_eoft preamble_round is_client contains_seq first_index_of scan_from
    read_loop process_next_byte_idx process_byte dispatch settle stanza_end checked_sub last_equals
    last_num_bytes mark_first_tag self_closing close_tag previous_byte tag_end bytes_eq starts_with
test_fallback = refl

-- By itself it is taken.
test_alone :
    (s : Served first_breaks_off) × (connect_any first_breaks_off false
        (connection start_tls 2 1 2 ∷ [])
        (codes "a.org")
        header
        peer_behind.filter
      ≡ ok s)
unfolding connect_any connect try_ips try_ip write_stanza flush_stanza write_all flush open_stream
    preamble_loop next_by next_eoft preamble_round is_client contains_seq first_index_of scan_from
    read_loop process_next_byte_idx process_byte dispatch settle stanza_end checked_sub last_equals
    last_num_bytes mark_first_tag self_closing close_tag previous_byte tag_end bytes_eq starts_with
test_alone = (_, refl)
