-- ===== src/Tests/Incoming.antt =====
-- Incoming connections from their first byte to their target, and the relay, at concrete inputs.
use xmpp_proxy.Prelude.{
  ◌≡◌, refl, true, false, Bytes, codes, bytes_eq, starts_with, [], ◌∷◌, ◌++◌, none, some, List,
  Outcome, ok, err, io_error,
}
use xmpp_proxy.Slice.{contains_seq, first_index_of, scan_from}
use xmpp_proxy.Filter.{
  new, process_next_byte_idx, process_byte, dispatch, settle, stanza_end, checked_sub, last_equals,
  last_num_bytes, mark_first_tag, self_closing, close_tag, previous_byte, tag_end, outside_stanza,
  StanzaFilter,
}
use xmpp_proxy.Filter.Reader.{eof, read_loop, next_eoft}
use xmpp_proxy.Wire.{write_all, flush, peek_bytes}
use xmpp_proxy.Starttls.{open_tls, after_peek, sniffed}
use xmpp_proxy.Preamble.{preamble_round, is_client}
use xmpp_proxy.Peek.{match_loop}
use xmpp_proxy.Session.{Peer, async_read, web_socket_read, open_stream, preamble_loop, next_by}
use xmpp_proxy.Websocket.Text.{replace, replace_from}
use xmpp_proxy.Websocket.Framing.{from_ws, open_to_stream}
use xmpp_proxy.Websocket.Messages.{
  async_write, web_socket_client_write, ping, text, ws_next, answer_ping, give_text,
}
use xmpp_proxy.Srv.Sort.{Among, first}
use xmpp_proxy.Incoming.{IncomingConfig, open_incoming, write_proxy}
use xmpp_proxy.Handle.{
  Stream, QuicConnection, Handshakes, Forwarded, bytes_peer, shuffle_rd_wr_filter, behind_handshake,
  handle_tls_connection, handle_quic_connection,
}
use xmpp_proxy.Handle.Forwards.{IsHandled, IsForwarded, handle_tls_connection-IsHandled}
use xmpp_proxy.Handle.Sessions.{OfConnection, handle_quic_connection-Forwards}
use xmpp_proxy.Listen.{SocketAddr, Accepted, Listened, spawn_tls_listener, accept_loop}
use xmpp_proxy.Listen.Tasks.{Serves, spawn_tls_listener-Serves}
use xmpp_proxy.Tests.Peers.{digests, webpki, offline, sink}
use xmpp_proxy.Tests.Admissions.{addresses, addresses-OneLine, claim, test_proven}
use xmpp_proxy.Tests.Peeks.{reader}

abbrev config : IncomingConfig
config = record { s2s_target = some (ok sink); c2s_target = none; proxy = true }

abbrev stream : Stream
stream = record { src = claim; ending = eof; sink = sink }

abbrev handshakes : Handshakes reader
handshakes = record {
  accept_tls = λ u. ok (record {
    peer_certificates = some (codes "a.org" ∷ []);
    stream = stream;
    buffer = (claim, []);
  });
  accept_websocket = λ size s. err io_error;
  accept_webtransport = λ c. err io_error;
  clock = λ i. i;
  rounds = 1;
}

abbrev hello : Bytes
hello = 22 ∷ 3 ∷ 1 ∷ []

abbrev filter_after : StanzaFilter
filter_after = record {
  buf_size = 30;
  buf = claim ++ (0 ∷ 0 ∷ []);
  end_of_first_tag = 0;
  cnt = 0;
  tag_cnt = 0;
  state = outside_stanza;
}

abbrev peer_after : Peer
peer_after = record { filter = filter_after; reader = async_read [] eof; writer = async_write sink }

abbrev fwd : Forwarded offline webpki digests 0
fwd = record {
  opening = (claim, false);
  peer = peer_after;
  target = record { sent = codes "PROXY TCP4 1 2 3 4\r\n" ++ claim; calls = 6 };
}

test_open : open_stream (bytes_peer (sniffed 30 hello) stream) ≡ (ok (claim, false), peer_after)
unfolding open_stream preamble_loop next_by next_eoft preamble_round is_client contains_seq
    first_index_of scan_from read_loop process_next_byte_idx process_byte dispatch settle stanza_end
    checked_sub last_equals last_num_bytes mark_first_tag self_closing close_tag previous_byte
    tag_end bytes_eq starts_with
test_open = refl

test_target : open_incoming config addresses claim false filter_after ≡ ok fwd.target
unfolding open_incoming write_proxy first_index_of scan_from bytes_eq write_all flush
test_target = refl

test_shuffle :
    shuffle_rd_wr_filter offline webpki digests 0 config addresses
      (some (codes "a.org" ∷ []))
      (bytes_peer (sniffed 30 hello) stream)
    ≡ ok fwd
unfolding shuffle_rd_wr_filter
test_shuffle = rw (test_open, test_proven, test_target) refl

test_handle :
    handle_tls_connection offline webpki digests 0 handshakes 30 config addresses sink hello eof
    ≡ ok fwd
unfolding handle_tls_connection open_tls peek_bytes after_peek behind_handshake match_loop bytes_eq
test_handle = test_shuffle

handle_tls_connection-IsHandled_example :
    IsHandled offline webpki digests 0 config addresses handshakes 30 sink hello eof fwd
handle_tls_connection-IsHandled_example =
    handle_tls_connection-IsHandled offline webpki digests 0 config addresses handshakes 30 sink
      hello eof fwd addresses-OneLine test_handle

-- a listener that accepts one connection, and then fails
abbrev local : SocketAddr
local = record { is_ipv4 = true; ip = codes "2"; port = codes "4" }

abbrev accepted : Accepted Stream
accepted = record {
  stream = record { src = hello; ending = eof; sink = sink };
  client_addr = record { is_ipv4 = true; ip = codes "1"; port = codes "3" };
}

abbrev accepts : List (Outcome (Accepted Stream))
accepts = ok accepted ∷ err io_error ∷ ok accepted ∷ []

abbrev listened : Listened (Accepted Stream) (Outcome (Forwarded offline webpki digests 0))
listened = record { spawned = (accepted, ok fwd) ∷ []; ended = some (err io_error) }

test_listened :
    spawn_tls_listener offline webpki digests 0 handshakes 30 config (ok local) accepts
    ≡ ok listened
unfolding spawn_tls_listener accept_loop
test_listened = rw test_handle refl

spawn_tls_listener-Serves_example :
    Serves offline webpki digests 0 handshakes 30 config accepts listened
spawn_tls_listener-Serves_example =
    spawn_tls_listener-Serves offline webpki digests 0 handshakes 30 config (ok local) accepts
      listened test_listened

-- a connection with one stream
abbrev connection : QuicConnection
connection = record {
  peer_certificates = some (codes "a.org" ∷ []);
  alpn = some (codes "xmpp-server");
  streams = stream ∷ [];
}

test_open_new : open_stream (bytes_peer (new 30) stream) ≡ (ok (claim, false), peer_after)
unfolding open_stream preamble_loop next_by next_eoft preamble_round is_client contains_seq
    first_index_of scan_from read_loop process_next_byte_idx process_byte dispatch settle stanza_end
    checked_sub last_equals last_num_bytes mark_first_tag self_closing close_tag previous_byte
    tag_end bytes_eq starts_with
test_open_new = refl

test_shuffle_new :
    shuffle_rd_wr_filter offline webpki digests 0 config addresses
      (some (codes "a.org" ∷ []))
      (bytes_peer (new 30) stream)
    ≡ ok fwd
unfolding shuffle_rd_wr_filter
test_shuffle_new = rw (test_open_new, test_proven, test_target) refl

fwd-Among :
    Among
      (ok fwd)
      (handle_quic_connection offline webpki digests 0 handshakes 30 config addresses connection)
unfolding handle_quic_connection bytes_eq
fwd-Among = rw test_shuffle_new first

handle_quic_connection-Forwards_example :
    (s : Stream) × OfConnection offline webpki digests 0 handshakes 30 config addresses connection s
    × IsForwarded offline webpki digests 0 config addresses
        (some (codes "a.org" ∷ []))
        (bytes_peer (new 30) s)
        fwd
handle_quic_connection-Forwards_example =
    handle_quic_connection-Forwards offline webpki digests 0 handshakes 30 config addresses
      connection fwd addresses-OneLine fwd-Among

-- a websocket that is pinged before it opens
abbrev browser : Peer
browser = record {
  filter = new 90;
  reader =
      web_socket_read
        (ping (codes "p")
          ∷ text (codes "<open xmlns=\"urn:ietf:params:xml:ns:xmpp-framing\" />")
          ∷ [])
        eof;
  writer = web_socket_client_write (record { sent = []; calls = 2 });
}

abbrev browser_header : Bytes
browser_header =
    codes
      "<stream:stream xmlns=\"jabber:client\"  xmlns:stream=\"http://etherx.jabber.org/streams\">"

test_browser : (open_stream browser).0 ≡ ok (browser_header, true)
unfolding open_stream preamble_loop next_by ws_next answer_ping give_text from_ws open_to_stream
    replace replace_from preamble_round is_client contains_seq first_index_of scan_from bytes_eq
    starts_with
test_browser = refl
