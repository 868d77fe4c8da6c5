-- ===== src/Tests/Handled.antt =====
-- src/outgoing.rs at a concrete input.
use xmpp_proxy.Prelude.{
  ℕ, Outcome, err, io_error, ◌≡◌, refl, false, Bytes, codes, bytes_eq, starts_with, [], ◌∷◌, ◌++◌,
  ok, ◌>>=◌,
}
use xmpp_proxy.Slice.{contains_seq, first_index_of, scan_from, extract_between, cut_end}
use xmpp_proxy.Filter.{
  StanzaFilter, new, process_next_byte_idx, process_byte, dispatch, settle, stanza_end, checked_sub,
  last_equals, last_num_bytes, mark_first_tag, self_closing, close_tag, previous_byte, tag_end,
  outside_stanza,
}
use xmpp_proxy.Filter.Reader.{eof, read_loop}
use xmpp_proxy.Filter.Loops.{while_next}
use xmpp_proxy.Wire.{Sink, write_all, flush}
use xmpp_proxy.Preamble.{stream_preamble, preamble_round, is_client}
use xmpp_proxy.Websocket.Text.{from_utf8, is_utf8_from, after_lead}
use xmpp_proxy.Srv.Connect.{Served, connect_any, connect, try_ips, try_ip}
use xmpp_proxy.Incoming.{quoted}
use xmpp_proxy.Outgoing.{Started, serve, serve_header, handle_stream}
use xmpp_proxy.Starttls.{sniffed}
use xmpp_proxy.Wire.{peek_bytes}
use xmpp_proxy.Filter.Reader.{next_eoft}
use xmpp_proxy.Session.{Peer, async_read, open_stream, preamble_loop, next_by}
use xmpp_proxy.Websocket.Messages.{async_write, write_stanza, flush_stanza}
use xmpp_proxy.Websocket.Messages.Writes.{write_flush_stanza}
use xmpp_proxy.Handle.{Stream, WebSocket, bytes_peer}
use xmpp_proxy.Outgoing.Handles.{
  Linked, handle_outgoing_connection, handle_peer, serve_opened, serve_peer,
}
use xmpp_proxy.Tests.Peers.{offline, defaults, transports, test_offline}

abbrev sink : Sink
sink = record { sent = []; calls = 2 }

abbrev pub header : Bytes
header = codes "<stream:stream to='a.org'>"

abbrev pub filter_after : Bytes → StanzaFilter
filter_after buf = record {
  buf_size = 30;
  buf = buf;
  end_of_first_tag = 0;
  cnt = 0;
  tag_cnt = 0;
  state = outside_stanza;
}

abbrev pub response : Bytes
response = codes "<stream:stream >"

abbrev served : Served transports
served = record {
  wires = record {
    writer = async_write (record { sent = header; calls = 7 });
    reader = async_read [] eof;
  };
  server_response = response;
  filter = filter_after (response ++ (codes "o='a.org'>" ++ (0 ∷ 0 ∷ 0 ∷ 0 ∷ [])));
}

abbrev started : Started offline (λ c v. transports)
started = record {
  opening = (header, false);
  connections = defaults;
  served = served;
  in_sink = record { sent = response; calls = 0 };
  in_rest = [];
}

test_opening :
    stream_preamble (new 30) header eof
    ≡ (ok (header, false), filter_after (header ++ (0 ∷ 0 ∷ 0 ∷ 0 ∷ [])), [])
unfolding stream_preamble preamble_round is_client contains_seq first_index_of scan_from while_next
    read_loop process_next_byte_idx process_byte dispatch settle stanza_end checked_sub last_equals
    last_num_bytes mark_first_tag self_closing close_tag previous_byte tag_end bytes_eq starts_with
test_opening = refl

test_served :
    connect_any transports false defaults.0
      (codes "a.org")
      header
      (filter_after (header ++ (0 ∷ 0 ∷ 0 ∷ 0 ∷ [])))
    ≡ ok served
unfolding connect_any connect try_ips try_ip write_stanza flush_stanza write_all flush open_stream
    preamble_loop next_by next_eoft preamble_round is_client contains_seq first_index_of scan_from
    read_loop process_next_byte_idx process_byte dispatch settle stanza_end checked_sub last_equals
    last_num_bytes mark_first_tag self_closing close_tag previous_byte tag_end bytes_eq starts_with
test_served = refl

pub test_claim : (quoted (codes "to") header >>= from_utf8) ≡ ok (codes "a.org")
unfolding quoted extract_between first_index_of scan_from cut_end from_utf8 is_utf8_from after_lead
    bytes_eq
test_claim = refl

test_handle : handle_stream offline (λ c v. transports) sink (new 30) header eof ≡ ok started
unfolding handle_stream serve_header serve write_all flush
test_handle = rw (test_opening, test_claim, test_offline, test_served) refl

abbrev pub client : Stream
client = record { src = header; ending = eof; sink = sink }

abbrev pub no_websocket : ℕ → Stream → Outcome WebSocket
no_websocket size s = err io_error

abbrev pub peer_behind : Peer
peer_behind = record {
  filter = filter_after (header ++ (0 ∷ 0 ∷ 0 ∷ 0 ∷ []));
  reader = async_read [] eof;
  writer = async_write sink;
}

abbrev linked : Linked offline (λ c v. transports)
linked = record {
  opening = (header, false);
  connections = defaults;
  served = served;
  peer = record {
    filter = served.filter;
    reader = async_read [] eof;
    writer = async_write (record { sent = response; calls = 0 });
  };
}

pub test_open_peer :
    open_stream (bytes_peer (sniffed 30 (codes "<st")) client) ≡ (ok (header, false), peer_behind)
unfolding open_stream preamble_loop next_by next_eoft preamble_round is_client contains_seq
    first_index_of scan_from read_loop process_next_byte_idx process_byte dispatch settle stanza_end
    checked_sub last_equals last_num_bytes mark_first_tag self_closing close_tag previous_byte
    tag_end bytes_eq starts_with
test_open_peer = refl

pub test_response : write_flush_stanza false response 0 (async_write sink) ≡ ok (linked.peer.writer)
unfolding write_stanza flush_stanza write_all flush
test_response = refl

test_linked :
    handle_outgoing_connection offline (λ c v. transports) no_websocket 30 client ≡ ok linked
unfolding handle_outgoing_connection peek_bytes handle_peer serve_opened serve_peer bytes_eq
test_linked = rw (test_open_peer, test_claim, test_offline, test_served, test_response) refl
