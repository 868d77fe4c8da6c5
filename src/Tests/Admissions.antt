-- ===== src/Tests/Admissions.antt =====
-- src/common/incoming.rs at concrete inputs.
use xmpp_proxy.Prelude.{
  ℕ, ◌≡◌, ◌≢◌, refl, true, false, Bytes, codes, bytes_eq, starts_with, [], ◌∷◌, ◌++◌, none, some,
  ok, arith,
}
use xmpp_proxy.Slice.{contains_seq, first_index_of, scan_from, extract_between, cut_end}
use xmpp_proxy.Filter.{
  new, process_next_byte_idx, process_byte, dispatch, settle, stanza_end, checked_sub, last_equals,
  last_num_bytes, mark_first_tag, self_closing, close_tag, previous_byte, tag_end, outside_stanza,
}
use xmpp_proxy.Filter.Reader.{eof, read_loop}
use xmpp_proxy.Filter.Loops.{while_next}
use xmpp_proxy.Filter.Stanza.{Avoids, none_left, other}
use xmpp_proxy.Wire.{Sink, write_all, flush}
use xmpp_proxy.Preamble.{stream_preamble, preamble_round, is_client}
use xmpp_proxy.Websocket.Text.{from_utf8, is_utf8_from, after_lead}
use xmpp_proxy.Srv.Sort.{dedup, sort_by}
use xmpp_proxy.Srv.Order.{sort_dedup}
use xmpp_proxy.Srv.Lookup.{collect_host_meta, collect_host_meta_json, collect_host_meta_xml}
use xmpp_proxy.Srv.Connections.{get_xmpp_connections, queries, with_verifier, push_targets}
use xmpp_proxy.Verify.{
  verify_cert, verify_unpinned, verify_chain, verify_is_valid_tls_server_cert, check_pins,
  check_posh, any_name,
}
use xmpp_proxy.Incoming.{
  Addresses, IncomingConfig, Admitted, admit, quoted, check_server, open_incoming, write_proxy,
  target_of,
}
use xmpp_proxy.Incoming.Forwards.{OneLine, announced, open_incoming-sent}
use xmpp_proxy.Tests.Peers.{digests, webpki, offline, sink}

abbrev pub claim : Bytes
claim = codes "<stream:stream from='a.org'>"

abbrev admitted : Admitted offline webpki digests 0
admitted = record {
  opening = (claim, false);
  filter = record {
    buf_size = 30;
    buf = claim ++ (0 ∷ 0 ∷ []);
    end_of_first_tag = 0;
    cnt = 0;
    tag_cnt = 0;
    state = outside_stanza;
  };
  rest = [];
}

pub test_proven : check_server offline webpki digests 0 claim (some (codes "a.org" ∷ [])) ≡ ok tt
unfolding check_server quoted extract_between first_index_of scan_from cut_end from_utf8
    is_utf8_from after_lead bytes_eq get_xmpp_connections queries with_verifier push_targets
    collect_host_meta collect_host_meta_json collect_host_meta_xml sort_dedup sort_by dedup
    verify_cert verify_unpinned verify_chain verify_is_valid_tls_server_cert check_pins check_posh
    any_name
test_proven = refl

test_opening : stream_preamble (new 30) claim eof ≡ ((ok (claim, false)), admitted.filter, [])
unfolding stream_preamble preamble_round is_client contains_seq first_index_of scan_from while_next
    read_loop process_next_byte_idx process_byte dispatch settle stanza_end checked_sub last_equals
    last_num_bytes mark_first_tag self_closing close_tag previous_byte tag_end bytes_eq starts_with
test_opening = refl

test_admit :
    admit offline webpki digests 0 (new 30) claim eof (some (codes "a.org" ∷ [])) ≡ ok admitted
unfolding admit
test_admit = rw (test_opening, test_proven) refl

abbrev pub addresses : Addresses
addresses = record {
  is_ipv4 = true;
  client_ip = codes "1";
  local_ip = codes "2";
  client_port = codes "3";
  local_port = codes "4";
}

one_byte-Avoids : (b : ℕ) → b ≢ 10 → Avoids 10 (b ∷ [])
one_byte-Avoids b n = other n none_left

pub addresses-OneLine : OneLine addresses
addresses-OneLine = record {
  client_ip = one_byte-Avoids b'1' (λ e. absurd (omega arith));
  local_ip = one_byte-Avoids b'2' (λ e. absurd (omega arith));
  client_port = one_byte-Avoids b'3' (λ e. absurd (omega arith));
  local_port = one_byte-Avoids b'4' (λ e. absurd (omega arith));
}

abbrev config : IncomingConfig
config = record { s2s_target = none; c2s_target = some (ok sink); proxy = true }

abbrev forwarded : Sink
forwarded = record { sent = codes "PROXY TCP4 1 2 3 4\r\n<h>"; calls = 6 }

test_forward : open_incoming config addresses (codes "<h>") true (new 64) ≡ ok forwarded
unfolding open_incoming write_proxy first_index_of scan_from bytes_eq write_all flush
test_forward = refl

open_incoming-sent_example :
    (s : Sink) × (target_of (some (ok sink)) ≡ ok s)
    × (forwarded.sent ≡ s.sent ++ (announced true addresses ++ codes "<h>"))
open_incoming-sent_example =
    open_incoming-sent config addresses (codes "<h>") true (new 64) forwarded addresses-OneLine
      test_forward
