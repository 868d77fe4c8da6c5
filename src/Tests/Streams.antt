-- ===== src/Tests/Streams.antt =====
-- src/tls, src/common/mod.rs, src/websocket/mod.rs and src/in_out.rs at concrete inputs.
use xmpp_proxy.Prelude.{
  ℕ, ◌≡◌, refl, true, false, Bytes, codes, bytes_eq, take, starts_with, List, [], ◌∷◌, ◌++◌, none,
  some, ok, arith,
}
use xmpp_proxy.Slice.{contains_seq, first_index_of, scan_from, replace_first, splice}
use xmpp_proxy.Filter.{
  StanzaFilter, new, process_next_byte_idx, process_byte, dispatch, settle, stanza_end, checked_sub,
  last_equals, last_num_bytes, mark_first_tag, self_closing, close_tag, previous_byte, tag_end,
  outside_stanza,
}
use xmpp_proxy.Filter.Reader.{eof, broken, read_loop, write_byte, emit_stanza, emit_eoft}
use xmpp_proxy.Filter.Loops.{while_next}
use xmpp_proxy.Filter.Loops.Runs.{Given}
use xmpp_proxy.Wire.{Sink, write_all, flush, peek_bytes}
use xmpp_proxy.Starttls.{
  Upgraded, open_tls, after_peek, starttls, skip_to_handshake, starttls_round, answer, sniffed,
  proceed,
}
use xmpp_proxy.Starttls.Upgrade.{IsUpgrade, open_tls-IsUpgrade}
use xmpp_proxy.Starttls.Outgoing.{
  starttls_connect, connect_round, request_tls, IsOffer, starttls_connect-IsOffer,
}
use xmpp_proxy.Preamble.{stream_preamble, preamble_round, is_client}
use xmpp_proxy.Relay.{
  Direction, move, Side, from_incoming, from_outgoing, Shuffle, After, goes_on, done, step, Steps,
  stay, then_step,
}
use xmpp_proxy.Relay.Finishes.{Finishes}
use xmpp_proxy.Relay.Carried.{Relayed, Steps-Relayed}
use xmpp_proxy.Websocket.Text.{from_utf8, is_utf8_from, after_lead, replace, replace_from}
use xmpp_proxy.Websocket.Framing.{
  from_ws, open_to_stream, to_ws_new, stream_to_open, tag_text_end, declare_namespaces,
  insert_namespaces, has_xmlns, has_xmlns_stream, missing,
}
use xmpp_proxy.Starttls.Total.{NoPanic, open_tls-NoPanic}
use xmpp_proxy.Websocket.Declares.{IsDeclared, to_ws_new-IsDeclared}
use xmpp_proxy.Websocket.Messages.{
  text, ping, StanzaWrite, web_socket_client_write, ws_next, give_text, answer_ping,
}
use xmpp_proxy.Websocket.Messages.Reads.{GivesText, ws_next-GivesText}

abbrev sink : Sink
sink = record { sent = []; calls = 9 }

test_from_ws :
    from_ws (
      codes
        "<open to='a' xmlns='urn:ietf:params:xml:ns:xmpp-framing' xmlns:stream='b' version='1.0'/>")
    ≡ codes "<stream:stream to='a' xmlns='jabber:client' xmlns:stream='b' version='1.0'>"
unfolding from_ws open_to_stream replace replace_from starts_with contains_seq first_index_of
    scan_from bytes_eq
test_from_ws = refl

test_to_ws :
    to_ws_new (codes "<iq a='>'/>") 10 true ≡ ok (codes "<iq a='>' xmlns='jabber:client'/>")
unfolding to_ws_new stream_to_open tag_text_end declare_namespaces insert_namespaces has_xmlns
    has_xmlns_stream missing from_utf8 is_utf8_from after_lead starts_with contains_seq
    first_index_of scan_from bytes_eq
test_to_ws = refl

to_ws_new-IsDeclared_example :
    IsDeclared (codes "<iq a='>'/>") 10 true (codes "<iq a='>' xmlns='jabber:client'/>")
unfolding starts_with
to_ws_new-IsDeclared_example =
    to_ws_new-IsDeclared (codes "<iq a='>'/>") 10 true (codes "<iq a='>' xmlns='jabber:client'/>")
      refl (λ e. absurd (omega arith)) refl test_to_ws

test_answer :
    answer (codes "<stream:stream to='b' from='a'>")
    ≡ codes "<stream:stream id='xmpp-proxy' from='b' to='a'>"
unfolding answer replace_first splice contains_seq first_index_of scan_from bytes_eq
test_answer = refl

abbrev asks_tls : Bytes
asks_tls = codes "<starttls />\n" ++ (22 ∷ 3 ∷ 1 ∷ [])

abbrev upgraded_to : Upgraded
upgraded_to = record {
  sink = record { sent = proceed; calls = 7 };
  rest = 22 ∷ 3 ∷ 1 ∷ [];
  filter = record {
    buf_size = 16;
    buf = 22 ∷ (codes "starttls />" ++ (0 ∷ 0 ∷ 0 ∷ 0 ∷ []));
    end_of_first_tag = 11;
    cnt = 0;
    tag_cnt = 0;
    state = outside_stanza;
  };
}

test_open_tls : open_tls 16 sink asks_tls eof ≡ ok upgraded_to
unfolding open_tls after_peek starttls skip_to_handshake starttls_round peek_bytes write_all flush
    while_next read_loop process_next_byte_idx process_byte dispatch settle stanza_end checked_sub
    last_equals last_num_bytes mark_first_tag self_closing close_tag previous_byte tag_end bytes_eq
    starts_with
test_open_tls = refl

open_tls-IsUpgrade_example : IsUpgrade sink (sniffed 16 (take 3 asks_tls)) asks_tls eof upgraded_to
open_tls-IsUpgrade_example = open_tls-IsUpgrade 16 sink asks_tls eof upgraded_to test_open_tls

abbrev offer : Bytes
offer = codes "<stream:features/><proceed />"

abbrev asked : Sink
asked = record { sent = codes "<h>" ++ request_tls; calls = 5 }

test_connect : starttls_connect (codes "<h>") (new 64) sink offer eof ≡ ok asked
unfolding starttls_connect connect_round write_all flush while_next read_loop process_next_byte_idx
    process_byte dispatch settle stanza_end checked_sub last_equals last_num_bytes mark_first_tag
    self_closing close_tag previous_byte tag_end bytes_eq starts_with
test_connect = refl

starttls_connect-IsOffer_example :
    (bufs : List Bytes) × (out : Bytes) × Given emit_stanza eof (new 64) offer bufs
    × IsOffer bufs out
    × (asked.sent ≡ sink.sent ++ (codes "<h>" ++ out))
starttls_connect-IsOffer_example =
    starttls_connect-IsOffer (codes "<h>") (new 64) sink offer eof asked test_connect

abbrev header : Bytes
header = codes "<?xml ?><stream:stream a=''>"

test_preamble : (stream_preamble (new 64) header eof).0 ≡ ok (header, false)
unfolding stream_preamble preamble_round is_client contains_seq first_index_of scan_from while_next
    read_loop process_next_byte_idx process_byte dispatch settle stanza_end checked_sub last_equals
    last_num_bytes mark_first_tag self_closing close_tag previous_byte tag_end bytes_eq starts_with
test_preamble = refl

abbrev then_byte : StanzaFilter → ℕ → StanzaFilter
then_byte f b = (process_next_byte_idx (write_byte f b)).1

abbrev before_end : StanzaFilter
before_end = then_byte (then_byte (then_byte (new 8) b'<') b'a') b'/'

abbrev idle : Direction
idle = record { filter = new 8; src = []; ending = broken; sink = sink }

abbrev one_stanza : Direction
one_stanza = record { filter = new 8; src = codes "<a/>"; ending = eof; sink = sink }

abbrev relayed : Direction
relayed = record {
  filter = (emit_eoft (then_byte before_end b'>') 4).1;
  src = [];
  ending = eof;
  sink = record { sent = codes "<a/>"; calls = 7 };
}

-- the reader that fails is left out until the other has relayed a stanza
one_stanza-Steps :
    Steps
      (record { incoming = one_stanza; outgoing = idle; failed = none })
      (record { incoming = relayed; outgoing = idle; failed = none })
unfolding step move write_all flush process_next_byte_idx process_byte dispatch settle stanza_end
    checked_sub mark_first_tag self_closing close_tag previous_byte tag_end bytes_eq
one_stanza-Steps = then_step from_outgoing refl (
    then_step from_incoming refl (
      then_step from_incoming refl (
        then_step from_outgoing refl
          (then_step from_incoming refl (then_step from_incoming refl stay)))))

test_finished :
    step from_incoming (record { incoming = relayed; outgoing = idle; failed = none })
    ≡ done (ok tt)
unfolding step move process_next_byte_idx process_byte dispatch settle stanza_end checked_sub
    mark_first_tag self_closing close_tag previous_byte tag_end
test_finished = refl

Steps-Relayed_example : Relayed one_stanza relayed × Relayed idle idle
Steps-Relayed_example = Steps-Relayed one_stanza-Steps

-- where the stanza does not fit, and the other direction has one
abbrev small : Shuffle
small = record {
  incoming = record { filter = new 2; src = codes "<a/>"; ending = eof; sink = sink };
  outgoing = one_stanza;
  failed = none;
}

abbrev next_of : After → Shuffle → Shuffle
next_of (goes_on q) p = q
next_of (done r) p = p

abbrev run : List Side → Shuffle → Shuffle
run [] p = p
run (side ∷ sides) p = run sides (next_of (step side p) p)

-- the incoming reader fails, and then the outgoing stanza is relayed
abbrev too_big : List Side
too_big =
    from_incoming ∷ from_incoming ∷ from_outgoing ∷ from_outgoing ∷ from_outgoing ∷ from_outgoing
    ∷ []

abbrev socket : StanzaWrite
socket = web_socket_client_write (record { sent = []; calls = 4 })

test_ws_next :
    (ws_next (new 64) (ping (codes "p") ∷ text (codes "<a/>") ∷ []) eof socket).result
    ≡ ok (some (codes "<a/>", 0))
unfolding ws_next give_text answer_ping from_ws starts_with
test_ws_next = refl

ws_next-GivesText_example :
    GivesText
      (ping (codes "p") ∷ text (codes "<a/>") ∷ [])
      socket
      (codes "<a/>")
      (ws_next (new 64) (ping (codes "p") ∷ text (codes "<a/>") ∷ []) eof socket)
ws_next-GivesText_example =
    ws_next-GivesText (new 64) (ping (codes "p") ∷ text (codes "<a/>") ∷ []) eof socket
      (codes "<a/>") 0 test_ws_next

open_tls-NoPanic_example : NoPanic (open_tls 16 sink asks_tls eof)
open_tls-NoPanic_example = open_tls-NoPanic 16 sink asks_tls eof (omega arith)
