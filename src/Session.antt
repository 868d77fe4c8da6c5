-- ===== src/Session.antt =====
-- src/in_out.rs: `StanzaRead` over a stream of bytes or a websocket, and `stream_preamble` of
-- src/common/mod.rs over either. The fuel of its loop is one more than the bytes or the messages that
-- are to come, of which each round reads one at least.
pub mod Opens
use xmpp_proxy.Prelude.{
  ℕ, zero, suc, Bytes, length, List, [], ◌∷◌, Option, none, some, Outcome, ok, err, panic,
}
use xmpp_proxy.Filter.{StanzaFilter}
use xmpp_proxy.Filter.Reader.{Ending, next_eoft}
use xmpp_proxy.Filter.Loops.{Round, go_on, leave, End, left, ended, failed, crashed, out_of_fuel}
use xmpp_proxy.Preamble.{Opening, preamble_round, opened}
use xmpp_proxy.Websocket.Messages.{Message, StanzaWrite, ws_next}

pub data StanzaRead : Type 0 where
  async_read : Bytes → Ending → StanzaRead
  web_socket_read : List Message → Ending → StanzaRead

-- one end of a connection, and the filter of its reader
pub record Peer : Type 0 where
  pub filter : StanzaFilter
  pub reader : StanzaRead
  pub writer : StanzaWrite

abbrev pub Next : Type 0
Next = Outcome (Option (Bytes × ℕ)) × Peer

-- `StanzaRead::next`; a websocket answers its pings through the writer
unfoldable pub next_by : StanzaRead → StanzaFilter → StanzaWrite → Next
next_by (async_read src ending) f w =
    let r = next_eoft f src ending in
    (r.result, record { filter = r.filter; reader = async_read r.rest ending; writer = w })
next_by (web_socket_read msgs ending) f w =
    let r = ws_next f msgs ending w in
    (
      r.result,
      record { filter = r.filter; reader = web_socket_read r.rest ending; writer = r.writer },
    )

abbrev pub next_stanza : Peer → Next
next_stanza p = next_by p.reader p.filter p.writer

abbrev pub left_of : StanzaRead → ℕ
left_of (async_read src ending) = length src
left_of (web_socket_read msgs ending) = length msgs

abbrev pub Opens : Type 0
Opens = End Bytes (Outcome Opening) × Peer

abbrev pub by_round : Round Bytes (Outcome Opening) → Peer → (Bytes → Opens) → Opens
by_round (go_on s) p more = more s
by_round (leave r) p more = (left r, p)

abbrev pub by_stanza : Outcome (Option (Bytes × ℕ)) → Peer → Bytes → (Bytes → Opens) → Opens
by_stanza (ok (some a)) p s more = by_round (preamble_round s a) p more
by_stanza (ok none) p s more = (ended s, p)
by_stanza (err e) p s more = (failed e s, p)
by_stanza panic p s more = (crashed, p)

unfoldable pub preamble_loop : ℕ → Peer → Bytes → Opens
preamble_loop zero p s = (out_of_fuel, p)
preamble_loop (suc fuel) p s =
    let r = next_stanza p in by_stanza r.0 r.1 s (λ t. preamble_loop fuel r.1 t)

-- `stream_preamble`
unfoldable pub open_stream : Peer → Outcome Opening × Peer
open_stream p = let r = preamble_loop (suc (left_of p.reader)) p [] in (opened r.0, r.1)
