-- ===== src/Websocket/Messages.antt =====
-- src/in_out.rs: `StanzaRead::next` and `StanzaWrite::write_all` over a websocket.
pub mod Answers
pub mod Reads
pub mod Writes
use xmpp_proxy.Prelude.{
  ℕ, zero, suc, ◌+◌, ◌-◌, ◌≡◌, ◌≢◌, ◌⊎◌, inl, inr, refl, sym, ap, ◌∙◌, subst, Bool, true, false,
  leb, if◌then◌else◌, Bool-cases, Bytes, codes, length, take, drop, starts_with, List, [], ◌∷◌,
  ◌++◌, append-nil, append_assoc, Option, none, some, Outcome, ok, err, panic, ◌>>=◌, ok-of_>>=,
  ok-inj, Error, io_error, websocket_close, websocket_invalid, websocket_ended, write_pair_mismatch,
}
use xmpp_proxy.Slice.{first_index_of}
use xmpp_proxy.Filter.{StanzaFilter}
use xmpp_proxy.Filter.Reader.{Ending, eof, broken}
use xmpp_proxy.Starttls.{xml_open}
use xmpp_proxy.Wire.{Sink, write_all, flush}
use xmpp_proxy.Websocket.Framing.{from_ws, to_ws_new}

-- `tungstenite::Message`
pub data Message : Type 0 where
  text ping pong binary close : Bytes → Message

-- the write half of a websocket: the messages sent, and how many further calls go through
pub record WsWr : Type 0 where
  pub sent : List Message
  pub calls : ℕ

-- `StanzaWrite`
pub data StanzaWrite : Type 0 where
  async_write : Sink → StanzaWrite
  web_socket_client_write : WsWr → StanzaWrite

abbrev feed_left : ℕ → List Message → Outcome WsWr
feed_left zero sent = err io_error
feed_left (suc n) sent = ok (record { sent = sent; calls = n })

abbrev pub feed : Message → WsWr → Outcome WsWr
feed m ws = feed_left ws.calls (ws.sent ++ m ∷ [])

abbrev pub ws_flush : WsWr → Outcome WsWr
ws_flush ws = feed_left ws.calls ws.sent

-- a stand-alone declaration is not sent, and one before a stanza is cut off
abbrev behind_declaration : Bytes → Outcome ℕ → Option Bytes
behind_declaration buf (ok idx) = some (drop idx buf)
behind_declaration buf (err e) = none
behind_declaration buf panic = none

unfoldable pub without_declaration : Bytes → Option Bytes
without_declaration buf =
    if starts_with buf xml_open
    then behind_declaration (drop 6 buf) (first_index_of (drop 6 buf) (codes "<"))
    else some buf

abbrev feed_stanza : Option Bytes → ℕ → Bool → WsWr → Outcome StanzaWrite
feed_stanza none e is_c2s ws = ok (web_socket_client_write ws)
feed_stanza (some buf) e is_c2s ws = to_ws_new buf e is_c2s >>= λ stanza.
    feed (text stanza) ws >>= λ w. ok (web_socket_client_write w)

-- `StanzaWrite::write_all`
unfoldable pub write_stanza : Bool → Bytes → ℕ → StanzaWrite → Outcome StanzaWrite
write_stanza is_c2s buf e (async_write s) = write_all buf s >>= λ t. ok (async_write t)
write_stanza is_c2s buf e (web_socket_client_write ws) =
    feed_stanza (without_declaration buf) e is_c2s ws

-- `StanzaWrite::flush`
unfoldable pub flush_stanza : StanzaWrite → Outcome StanzaWrite
flush_stanza (async_write s) = flush s >>= λ t. ok (async_write t)
flush_stanza (web_socket_client_write ws) = ws_flush ws >>= λ w. ok (web_socket_client_write w)

-- what `next` comes to, the filter and the writer that it leaves, and the messages not yet read
pub record WsRead : Type 0 where
  pub result : Outcome (Option (Bytes × ℕ))
  pub filter : StanzaFilter
  pub writer : StanzaWrite
  pub rest : List Message

abbrev pub no_message : Ending → Error
no_message eof = websocket_ended
no_message broken = io_error

-- the pong, sent and flushed through the matching writer
unfoldable pub answer_ping : Bytes → StanzaWrite → Outcome WsWr
answer_ping m (async_write s) = err write_pair_mismatch
answer_ping m (web_socket_client_write ws) = feed (pong m) ws >>= ws_flush

abbrev stop : Error → StanzaFilter → StanzaWrite → List Message → WsRead
stop e f w rest = record { result = err e; filter = f; writer = w; rest = rest }

abbrev pub after_pong :
    Outcome WsWr → StanzaFilter → StanzaWrite → List Message → (StanzaWrite → WsRead) → WsRead
after_pong (ok ws) f w rest more = more (web_socket_client_write ws)
after_pong (err e) f w rest more = stop e f w rest
after_pong panic f w rest more = record { result = panic; filter = f; writer = w; rest = rest }

-- the stanza of a text, in the filter's buffer if it has the room; else the slice panics
unfoldable pub give_text : Bytes → StanzaFilter → StanzaWrite → List Message → WsRead
give_text stanza f w rest =
    if leb (length stanza) (length f.buf)
    then record {
      result = ok (some (stanza, 0));
      filter = record f { buf = stanza ++ drop (length stanza) f.buf };
      writer = w;
      rest = rest;
    }
    else record { result = panic; filter = f; writer = w; rest = rest }

-- `StanzaRead::next`, the arm of a websocket
unfoldable pub ws_next : StanzaFilter → List Message → Ending → StanzaWrite → WsRead
ws_next f [] ending w = stop (no_message ending) f w []
ws_next f (text s ∷ rest) ending w = give_text (from_ws s) f w rest
ws_next f (ping m ∷ rest) ending w =
    after_pong (answer_ping m w) f w rest (λ v. ws_next f rest ending v)
ws_next f (close cf ∷ rest) ending w = stop websocket_close f w rest
ws_next f (pong m ∷ rest) ending w = stop websocket_invalid f w rest
ws_next f (binary m ∷ rest) ending w = stop websocket_invalid f w rest
