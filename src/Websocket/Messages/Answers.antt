-- ===== src/Websocket/Messages/Answers.antt =====
-- Which pings a call of `ws_next` answers, however it ends.
use xmpp_proxy.Prelude.{
  ◌≡◌, ◌≢◌, inl, inr, refl, sym, ap, subst, leb, Bool-cases, Bytes, length, List, [], ◌∷◌, ◌++◌,
  Outcome, ok, err, panic,
}
use xmpp_proxy.Filter.{StanzaFilter}
use xmpp_proxy.Filter.Reader.{Ending}
use xmpp_proxy.Websocket.Framing.{from_ws}
use xmpp_proxy.Websocket.Messages.{
  Message, text, ping, pong, binary, close, WsWr, StanzaWrite, web_socket_client_write, WsRead,
  answer_ping, after_pong, give_text, ws_next,
}
use xmpp_proxy.Websocket.Messages.Reads.{pongs, pings, SentAlso, SentAlso-none, SentAlso-pong}

abbrev IsPing : Message → Type 0
IsPing (ping m) = Unit
IsPing _ = ⊥

-- where a call stops answering: behind the last message, at one that is no ping, or at a ping that
-- the writer cannot answer
pub data StopsAt (w : StanzaWrite) : List Message → List Message → Type 0 where
  at_end : StopsAt w [] []
  at_message : {m : Message} {rest : List Message} → ¬ IsPing m → StopsAt w (m ∷ rest) rest
  at_ping :
      {m : Bytes} {rest : List Message}
      → ((ws : WsWr) → answer_ping m w ≢ ok ws)
      → StopsAt w (ping m ∷ rest) rest

-- A call has answered the first pings, each by its pong, and has sent nothing else.
pub record Answered (msgs : List Message) (w : StanzaWrite) (r : WsRead) : Type 0 where
  pub answered : List Bytes
  pub behind : List Message
  pub splits : msgs ≡ pings answered ++ behind
  pub stops : StopsAt r.writer behind r.rest
  pub sent : SentAlso w (pongs answered) r.writer

Answered-none :
    {msgs : List Message} {w : StanzaWrite} (r : WsRead)
    → r.writer ≡ w
    → StopsAt r.writer msgs r.rest
    → Answered msgs w r
Answered-none {msgs} {w} r e s = record {
  answered = [];
  behind = msgs;
  splits = refl;
  stops = s;
  sent = subst (λ v. SentAlso w [] v) (sym e) (SentAlso-none w);
}

after_pong-Answered :
    (m : Bytes) (f : StanzaFilter) (rest : List Message) (ending : Ending) (w : StanzaWrite)
    (o : Outcome WsWr)
    → answer_ping m w ≡ o
    → ((v : StanzaWrite) → Answered rest v (ws_next f rest ending v))
    → Answered (ping m ∷ rest) w (after_pong o f w rest (λ v. ws_next f rest ending v))
after_pong-Answered m f rest ending w (ok ws) e h =
    let v = web_socket_client_write ws in
    let a = h v in
    record {
      answered = m ∷ a.answered;
      behind = a.behind;
      splits = ap (◌∷◌ (ping m)) a.splits;
      stops = a.stops;
      sent = SentAlso-pong m w ws (pongs a.answered) (ws_next f rest ending v).writer e a.sent;
    }
after_pong-Answered m f rest ending w (err x) e h = Answered-none _ refl (at_ping (λ ws k. cc))
after_pong-Answered m f rest ending w panic e h = Answered-none _ refl (at_ping (λ ws k. cc))

-- However a call ends, it has answered the pings up to where it stops, and has sent nothing else.
pub ws_next-Answered :
    (f : StanzaFilter) (msgs : List Message) (ending : Ending) (w : StanzaWrite)
    → Answered msgs w (ws_next f msgs ending w)
unfolding ws_next give_text
ws_next-Answered f [] ending w = Answered-none _ refl at_end
ws_next-Answered f (text s ∷ rest) ending w =
    elim (Bool-cases (leb (length (from_ws s)) (length f.buf))) [
      | inl fits ↦ rw fits (Answered-none _ refl (at_message (λ x. x)))
      | inr long ↦ rw long (Answered-none _ refl (at_message (λ x. x)))
    ]
ws_next-Answered f (ping m ∷ rest) ending w =
    after_pong-Answered m f rest ending w (answer_ping m w) refl
      (λ v. ws_next-Answered f rest ending v)
ws_next-Answered f (pong m ∷ rest) ending w = Answered-none _ refl (at_message (λ x. x))
ws_next-Answered f (binary m ∷ rest) ending w = Answered-none _ refl (at_message (λ x. x))
ws_next-Answered f (close m ∷ rest) ending w = Answered-none _ refl (at_message (λ x. x))
