-- ===== src/Websocket/Messages/Reads.antt =====
-- What a call of `ws_next` reads and answers.
use xmpp_proxy.Prelude.{
  ℕ, zero, suc, ◌≡◌, inl, inr, refl, sym, ap, ◌∙◌, subst, leb, Bool-cases, Bytes, length, List, [],
  ◌∷◌, ◌++◌, append-nil, append_assoc, Option, none, some, Outcome, ok, err, panic, ok-of_>>=,
}
use xmpp_proxy.Filter.{StanzaFilter}
use xmpp_proxy.Filter.Reader.{Ending}
use xmpp_proxy.Websocket.Framing.{from_ws}
use xmpp_proxy.Websocket.Messages.{
  Message, text, ping, pong, binary, close, WsWr, StanzaWrite, async_write, web_socket_client_write,
  feed_left, feed, ws_flush, WsRead, answer_ping, after_pong, give_text, ws_next,
}

-- the messages behind each ping of a run
abbrev pub pongs : List Bytes → List Message
pongs [] = []
pongs (m ∷ ms) = pong m ∷ pongs ms

abbrev pub pings : List Bytes → List Message
pings [] = []
pings (m ∷ ms) = ping m ∷ pings ms

-- `w` with further messages sent
abbrev pub SentAlso : StanzaWrite → List Message → StanzaWrite → Type 0
SentAlso (async_write s) ms w = (ms ≡ []) × (w ≡ async_write s)
SentAlso (web_socket_client_write ws) ms (async_write s) = ⊥
SentAlso (web_socket_client_write ws) ms (web_socket_client_write w) = w.sent ≡ ws.sent ++ ms

-- Pings, each answered, and then the text of the stanza.
pub record GivesText (msgs : List Message) (w : StanzaWrite) (stanza : Bytes) (r : WsRead)
    : Type 0 where
  pub answered : List Bytes
  pub message : Bytes
  pub splits : msgs ≡ pings answered ++ (text message ∷ r.rest)
  pub is_stanza : stanza ≡ from_ws message
  pub sent : SentAlso w (pongs answered) r.writer

pub feed_left-sent :
    (n : ℕ) (sent : List Message) (ws : WsWr) → ok ws ≡ feed_left n sent → ws.sent ≡ sent
feed_left-sent zero sent ws h = cc
feed_left-sent (suc n) sent ws h = cc

pub SentAlso-none : (w : StanzaWrite) → SentAlso w [] w
SentAlso-none (async_write s) = (refl, refl)
SentAlso-none (web_socket_client_write ws) = sym (append-nil ws.sent)

pub SentAlso-pong :
    (m : Bytes) (w : StanzaWrite) (ws : WsWr) (ms : List Message) (v : StanzaWrite)
    → answer_ping m w ≡ ok ws
    → SentAlso (web_socket_client_write ws) ms v
    → SentAlso w (pong m ∷ ms) v
unfolding answer_ping
SentAlso-pong m (async_write s) ws ms v h k = cc
SentAlso-pong m (web_socket_client_write w) ws ms (async_write s) h k = k
SentAlso-pong m (web_socket_client_write w) ws ms (web_socket_client_write v) h k =
    let (u, h₁, e) = ok-of_>>= ws_flush (feed (pong m) w) (sym h) in
    k
    ∙ ap (λ x. x ++ ms)
        (feed_left-sent u.calls u.sent ws h₁
          ∙ feed_left-sent w.calls (w.sent ++ pong m ∷ []) u (sym e))
    ∙ append_assoc w.sent (pong m ∷ []) ms

abbrev Gives : List Message → StanzaWrite → Outcome (Option (Bytes × ℕ)) → WsRead → Type 0
Gives msgs w (ok (some (stanza, e))) r = (e ≡ 0) × GivesText msgs w stanza r
Gives msgs w (ok none) r = ⊥
Gives msgs w (err e) r = Unit
Gives msgs w panic r = Unit

give_text-Gives :
    (s : Bytes) (f : StanzaFilter) (w : StanzaWrite) (rest : List Message)
    → Gives
        (text s ∷ rest)
        w
        (give_text (from_ws s) f w rest).result
        (give_text (from_ws s) f w rest)
unfolding give_text
give_text-Gives s f w rest = elim (Bool-cases (leb (length (from_ws s)) (length f.buf))) [
  | inl fits ↦ rw fits (
    refl,
    record { answered = []; message = s; splits = refl; is_stanza = refl; sent = SentAlso-none w },
  )
  | inr long ↦ rw long tt
]

Gives-behind_ping :
    (m : Bytes) (msgs : List Message) (w : StanzaWrite) (ws : WsWr)
    (o : Outcome (Option (Bytes × ℕ))) (r : WsRead)
    → answer_ping m w ≡ ok ws
    → Gives msgs (web_socket_client_write ws) o r
    → Gives (ping m ∷ msgs) w o r
Gives-behind_ping m msgs w ws (ok (some (stanza, e))) r h (z, g) = (
  z,
  record {
    answered = m ∷ g.answered;
    message = g.message;
    splits = ap (◌∷◌ (ping m)) g.splits;
    is_stanza = g.is_stanza;
    sent = SentAlso-pong m w ws (pongs g.answered) r.writer h g.sent;
  },
)
Gives-behind_ping m msgs w ws (ok none) r h g = g
Gives-behind_ping m msgs w ws (err e) r h g = tt
Gives-behind_ping m msgs w ws panic r h g = tt

after_pong-Gives :
    (m : Bytes) (f : StanzaFilter) (rest : List Message) (ending : Ending) (w : StanzaWrite)
    (o : Outcome WsWr)
    → answer_ping m w ≡ o
    → ((v : StanzaWrite) → Gives rest v (ws_next f rest ending v).result (ws_next f rest ending v))
    → Gives
        (ping m ∷ rest)
        w
        (after_pong o f w rest (λ v. ws_next f rest ending v)).result
        (after_pong o f w rest (λ v. ws_next f rest ending v))
after_pong-Gives m f rest ending w (ok ws) e h =
    let v = web_socket_client_write ws in
    Gives-behind_ping m rest w ws (ws_next f rest ending v).result (ws_next f rest ending v) e (h v)
after_pong-Gives m f rest ending w (err _) e h = tt
after_pong-Gives m f rest ending w panic e h = tt

ws_next-Gives :
    (f : StanzaFilter) (msgs : List Message) (ending : Ending) (w : StanzaWrite)
    → Gives msgs w (ws_next f msgs ending w).result (ws_next f msgs ending w)
unfolding ws_next
ws_next-Gives f [] ending w = tt
ws_next-Gives f (text s ∷ rest) ending w = give_text-Gives s f w rest
ws_next-Gives f (ping m ∷ rest) ending w =
    after_pong-Gives m f rest ending w (answer_ping m w) refl (λ v. ws_next-Gives f rest ending v)
ws_next-Gives f (pong m ∷ rest) ending w = tt
ws_next-Gives f (binary m ∷ rest) ending w = tt
ws_next-Gives f (close m ∷ rest) ending w = tt

-- A stanza read from a websocket is the converted text of the first message that is no ping; each
-- ping before it was answered by its pong, in order, through the writer, which sent nothing else.
pub ws_next-GivesText :
    (f : StanzaFilter) (msgs : List Message) (ending : Ending) (w : StanzaWrite) (stanza : Bytes)
    (e : ℕ)
    → (ws_next f msgs ending w).result ≡ ok (some (stanza, e))
    → GivesText msgs w stanza (ws_next f msgs ending w)
ws_next-GivesText f msgs ending w stanza e h =
    (subst (λ o. Gives msgs w o (ws_next f msgs ending w)) h (ws_next-Gives f msgs ending w)).1
