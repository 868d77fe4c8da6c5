-- ===== src/Relay/Peers/Sent.antt =====
-- What a reader gives and a writer is sent, call after call.
use xmpp_proxy.Prelude.{ℕ, ◌≡◌, Bool, Bytes, Error, List, [], ◌∷◌, ◌++◌, some, ok, err}
use xmpp_proxy.Filter.{StanzaFilter}
use xmpp_proxy.Filter.Reader.{Ending}
use xmpp_proxy.Session.{StanzaRead, async_read, web_socket_read, next_by}
use xmpp_proxy.Websocket.Messages.{Message, StanzaWrite}
use xmpp_proxy.Websocket.Messages.Reads.{SentAlso, SentAlso-none, pings, pongs}
use xmpp_proxy.Websocket.Messages.Answers.{StopsAt, ws_next-Answered}
use xmpp_proxy.Websocket.Messages.Writes.{Sends}

-- A call of a reader has taken the pings `ms` from it, which are those before the message, the end of
-- the stream or the ping that cannot be answered, where it stopped.
pub data Took : StanzaRead → List Bytes → StanzaWrite → StanzaRead → Type 0 where
  took_none :
      {src rest : Bytes} {ending : Ending} {w : StanzaWrite}
      → Took (async_read src ending) [] w (async_read rest ending)
  took_pings :
      {msgs behind rest : List Message} {ms : List Bytes} {ending : Ending} {w : StanzaWrite}
      → msgs ≡ pings ms ++ behind
      → StopsAt w behind rest
      → Took (web_socket_read msgs ending) ms w (web_socket_read rest ending)

-- Calls of a reader one after another give the stanzas, in order, and take the pings `ms`; some of
-- the calls may fail.
pub data Gave
    : StanzaRead
      → StanzaFilter
      → List (Bytes × ℕ)
      → List Bytes
      → StanzaRead
      → StanzaFilter
      → Type 0 where
  gave_none : {r : StanzaRead} {f : StanzaFilter} → Gave r f [] [] r f
  gave_stanza :
      {r s : StanzaRead} {f g : StanzaFilter} {a : Bytes × ℕ} {given : List (Bytes × ℕ)}
      {ms more : List Bytes} (w : StanzaWrite)
      → (next_by r f w).0 ≡ ok (some a)
      → Took r ms (next_by r f w).1.writer (next_by r f w).1.reader
      → Gave (next_by r f w).1.reader (next_by r f w).1.filter given more s g
      → Gave r f (a ∷ given) (ms ++ more) s g
  gave_error :
      {r s : StanzaRead} {f g : StanzaFilter} {e : Error} {given : List (Bytes × ℕ)}
      {ms more : List Bytes} (w : StanzaWrite)
      → (next_by r f w).0 ≡ err e
      → Took r ms (next_by r f w).1.writer (next_by r f w).1.reader
      → Gave (next_by r f w).1.reader (next_by r f w).1.filter given more s g
      → Gave r f given (ms ++ more) s g

-- A writer has sent the stanzas, in order, and the pongs of the pings, in order, between them.
pub data Wrote (is_c2s : Bool)
    : StanzaWrite → List (Bytes × ℕ) → List Bytes → StanzaWrite → Type 0 where
  wrote_none : {w : StanzaWrite} → Wrote is_c2s w [] [] w
  wrote_stanza :
      {w v u : StanzaWrite} {buf : Bytes} {eoft : ℕ} {given : List (Bytes × ℕ)} {ms : List Bytes}
      → Sends is_c2s buf eoft w v
      → Wrote is_c2s v given ms u
      → Wrote is_c2s w ((buf, eoft) ∷ given) ms u
  wrote_pongs :
      {w v u : StanzaWrite} {given : List (Bytes × ℕ)} {more : List Bytes} (ms : List Bytes)
      → SentAlso w (pongs ms) v
      → Wrote is_c2s v given more u
      → Wrote is_c2s w given (ms ++ more) u

-- what a call takes and answers
pub record Answers (r : StanzaRead) (w : StanzaWrite) (v : StanzaWrite) (s : StanzaRead)
    : Type 0 where
  pub taken : List Bytes
  pub took : Took r taken v s
  pub sent : SentAlso w (pongs taken) v

pub next_by-Answers :
    (r : StanzaRead) (f : StanzaFilter) (w : StanzaWrite)
    → Answers r w (next_by r f w).1.writer (next_by r f w).1.reader
unfolding next_by
next_by-Answers (async_read src ending) f w = record {
  taken = [];
  took = took_none;
  sent = SentAlso-none w;
}
next_by-Answers (web_socket_read msgs ending) f w =
    let a = ws_next-Answered f msgs ending w in
    record { taken = a.answered; took = took_pings a.splits a.stops; sent = a.sent }
