-- ===== src/Session/Opens.antt =====
-- `stream_preamble` over a stream of bytes or a websocket.
use xmpp_proxy.Prelude.{
  ℕ, zero, suc, ◌<◌, ◌≡◌, inl, inr, refl, ap, ◌∙◌, subst, true, false, Bool-cases, Bytes, length,
  length-append, starts_with, List, [], ◌∷◌, ◌++◌, append_assoc, Error, Option, none, some, Outcome,
  ok, err, panic, ok-inj, bad_preamble, ended_before_open, arith,
}
use xmpp_proxy.Filter.{StanzaFilter, stream_open}
use xmpp_proxy.Filter.Reader.{Ending, emit_eoft, next_eoft}
use xmpp_proxy.Filter.Loops.{Shorter, read_loop-Shorter}
use xmpp_proxy.Preamble.{
  Opening, is_client, preamble_round, opened, at_header, behind_declaration, Continues,
}
use xmpp_proxy.Starttls.{xml_open}
use xmpp_proxy.Websocket.Messages.{Message, text, StanzaWrite, ws_next}
use xmpp_proxy.Websocket.Messages.Reads.{ws_next-GivesText, pings}
use xmpp_proxy.Session.{
  StanzaRead, async_read, web_socket_read, Peer, next_by, next_stanza, left_of, Opens, by_round,
  by_stanza, preamble_loop, open_stream,
}

-- a call that gives a stanza has read something
abbrev Reads : Outcome (Option (Bytes × ℕ)) → StanzaRead → StanzaRead → Type 0
Reads (ok (some a)) rest reader = left_of rest < left_of reader
Reads (ok none) rest reader = Unit
Reads (err e) rest reader = Unit
Reads panic rest reader = Unit

bytes-Reads :
    (o : Outcome (Option (Bytes × ℕ))) (rest src : Bytes) (ending : Ending)
    → Shorter o rest src
    → Reads o (async_read rest ending) (async_read src ending)
bytes-Reads (ok (some a)) rest src ending h = h
bytes-Reads (ok none) rest src ending h = tt
bytes-Reads (err e) rest src ending h = tt
bytes-Reads panic rest src ending h = tt

messages-Reads :
    (f : StanzaFilter) (msgs : List Message) (ending : Ending) (w : StanzaWrite)
    (o : Outcome (Option (Bytes × ℕ)))
    → (ws_next f msgs ending w).result ≡ o
    → Reads o (web_socket_read (ws_next f msgs ending w).rest ending) (web_socket_read msgs ending)
messages-Reads f msgs ending w (ok (some (stanza, e))) h =
    let g = ws_next-GivesText f msgs ending w stanza e h in
    let rest = (ws_next f msgs ending w).rest in
    omega (arith, ap length g.splits, length-append (pings g.answered) (text g.message ∷ rest))
messages-Reads f msgs ending w (ok none) h = tt
messages-Reads f msgs ending w (err e) h = tt
messages-Reads f msgs ending w panic h = tt

next_by-Reads :
    (r : StanzaRead) (f : StanzaFilter) (w : StanzaWrite)
    → Reads (next_by r f w).0 (next_by r f w).1.reader r
unfolding next_by next_eoft
next_by-Reads (async_read src ending) f w =
    bytes-Reads (next_eoft f src ending).result (next_eoft f src ending).rest src ending
      (read_loop-Shorter emit_eoft f src ending)
next_by-Reads (web_socket_read msgs ending) f w =
    messages-Reads f msgs ending w (ws_next f msgs ending w).result refl

-- What the reader of a peer gives, call after call, up to the end of the preamble, with the text so
-- far: what the preamble comes to, and the peer behind the last call.
pub data IsRun : Bytes → Peer → Outcome Opening → Peer → Type 0 where
  run_ends :
      {so_far : Bytes} {p : Peer}
      → (next_stanza p).0 ≡ ok none
      → IsRun so_far p (err ended_before_open) (next_stanza p).1
  run_fails :
      {so_far : Bytes} {p : Peer} {e : Error}
      → (next_stanza p).0 ≡ err e
      → IsRun so_far p (err ended_before_open) (next_stanza p).1
  run_crashes :
      {so_far : Bytes} {p : Peer}
      → (next_stanza p).0 ≡ panic
      → IsRun so_far p panic (next_stanza p).1
  run_declaration :
      {so_far buf : Bytes} {p q : Peer} {eoft : ℕ} {o : Outcome Opening}
      → (next_stanza p).0 ≡ ok (some (buf, eoft))
      → starts_with buf xml_open ≡ true
      → IsRun (so_far ++ buf) (next_stanza p).1 o q
      → IsRun so_far p o q
  run_header :
      {so_far buf : Bytes} {p : Peer} {eoft : ℕ}
      → (next_stanza p).0 ≡ ok (some (buf, eoft))
      → starts_with buf stream_open ≡ true
      → IsRun so_far p (ok (so_far ++ buf, is_client buf)) (next_stanza p).1
  run_other :
      {so_far buf : Bytes} {p : Peer} {eoft : ℕ}
      → (next_stanza p).0 ≡ ok (some (buf, eoft))
      → starts_with buf xml_open ≡ false
      → starts_with buf stream_open ≡ false
      → IsRun so_far p (err bad_preamble) (next_stanza p).1

abbrev RunBy : Bytes → Peer → Opens → Type 0
RunBy s p r = IsRun s p (opened r.0) r.1

by_round-RunBy :
    (s : Bytes) (p : Peer) (buf : Bytes) (eoft : ℕ) (more : Bytes → Opens)
    → (next_stanza p).0 ≡ ok (some (buf, eoft))
    → ((t : Bytes) → RunBy t (next_stanza p).1 (more t))
    → RunBy s p (by_round (preamble_round s (buf, eoft)) (next_stanza p).1 more)
unfolding preamble_round
by_round-RunBy s p buf eoft more q h = elim (Bool-cases (starts_with buf xml_open)) [
  | inl x ↦ rw x (run_declaration q x (h (s ++ buf)))
  | inr n ↦ elim (Bool-cases (starts_with buf stream_open)) [
    | inl o ↦ rw (n, o) (run_header q o)
    | inr m ↦ rw (n, m) (run_other q n m)
  ]
]

by_stanza-RunBy :
    (s : Bytes) (p : Peer) (o : Outcome (Option (Bytes × ℕ))) (more : Bytes → Opens)
    → (next_stanza p).0 ≡ o
    → Reads o (next_stanza p).1.reader p.reader
    → (left_of (next_stanza p).1.reader < left_of p.reader
        → (t : Bytes) → RunBy t (next_stanza p).1 (more t))
    → RunBy s p (by_stanza o (next_stanza p).1 s more)
by_stanza-RunBy s p (ok (some (buf, eoft))) more q l h = by_round-RunBy s p buf eoft more q (h l)
by_stanza-RunBy s p (ok none) more q l h = run_ends q
by_stanza-RunBy s p (err e) more q l h = run_fails q
by_stanza-RunBy s p panic more q l h = run_crashes q

-- With fuel above what is left to read the loop comes to an end.
preamble_loop-RunBy :
    (fuel : ℕ) (p : Peer) (s : Bytes) → left_of p.reader < fuel → RunBy s p (preamble_loop fuel p s)
unfolding preamble_loop
preamble_loop-RunBy zero p s h = absurd (omega arith)
preamble_loop-RunBy (suc fuel) p s h =
    by_stanza-RunBy s p (next_stanza p).0 (λ t. preamble_loop fuel (next_stanza p).1 t) refl
      (next_by-Reads p.reader p.filter p.writer)
      (λ l t. preamble_loop-RunBy fuel (next_stanza p).1 t (omega arith))

pub open_stream-IsRun : (p : Peer) → IsRun [] p (open_stream p).0 (open_stream p).1
unfolding open_stream
open_stream-IsRun p = preamble_loop-RunBy (suc (left_of p.reader)) p [] (omega arith)

-- The reader gives the stanzas one after another, and leaves the peer behind the last of them.
pub data GivenBy : Peer → List (Bytes × ℕ) → Peer → Type 0 where
  none_given : {p : Peer} → GivenBy p [] p
  one_given :
      {p q : Peer} {a : Bytes × ℕ} {given : List (Bytes × ℕ)}
      → (next_stanza p).0 ≡ ok (some a)
      → GivenBy (next_stanza p).1 given q
      → GivenBy p (a ∷ given) q

-- the stanzas behind a preamble that is taken, and no other
record Collected (s : Bytes) (p : Peer) (o : Opening) (q : Peer) : Type 0 where
  given : List (Bytes × ℕ)
  from_reader : GivenBy p given q
  text : Continues s given o

IsRun-Collected :
    {s : Bytes} {p q : Peer} {r : Outcome Opening} (o : Opening)
    → IsRun s p r q
    → r ≡ ok o
    → Collected s p o q
IsRun-Collected o (run_ends e) h = cc
IsRun-Collected o (run_fails e) h = cc
IsRun-Collected o (run_crashes e) h = cc
IsRun-Collected o (run_other e n m) h = cc
IsRun-Collected {s} {p} o (run_header {buf} {eoft} e x) h =
    subst (λ u. Collected s p u (next_stanza p).1) (ok-inj h)
      (record {
        given = (buf, eoft) ∷ [];
        from_reader = one_given e none_given;
        text = record { out = buf; preamble = at_header x; collected = refl };
      })
IsRun-Collected {s} o (run_declaration {buf} {eoft} e x more) h =
    let c = IsRun-Collected o more h in
    record {
      given = (buf, eoft) ∷ c.given;
      from_reader = one_given e c.from_reader;
      text = record {
        out = buf ++ c.text.out;
        preamble = behind_declaration x c.text.preamble;
        collected = c.text.collected ∙ append_assoc s buf c.text.out;
      };
    }

-- what `open_stream` succeeds on: declarations and then a header, with nothing read behind it
pub record IsOpened (p : Peer) (o : Opening) (q : Peer) : Type 0 where
  pub given : List (Bytes × ℕ)
  pub from_reader : GivenBy p given q
  pub text : Continues [] given o

pub open_stream-IsOpened :
    (p : Peer) (o : Opening) → (open_stream p).0 ≡ ok o → IsOpened p o (open_stream p).1
open_stream-IsOpened p o h =
    let c = IsRun-Collected o (open_stream-IsRun p) h in
    record { given = c.given; from_reader = c.from_reader; text = c.text }
