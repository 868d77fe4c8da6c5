-- ===== src/Starttls.antt =====
-- src/tls/incoming.rs: what `handle_tls_connection` does up to the TLS handshake.
pub mod Dialogue
pub mod Upgrade
pub mod Total
pub mod Outgoing
use xmpp_proxy.Prelude.{
  ℕ, zero, suc, ◌≡◌, Bool, true, false, ◌&&◌, leb, ltb, ◌==◌, if◌then◌else◌, Bytes, codes, length,
  drop, set, starts_with, [], ◌∷◌, ◌++◌, Outcome, ok, err, panic, ◌>>=◌, bad_pre_tls,
  ended_before_open,
}
use xmpp_proxy.Slice.{contains_seq, replace_first}
use xmpp_proxy.Filter.{StanzaFilter, new, stream_open}
use xmpp_proxy.Filter.Reader.{Ending, eof, broken, emit_stanza}
use xmpp_proxy.Filter.Loops.{
  Round, go_on, leave, End, left, ended, failed, crashed, out_of_fuel, Looped, while_next,
}
use xmpp_proxy.Wire.{Sink, write_all, flush, write_flush, peek_bytes, no_more}

abbrev pub xml_open : Bytes
xml_open = codes "<?xml "

abbrev pub starttls_open : Bytes
starttls_open = codes "<starttls "

abbrev pub features : Bytes
features =
    codes
      "<stream:features><starttls xmlns=\"urn:ietf:params:xml:ns:xmpp-tls\"><required/></starttls></stream:features>"

abbrev pub proceed : Bytes
proceed = codes "<proceed xmlns=\"urn:ietf:params:xml:ns:xmpp-tls\" />"

abbrev with_id : Bytes → Bytes
with_id buf =
    replace_first (replace_first buf (codes " id='") (codes " id='xmpp-proxy")) (codes " id=\"")
      (codes " id=\"xmpp-proxy")

-- ` to=` becomes ` from=`, and ` from=` becomes ` to=`
abbrev swap : Bytes → Bytes → Bytes
swap from buf =
    replace_first
      (replace_first (replace_first buf (codes " to=") (codes " bla toblala=")) (codes " from=")
        (codes " to="))
      (codes " bla toblala=") from

-- the stream header sent back
unfoldable pub answer : Bytes → Bytes
answer buf =
    if contains_seq buf (codes "id=")
    then swap (codes " from=") (with_id buf)
    else swap (codes " id='xmpp-proxy' from=") buf

abbrev pub next_round : Outcome Sink → Round Sink (Outcome Sink)
next_round (ok s) = go_on s
next_round (err e) = leave (err e)
next_round panic = leave panic

-- the body of the loop; the writer is the state
unfoldable pub starttls_round : Sink → Bytes → Round Sink (Outcome Sink)
starttls_round s buf =
    if starts_with buf xml_open
    then next_round (write_flush buf s)
    else if starts_with buf stream_open
    then next_round (write_all (answer buf) s >>= write_flush features)
    else if starts_with buf starttls_open
    then leave (write_flush proceed s)
    else leave (err bad_pre_tls)

-- `if !proceed_sent { bail!("stream ended before open") }`
abbrev pub proceeded : End Sink (Outcome Sink) → Outcome Sink
proceeded (left r) = r
proceeded (ended s) = err ended_before_open
proceeded (failed e s) = err ended_before_open
proceeded crashed = panic
proceeded out_of_fuel = panic

abbrev pub starttls_loop : Sink → StanzaFilter → Bytes → Ending → Looped Sink (Outcome Sink)
starttls_loop s f src ending =
    while_next emit_stanza starttls_round (suc (length src)) s f src ending

-- the loop that drops what precedes the handshake, through the first place of the filter's buffer
unfoldable pub skip_to_handshake : StanzaFilter → Bytes → Ending → Outcome (Bytes × StanzaFilter)
skip_to_handshake f [] ending = if length f.buf == 0 then panic else no_more ending
skip_to_handshake f (b ∷ src) ending =
    let g = record f { buf = set f.buf 0 b } in
    let dropped = skip_to_handshake g src ending in
    if length f.buf == 0 then panic else if b == 22 then ok (b ∷ src, g) else dropped

-- what the handshake is started with
pub record Upgraded : Type 0 where
  pub sink : Sink
  pub rest : Bytes
  pub filter : StanzaFilter

abbrev pub is_hello : Bytes → Bool
is_hello (a ∷ b ∷ c ∷ _) = a == 22 && (b == 3 && leb c 3)
is_hello _ = false

unfoldable pub starttls : Sink → StanzaFilter → Bytes → Ending → Outcome Upgraded
starttls s f src ending =
    let l = starttls_loop s f src ending in
    proceeded l.end >>= λ t. skip_to_handshake l.filter l.rest ending >>= λ r.
    ok (record { sink = t; rest = r.0; filter = r.1 })

-- the new filter, whose buffer lends the peek its first places
abbrev pub sniffed : ℕ → Bytes → StanzaFilter
sniffed size p = record (new size) { buf = p ++ drop 3 (new size).buf }

-- behind the peek of `p`
unfoldable pub after_peek : ℕ → Sink → Bytes → Ending → Bytes → Outcome Upgraded
after_peek size s src ending p =
    if is_hello p
    then ok (record { sink = s; rest = src; filter = sniffed size p })
    else starttls s (sniffed size p) src ending

-- `handle_tls_connection`, up to `acceptor.accept(stream)`
unfoldable pub open_tls : ℕ → Sink → Bytes → Ending → Outcome Upgraded
open_tls max_stanza_size_bytes s src ending =
    if ltb max_stanza_size_bytes 3
    then panic
    else peek_bytes 3 src ending >>= after_peek max_stanza_size_bytes s src ending
