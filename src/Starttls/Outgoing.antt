-- ===== src/Starttls/Outgoing.antt =====
-- src/tls/outgoing.rs: `starttls_connect`, up to the TLS handshake, over a connection that is open.
use xmpp_proxy.Prelude.{
  suc, ◌≡◌, ◌⊎◌, inl, inr, refl, sym, ap, ◌∙◌, subst, true, ◌||◌, Bool-cases, if◌then◌else◌, Bytes,
  codes, length, starts_with, List, [], ◌∷◌, ◌++◌, append-nil, append_assoc, Outcome, ok, err,
  panic, ◌>>=◌, ok-of_>>=, bad_pre_tls, ended_before_proceed, arith,
}
use xmpp_proxy.Filter.{StanzaFilter, stream_open}
use xmpp_proxy.Filter.Reader.{Ending, emit_stanza}
use xmpp_proxy.Filter.Loops.{
  Round, go_on, leave, End, left, ended, failed, crashed, out_of_fuel, while_next,
}
use xmpp_proxy.Filter.Loops.Runs.{
  Given, Runs, at_end, at_error, at_panic, at_leave, at_round, while_next-HasRun,
}
use xmpp_proxy.Wire.{Sink, write_flush, write_flush-sent}
use xmpp_proxy.Starttls.{xml_open, next_round}

abbrev pub request_tls : Bytes
request_tls = codes "<starttls xmlns='urn:ietf:params:xml:ns:xmpp-tls'/>"

unfoldable pub connect_round : Sink → Bytes → Round Sink (Outcome Sink)
connect_round s buf =
    if starts_with buf xml_open || starts_with buf stream_open
    then go_on s
    else if starts_with buf (codes "<stream:features")
    then next_round (write_flush request_tls s)
    else if starts_with buf (codes "<proceed ")
    then leave (ok s)
    else leave (err bad_pre_tls)

-- `if !proceed_received { bail!("stream ended before proceed") }`
abbrev pub received : End Sink (Outcome Sink) → Outcome Sink
received (left r) = r
received (ended s) = err ended_before_proceed
received (failed e s) = err ended_before_proceed
received crashed = panic
received out_of_fuel = panic

abbrev answers_of : StanzaFilter → Bytes → Ending → Sink → Outcome Sink
answers_of f src ending s =
    received (while_next emit_stanza connect_round (suc (length src)) s f src ending).end

unfoldable pub starttls_connect : Bytes → StanzaFilter → Sink → Bytes → Ending → Outcome Sink
starttls_connect header f s src ending = write_flush header s >>= answers_of f src ending

abbrev left_by : Outcome Sink → StanzaFilter → Bytes → Ending → StanzaFilter × Bytes
left_by (ok s) f src ending =
    let run = while_next emit_stanza connect_round (suc (length src)) s f src ending in
    (run.filter, run.rest)
left_by (err e) f src ending = (f, src)
left_by panic f src ending = (f, src)

-- the filter behind the dialogue, and the bytes that were not read
unfoldable pub starttls_left : Bytes → StanzaFilter → Sink → Bytes → Ending → StanzaFilter × Bytes
starttls_left header f s src ending = left_by (write_flush header s) f src ending

-- The server's side up to `<proceed`; `out` is what it is sent.
pub data IsOffer : List Bytes → Bytes → Type 0 where
  accepts : {buf : Bytes} → starts_with buf (codes "<proceed ") ≡ true → IsOffer (buf ∷ []) []
  greets :
      {buf out : Bytes} {bufs : List Bytes}
      → (starts_with buf xml_open || starts_with buf stream_open) ≡ true
      → IsOffer bufs out
      → IsOffer (buf ∷ bufs) out
  offers :
      {buf out : Bytes} {bufs : List Bytes}
      → starts_with buf (codes "<stream:features") ≡ true
      → IsOffer bufs out
      → IsOffer (buf ∷ bufs) (request_tls ++ out)

-- what a round does that ends well
abbrev Replies : Sink → Bytes → Round Sink (Outcome Sink) → Type 0
Replies s buf (leave (ok t)) = (starts_with buf (codes "<proceed ") ≡ true) × (t ≡ s)
Replies s buf (leave (err e)) = Unit
Replies s buf (leave panic) = Unit
Replies s buf (go_on t) =
    (((starts_with buf xml_open || starts_with buf stream_open) ≡ true) × (t ≡ s))
    ⊎ ((starts_with buf (codes "<stream:features") ≡ true) × (t.sent ≡ s.sent ++ request_tls))

offered-Replies :
    (s : Sink) (buf : Bytes) (o : Outcome Sink)
    → starts_with buf (codes "<stream:features") ≡ true
    → write_flush request_tls s ≡ o
    → Replies s buf (next_round o)
offered-Replies s buf (ok t) h e = inr (h, write_flush-sent request_tls s t (sym e))
offered-Replies s buf (err _) h e = tt
offered-Replies s buf panic h e = tt

connect_round-Replies : (s : Sink) (buf : Bytes) → Replies s buf (connect_round s buf)
unfolding connect_round
connect_round-Replies s buf =
    elim (Bool-cases (starts_with buf xml_open || starts_with buf stream_open)) [
      | inl g ↦ rw g (inl (g, refl))
      | inr n ↦ elim (Bool-cases (starts_with buf (codes "<stream:features"))) [
        | inl h ↦ rw (n, h) (offered-Replies s buf (write_flush request_tls s) h refl)
        | inr m ↦ elim (Bool-cases (starts_with buf (codes "<proceed "))) [
          | inl p ↦ rw (n, m, p) (p, refl)
          | inr k ↦ rw (n, m, k) tt
        ]
      ]
    ]

Runs-IsOffer :
    {s t : Sink} {bufs : List Bytes} {e : End Sink (Outcome Sink)}
    → Runs connect_round s bufs e
    → received e ≡ ok t
    → (out : Bytes) × IsOffer bufs out × (t.sent ≡ s.sent ++ out)
Runs-IsOffer at_end h = cc
Runs-IsOffer at_error h = cc
Runs-IsOffer at_panic h = cc
Runs-IsOffer {s} {t} (at_leave {a = buf} {r = r} e) h =
    let (p, same) =
      subst (λ o. Replies s buf (leave o)) h
        (subst (Replies s buf) e (connect_round-Replies s buf)) in
    ([], accepts p, ap (λ u. u.sent) same ∙ sym (append-nil s.sent))
Runs-IsOffer {s} {t} (at_round {t = u} {a = buf} e more) h =
    let (out, d, sent) = Runs-IsOffer more h in
    elim (subst (Replies s buf) e (connect_round-Replies s buf)) [
      | inl (x, same) ↦ (out, greets x d, sent ∙ ap (λ v. v.sent ++ out) same)
      | inr (x, w) ↦ (
        request_tls ++ out,
        offers x d,
        sent ∙ ap (λ v. v ++ out) w ∙ append_assoc s.sent request_tls out,
      )
    ]

-- A connection goes on with TLS only if the stanzas that its server gave end in `<proceed`, and
-- before it are declarations, headers and features. Nothing was sent but the header and a request
-- for TLS for each features, whether or not they offer it.
pub starttls_connect-IsOffer :
    (header : Bytes) (f : StanzaFilter) (s : Sink) (src : Bytes) (ending : Ending) (t : Sink)
    → starttls_connect header f s src ending ≡ ok t
    → (bufs : List Bytes) × (out : Bytes) × Given emit_stanza ending f src bufs
      × IsOffer bufs out
      × (t.sent ≡ s.sent ++ (header ++ out))
unfolding starttls_connect
starttls_connect-IsOffer header f s src ending t h =
    let (u, h₁, e) = ok-of_>>= (answers_of f src ending) (write_flush header s) (sym h) in
    let run =
      while_next-HasRun emit_stanza connect_round (suc (length src)) u f src ending (omega arith) in
    let (out, d, sent) = Runs-IsOffer run.runs (sym h₁) in
    (
      run.given,
      out,
      run.from_stream,
      d,
      sent
          ∙ ap (λ v. v ++ out) (write_flush-sent header s u (sym e))
          ∙ append_assoc s.sent header out,
    )
