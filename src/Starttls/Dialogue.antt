-- ===== src/Starttls/Dialogue.antt =====
-- The stanzas exchanged before TLS: what may come, and what is sent back.
use xmpp_proxy.Prelude.{
  ◌≡◌, ◌⊎◌, inl, inr, refl, sym, ap, ◌∙◌, subst, true, Bool-cases, Bytes, starts_with, List, [],
  ◌∷◌, ◌++◌, append_assoc, Outcome, ok, err, panic, ◌>>=◌, ok-of_>>=,
}
use xmpp_proxy.Filter.{stream_open}
use xmpp_proxy.Filter.Loops.{Round, go_on, leave, End}
use xmpp_proxy.Filter.Loops.Runs.{Runs, at_end, at_error, at_panic, at_leave, at_round}
use xmpp_proxy.Wire.{Sink, write_all, write_flush, write_flush-sent, write_all-sent}
use xmpp_proxy.Starttls.{
  xml_open, starttls_open, features, proceed, answer, next_round, starttls_round, proceeded,
}

-- Declarations and stream headers, and then the request for TLS; `out` is what they are answered
-- with.
pub data IsDialogue : List Bytes → Bytes → Type 0 where
  request : {buf : Bytes} → starts_with buf starttls_open ≡ true → IsDialogue (buf ∷ []) proceed
  declaration :
      {buf out : Bytes} {bufs : List Bytes}
      → starts_with buf xml_open ≡ true
      → IsDialogue bufs out
      → IsDialogue (buf ∷ bufs) (buf ++ out)
  header :
      {buf out : Bytes} {bufs : List Bytes}
      → starts_with buf stream_open ≡ true
      → IsDialogue bufs out
      → IsDialogue (buf ∷ bufs) ((answer buf ++ features) ++ out)

-- what a round does that ends well
abbrev Answers : Sink → Bytes → Round Sink (Outcome Sink) → Type 0
Answers s buf (leave (ok t)) = (starts_with buf starttls_open ≡ true) × (t.sent ≡ s.sent ++ proceed)
Answers s buf (leave (err e)) = Unit
Answers s buf (leave panic) = Unit
Answers s buf (go_on t) =
    ((starts_with buf xml_open ≡ true) × (t.sent ≡ s.sent ++ buf))
    ⊎ ((starts_with buf stream_open ≡ true) × (t.sent ≡ s.sent ++ (answer buf ++ features)))

next_round-Answers :
    (s : Sink) (buf : Bytes) (o : Outcome Sink)
    → ((t : Sink) → ok t ≡ o → Answers s buf (go_on t))
    → Answers s buf (next_round o)
next_round-Answers s buf (ok t) h = h t refl
next_round-Answers s buf (err e) h = tt
next_round-Answers s buf panic h = tt

leave-Answers :
    (s : Sink) (buf : Bytes) (o : Outcome Sink)
    → ((t : Sink) → ok t ≡ o → Answers s buf (leave (ok t)))
    → Answers s buf (leave o)
leave-Answers s buf (ok t) h = h t refl
leave-Answers s buf (err e) h = tt
leave-Answers s buf panic h = tt

header-sent :
    (buf : Bytes) (s t : Sink)
    → ok t ≡ (write_all (answer buf) s >>= write_flush features)
    → t.sent ≡ s.sent ++ (answer buf ++ features)
header-sent buf s t h =
    let (u, e, w) = ok-of_>>= (write_flush features) (write_all (answer buf) s) h in
    write_flush-sent features u t e
    ∙ ap (λ x. x ++ features) (write_all-sent (answer buf) s u (sym w))
    ∙ append_assoc s.sent (answer buf) features

starttls_round-Answers : (s : Sink) (buf : Bytes) → Answers s buf (starttls_round s buf)
unfolding starttls_round
starttls_round-Answers s buf = elim (Bool-cases (starts_with buf xml_open)) [
  | inl x ↦
      rw x
        (next_round-Answers s buf (write_flush buf s) (λ t e. inl (x, write_flush-sent buf s t e)))
  | inr not_xml ↦ elim (Bool-cases (starts_with buf stream_open)) [
    | inl h ↦
        rw (not_xml, h)
          (next_round-Answers s buf (write_all (answer buf) s >>= write_flush features)
            (λ t e. inr (h, header-sent buf s t e)))
    | inr not_stream ↦ elim (Bool-cases (starts_with buf starttls_open)) [
      | inl a ↦
          rw (not_xml, not_stream, a)
            (leave-Answers s buf (write_flush proceed s)
              (λ t e. (a, write_flush-sent proceed s t e)))
      | inr not_starttls ↦ rw (not_xml, not_stream, not_starttls) tt
    ]
  ]
]

-- the dialogue behind a stanza that was answered
behind :
    (s u t : Sink) (sent out : Bytes)
    → u.sent ≡ s.sent ++ sent
    → t.sent ≡ u.sent ++ out
    → t.sent ≡ s.sent ++ (sent ++ out)
behind s u t sent out h k = k ∙ ap (λ x. x ++ out) h ∙ append_assoc s.sent sent out

-- A loop that ends well was a dialogue, and sent its answers and no more.
pub Runs-IsDialogue :
    {s t : Sink} {bufs : List Bytes} {e : End Sink (Outcome Sink)}
    → Runs starttls_round s bufs e
    → proceeded e ≡ ok t
    → (out : Bytes) × IsDialogue bufs out × (t.sent ≡ s.sent ++ out)
Runs-IsDialogue at_end h = cc
Runs-IsDialogue at_error h = cc
Runs-IsDialogue at_panic h = cc
Runs-IsDialogue {s} {t} (at_leave {a = buf} {r = r} e) h =
    let (a, sent) =
      subst (λ o. Answers s buf (leave o)) h
        (subst (Answers s buf) e (starttls_round-Answers s buf)) in
    (proceed, request a, sent)
Runs-IsDialogue {s} {t} (at_round {t = u} {a = buf} e more) h =
    let (out, d, sent) = Runs-IsDialogue more h in
    elim (subst (Answers s buf) e (starttls_round-Answers s buf)) [
      | inl (x, w) ↦ (buf ++ out, declaration x d, behind s u t buf out w sent)
      | inr (x, w) ↦ (
        (answer buf ++ features) ++ out,
        header x d,
        behind s u t (answer buf ++ features) out w sent,
      )
    ]
