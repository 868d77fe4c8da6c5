-- ===== src/Starttls/Total.antt =====
-- An incoming connection is never dropped by a panic before TLS.
use xmpp_proxy.Prelude.{
  ℕ, zero, suc, ◌≤◌, ◌<◌, ◌≡◌, ◌≢◌, inl, inr, refl, ◌∙◌, subst, false, Bool-cases, ltb, leb, leb→le,
  ◌==◌, Bytes, length, take, drop, set, replicate, starts_with, length-append, length-take,
  length-drop, length-replicate, length-set, List, [], ◌∷◌, ◌++◌, Outcome, ok, err, panic, ◌>>=◌,
  arith,
}
use xmpp_proxy.Filter.{StanzaFilter, stream_open}
use xmpp_proxy.Filter.Reader.{Ending, eof, broken, emit_stanza}
use xmpp_proxy.Filter.Safe.{IsValid}
use xmpp_proxy.Filter.Loops.{Round, go_on, leave, End, left, ended, failed, crashed, out_of_fuel}
use xmpp_proxy.Filter.Loops.Leaves.{Leaves, while_next-Leaves}
use xmpp_proxy.Filter.Loops.Runs.{
  Runs, at_end, at_error, at_panic, at_leave, at_round, while_next-HasRun,
}
use xmpp_proxy.Wire.{Sink, write_all, flush, write_flush, peek_bytes, no_more, send}
use xmpp_proxy.Starttls.{
  Upgraded, xml_open, starttls_open, features, proceed, answer, next_round, starttls_round,
  starttls_loop, proceeded, skip_to_handshake, starttls, sniffed, is_hello, after_peek, open_tls,
}

abbrev pub NoPanic {ℓ} : {A : Type ℓ} → Outcome A → Type 0
NoPanic (ok a) = Unit
NoPanic (err e) = Unit
NoPanic panic = ⊥

>>=-NoPanic {ℓ κ} :
    {A : Type ℓ} {B : Type κ} (m : Outcome A) (f : A → Outcome B)
    → NoPanic m
    → ((a : A) → m ≡ ok a → NoPanic (f a))
    → NoPanic (m >>= f)
>>=-NoPanic (ok a) f h k = k a refl
>>=-NoPanic (err e) f h k = tt
>>=-NoPanic panic f h k = h

send-NoPanic : (n : ℕ) (sent : Bytes) → NoPanic (send n sent)
send-NoPanic zero sent = tt
send-NoPanic (suc n) sent = tt

write_all-NoPanic : (buf : Bytes) (s : Sink) → NoPanic (write_all buf s)
unfolding write_all
write_all-NoPanic buf s = send-NoPanic s.calls (s.sent ++ buf)

flush-NoPanic : (s : Sink) → NoPanic (flush s)
unfolding flush
flush-NoPanic s = send-NoPanic s.calls s.sent

write_flush-NoPanic : (buf : Bytes) (s : Sink) → NoPanic (write_flush buf s)
write_flush-NoPanic buf s =
    >>=-NoPanic (write_all buf s) flush (write_all-NoPanic buf s) (λ t e. flush-NoPanic t)

abbrev LeaveNoPanic : Round Sink (Outcome Sink) → Type 0
LeaveNoPanic (go_on s) = Unit
LeaveNoPanic (leave r) = NoPanic r

next_round-NoPanic : (o : Outcome Sink) → NoPanic o → LeaveNoPanic (next_round o)
next_round-NoPanic (ok s) h = tt
next_round-NoPanic (err e) h = tt
next_round-NoPanic panic h = h

starttls_round-NoPanic : (s : Sink) (buf : Bytes) → LeaveNoPanic (starttls_round s buf)
unfolding starttls_round
starttls_round-NoPanic s buf = elim (Bool-cases (starts_with buf xml_open)) [
  | inl x ↦ rw x (next_round-NoPanic (write_flush buf s) (write_flush-NoPanic buf s))
  | inr not_xml ↦ elim (Bool-cases (starts_with buf stream_open)) [
    | inl h ↦
        rw (not_xml, h)
          (next_round-NoPanic (write_all (answer buf) s >>= write_flush features) (
            >>=-NoPanic (write_all (answer buf) s) (write_flush features)
              (write_all-NoPanic (answer buf) s) (λ t e. write_flush-NoPanic features t)))
    | inr not_stream ↦ elim (Bool-cases (starts_with buf starttls_open)) [
      | inl a ↦ rw (not_xml, not_stream, a) (write_flush-NoPanic proceed s)
      | inr not_starttls ↦ rw (not_xml, not_stream, not_starttls) tt
    ]
  ]
]

no_more-NoPanic : (ending : Ending) → NoPanic (no_more {A = Bytes × StanzaFilter} ending)
no_more-NoPanic eof = tt
no_more-NoPanic broken = tt

skip_to_handshake-NoPanic :
    (f : StanzaFilter) (src : Bytes) (ending : Ending)
    → 0 < length f.buf
    → NoPanic (skip_to_handshake f src ending)
unfolding skip_to_handshake
skip_to_handshake-NoPanic f [] ending h =
    let full : (length f.buf == 0) ≡ false = ground arith in rw full (no_more-NoPanic ending)
skip_to_handshake-NoPanic f (b ∷ src) ending h =
    let full : (length f.buf == 0) ≡ false = ground arith in
    elim (Bool-cases (b == 22)) [
      | inl e ↦ rw (full, e) tt
      | inr n ↦
          rw (full, n)
            (skip_to_handshake-NoPanic (record f { buf = set f.buf 0 b }) src ending
              (omega (arith, length-set f.buf 0 b, h)))
    ]

abbrev RoundLeaves : End Sink (Outcome Sink) → StanzaFilter → Type 0
RoundLeaves =
    Leaves emit_stanza starttls_round (λ f idx v. v) NoPanic
      (λ s a r e. subst LeaveNoPanic e (starttls_round-NoPanic s a))

in_fuel :
    {s : Sink} {given : List Bytes} {e : End Sink (Outcome Sink)}
    → Runs starttls_round s given e
    → e ≢ out_of_fuel
in_fuel at_end = λ h. cc
in_fuel at_error = λ h. cc
in_fuel at_panic = λ h. cc
in_fuel (at_leave e) = λ h. cc
in_fuel (at_round e more) = in_fuel more

abbrev upgraded : Sink → Bytes × StanzaFilter → Upgraded
upgraded t r = record { sink = t; rest = r.0; filter = r.1 }

ended-NoPanic :
    (e : End Sink (Outcome Sink)) (f : StanzaFilter) (rest : Bytes) (ending : Ending)
    → e ≢ out_of_fuel
    → RoundLeaves e f
    → NoPanic (proceeded e >>= λ t. skip_to_handshake f rest ending >>= λ r. ok (upgraded t r))
ended-NoPanic (left o) f rest ending n (v, p) = >>=-NoPanic o _ p (λ t e.
    >>=-NoPanic (skip_to_handshake f rest ending) (λ r. ok (upgraded t r))
      (skip_to_handshake-NoPanic f rest ending (omega (arith, v.sized, v.room))) (λ r k. tt))
ended-NoPanic (ended s) f rest ending n l = tt
ended-NoPanic (failed e s) f rest ending n l = tt
ended-NoPanic crashed f rest ending n l = l
ended-NoPanic out_of_fuel f rest ending n l = n refl

starttls-NoPanic :
    (s : Sink) (f : StanzaFilter) (src : Bytes) (ending : Ending)
    → IsValid f
    → NoPanic (starttls s f src ending)
unfolding starttls
starttls-NoPanic s f src ending v =
    let l = starttls_loop s f src ending in
    ended-NoPanic l.end l.filter l.rest ending
      (in_fuel
        (while_next-HasRun emit_stanza starttls_round (suc (length src)) s f src ending
          (omega arith)).runs)
      (while_next-Leaves emit_stanza starttls_round (λ f idx v. v) NoPanic
        (λ s a r e. subst LeaveNoPanic e (starttls_round-NoPanic s a)) (suc (length src)) s f src
        ending v)

few-NoPanic :
    (ending : Ending) (f : Bytes → Outcome Upgraded) → NoPanic (no_more {A = Bytes} ending >>= f)
few-NoPanic eof f = tt
few-NoPanic broken f = tt

sniffed-IsValid : (size : ℕ) (p : Bytes) → 3 ≤ size → length p ≡ 3 → IsValid (sniffed size p)
sniffed-IsValid size p h e = record {
  sized =
      let zeros : Bytes = replicate size 0 in
      length-append p (drop 3 zeros)
      ∙ omega (arith, length-drop 3 zeros, length-replicate {A = ℕ} size 0);
  room = omega arith;
  known = (refl, refl);
}

-- With a buffer of at least three bytes an incoming connection is upgraded or fails: up to the TLS
-- handshake nothing panics, whatever the peer sends and however it ends.
pub open_tls-NoPanic :
    (size : ℕ) (s : Sink) (src : Bytes) (ending : Ending)
    → 3 ≤ size
    → NoPanic (open_tls size s src ending)
unfolding open_tls after_peek peek_bytes
open_tls-NoPanic size s src ending h =
    let large : ltb size 3 ≡ false = ground arith in
    elim (Bool-cases (leb 3 (length src))) [
      | inl enough ↦ elim (Bool-cases (is_hello (take 3 src))) [
        | inl hello ↦ rw (large, enough, hello) tt
        | inr no_hello ↦
            rw (large, enough, no_hello)
              (starttls-NoPanic s (sniffed size (take 3 src)) src ending (
                sniffed-IsValid size (take 3 src) h
                  (omega (arith, length-take 3 src, leb→le 3 (length src) enough))))
      ]
      | inr few ↦ rw (large, few) (few-NoPanic ending (after_peek size s src ending))
    ]
