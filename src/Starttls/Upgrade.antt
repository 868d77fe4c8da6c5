-- ===== src/Starttls/Upgrade.antt =====
-- What the TLS handshake is started with.
use xmpp_proxy.Prelude.{
  ℕ, suc, ◌≡◌, ◌≢◌, inl, inr, refl, sym, ap, subst, true, leb, Bool-cases, if◌then◌else◌, ltb, ◌==◌,
  ==_iff, Bytes, length, take, set, List, [], ◌∷◌, ◌++◌, Outcome, ok, err, panic, ◌>>=◌, ok-of_>>=,
  ok-inj, arith,
}
use xmpp_proxy.Filter.{StanzaFilter}
use xmpp_proxy.Filter.Reader.{Ending, eof, broken, emit_stanza}
use xmpp_proxy.Filter.Loops.Runs.{Given, while_next-HasRun}
use xmpp_proxy.Wire.{Sink, peek_bytes}
use xmpp_proxy.Starttls.{
  Upgraded, starttls, starttls_loop, starttls_round, proceeded, skip_to_handshake, open_tls,
  is_hello, sniffed, after_peek,
}
use xmpp_proxy.Starttls.Dialogue.{IsDialogue, Runs-IsDialogue}

-- no byte 0x16, which begins a handshake
abbrev pub NoHandshake : Bytes → Type 0
NoHandshake [] = Unit
NoHandshake (b ∷ bs) = (b ≢ 22) × NoHandshake bs

-- `rest` is `src` from its first 0x16 on
pub record SkipsTo (src rest : Bytes) : Type 0 where
  pub dropped : Bytes
  pub splits : src ≡ dropped ++ rest
  pub none_dropped : NoHandshake dropped
  pub begins : (tail : Bytes) × (rest ≡ 22 ∷ tail)

abbrev Skipped : Bytes → Outcome (Bytes × StanzaFilter) → Type 0
Skipped src (ok r) = SkipsTo src r.0
Skipped src (err e) = Unit
Skipped src panic = Unit

Skipped-cons :
    (b : ℕ) (src : Bytes) (o : Outcome (Bytes × StanzaFilter))
    → b ≢ 22
    → Skipped src o
    → Skipped (b ∷ src) o
Skipped-cons b src (ok r) n h = record {
  dropped = b ∷ h.dropped;
  splits = ap (◌∷◌ b) h.splits;
  none_dropped = (n, h.none_dropped);
  begins = h.begins;
}
Skipped-cons b src (err e) n h = tt
Skipped-cons b src panic n h = tt

skip_to_handshake-Skipped :
    (f : StanzaFilter) (src : Bytes) (ending : Ending)
    → Skipped src (skip_to_handshake f src ending)
unfolding skip_to_handshake
skip_to_handshake-Skipped f [] eof = elim (Bool-cases (length f.buf == 0)) [
  | inl z ↦ rw z tt
  | inr p ↦ rw p tt
]
skip_to_handshake-Skipped f [] broken = elim (Bool-cases (length f.buf == 0)) [
  | inl z ↦ rw z tt
  | inr p ↦ rw p tt
]
skip_to_handshake-Skipped f (b ∷ src) ending = elim (Bool-cases (length f.buf == 0)) [
  | inl z ↦ rw z tt
  | inr p ↦ elim (Bool-cases (b == 22)) [
    | inl h ↦
        rw (p, h)
          (record {
            dropped = [];
            splits = refl;
            none_dropped = tt;
            begins = (src, ap (λ c. c ∷ src) ((==_iff b 22).0 h));
          })
    | inr n ↦
        rw (p, n)
          (Skipped-cons b src _ (λ e. absurd (ground arith))
            (skip_to_handshake-Skipped (record f { buf = set f.buf 0 b }) src ending))
  ]
]

-- how a connection comes to the handshake
pub data IsUpgrade (s : Sink) (f : StanzaFilter) (src : Bytes) (ending : Ending) (u : Upgraded)
    : Type 0 where
  direct : is_hello (take 3 src) ≡ true → u.sink ≡ s → u.rest ≡ src → IsUpgrade s f src ending u
  upgraded :
      (bufs : List Bytes) (out : Bytes)
      → Given emit_stanza ending f src bufs
      → IsDialogue bufs out
      → u.sink.sent ≡ s.sent ++ out
      → SkipsTo (starttls_loop s f src ending).rest u.rest
      → IsUpgrade s f src ending u

starttls-IsUpgrade :
    (s : Sink) (f : StanzaFilter) (src : Bytes) (ending : Ending) (u : Upgraded)
    → starttls s f src ending ≡ ok u
    → IsUpgrade s f src ending u
unfolding starttls
starttls-IsUpgrade s f src ending u h =
    let l = starttls_loop s f src ending in
    let (t, h', p) = ok-of_>>= _ (proceeded l.end) (sym h) in
    let (r, h'', k) = ok-of_>>= _ (skip_to_handshake l.filter l.rest ending) h' in
    let run =
      while_next-HasRun emit_stanza starttls_round (suc (length src)) s f src ending
        (omega arith) in
    let (out, d, sent) = Runs-IsDialogue run.runs p in
    let skips = subst (Skipped l.rest) k (skip_to_handshake-Skipped l.filter l.rest ending) in
    subst (IsUpgrade s f src ending) (ok-inj (sym h''))
      (upgraded run.given out run.from_stream d sent skips)

pub peek_bytes-ok :
    (n : ℕ) (src p : Bytes) (ending : Ending) → peek_bytes n src ending ≡ ok p → p ≡ take n src
unfolding peek_bytes
peek_bytes-ok n src p eof h = elim (Bool-cases (leb n (length src))) [ inl l ↦ cc | inr l ↦ cc ]
peek_bytes-ok n src p broken h = elim (Bool-cases (leb n (length src))) [ inl l ↦ cc | inr l ↦ cc ]

after_peek-IsUpgrade :
    (size : ℕ) (s : Sink) (src : Bytes) (ending : Ending) (p : Bytes) (u : Upgraded)
    → p ≡ take 3 src
    → after_peek size s src ending p ≡ ok u
    → IsUpgrade s (sniffed size p) src ending u
unfolding after_peek
after_peek-IsUpgrade size s src ending p u e h = elim (Bool-cases (is_hello p)) [
  | inl hello ↦
      let begun : Upgraded = record { sink = s; rest = src; filter = sniffed size p } in
      let same : begun ≡ u = ok-inj (
        subst (λ b. (if b then ok begun else starttls s (sniffed size p) src ending) ≡ ok u) hello
          h) in
      direct (subst (λ q. is_hello q ≡ true) e hello) (sym (ap (λ v. v.sink) same))
        (sym (ap (λ v. v.rest) same))
  | inr other ↦ starttls-IsUpgrade s (sniffed size p) src ending u (
      subst
        (λ b.
          (if b
            then ok (record { sink = s; rest = src; filter = sniffed size p })
            else starttls s (sniffed size p) src ending)
          ≡ ok u)
        other h)
]

-- The TLS handshake is started only in one of two ways. Either the stream began with a handshake,
-- and nothing was read or sent; or the stanzas that the stream gave are a dialogue that ends in the
-- request for TLS, exactly its answers were sent, and the handshake begins at the first 0x16 of
-- what the dialogue left.
pub open_tls-IsUpgrade :
    (size : ℕ) (s : Sink) (src : Bytes) (ending : Ending) (u : Upgraded)
    → open_tls size s src ending ≡ ok u
    → IsUpgrade s (sniffed size (take 3 src)) src ending u
unfolding open_tls
open_tls-IsUpgrade size s src ending u h = elim (Bool-cases (ltb size 3)) [
  | inl small ↦ cc
  | inr large ↦
      let h₀ =
        subst
          (λ b.
            (if b then panic else peek_bytes 3 src ending >>= after_peek size s src ending) ≡ ok u)
          large h in
      let (p, h₁, e) =
        ok-of_>>= (after_peek size s src ending) (peek_bytes 3 src ending) (sym h₀) in
      let first = peek_bytes-ok 3 src p ending e in
      subst (λ q. IsUpgrade s (sniffed size q) src ending u) first
        (after_peek-IsUpgrade size s src ending p u first (sym h₁))
]
