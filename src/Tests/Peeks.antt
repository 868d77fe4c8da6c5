-- ===== src/Tests/Peeks.antt =====
-- The peeks of src/common/mod.rs at concrete inputs.
use xmpp_proxy.Prelude.{
  ℕ, ◌*◌, ◌+◌, min, take, ap, ◌≡◌, refl, false, Bytes, codes, [], ◌∷◌, Outcome, ok, arith,
}
use xmpp_proxy.Filter.Reader.{eof}
use xmpp_proxy.Wire.{peek_bytes}
use xmpp_proxy.Peek.{BufRead, peek_tcp, is_empty}
use xmpp_proxy.Peek.Tcp.{Arrives, peek_tcp-peek_bytes}

-- a reading every eleven seconds
abbrev slow_clock : ℕ → ℕ
slow_clock i = i * 11000000000

-- what is held, and what a read gives when nothing is held
abbrev pub State : Type 0
State = Bytes × Bytes

abbrev pub fill : State → Outcome Bytes × State
fill (b ∷ held, next) = (ok (b ∷ held), (b ∷ held, next))
fill ([], next) = (ok next, (next, []))

pub given_again :
    (s : State) (b : ℕ) (held : Bytes)
    → (fill s).0 ≡ ok (b ∷ held)
    → (fill (fill s).1 ≡ (ok (b ∷ held), (fill s).1)) × (is_empty (fill s).1.0 ≡ false)
given_again (c ∷ rest, next) b held e = (ap (λ o. (o, (c ∷ rest, next))) e, refl)
given_again ([], []) b held e = cc
given_again ([], c ∷ next) b held e = (ap (λ o. (o, (c ∷ next, []))) e, refl)

abbrev pub reader : BufRead
reader = record {
  State = State;
  fill_buf = fill;
  waits = λ s. is_empty s.0;
  given_again = given_again;
}

-- two bytes at the first call, and a third at the next
abbrev count : ℕ → ℕ
count i = min (i + 2) 4

arrives : Arrives (λ i. i) (λ i. ok (take (count i) (codes "GET "))) (codes "GET ") 3 1
arrives = record {
  count = count;
  held = λ i. refl;
  in_stream = λ i. omega arith;
  some_byte = λ i. omega arith;
  in_time = λ i h. omega arith;
  come = omega arith;
}

peek_tcp-peek_bytes_example :
    peek_tcp 2 (λ i. i) (λ i. ok (take (count i) (codes "GET "))) 3 0
    ≡ peek_bytes 3 (codes "GET ") eof
peek_tcp-peek_bytes_example =
    peek_tcp-peek_bytes (λ i. i) (λ i. ok (take (count i) (codes "GET "))) (codes "GET ") 3 1
      arrives 2 eof (omega arith)
