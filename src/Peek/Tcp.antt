-- ===== src/Peek/Tcp.antt =====
-- A socket whose bytes come in time is peeked at as a stream of bytes.
use xmpp_proxy.Prelude.{
  ℕ, zero, suc, ◌+◌, ◌≤◌, ◌<◌, ◌≡◌, refl, ap, false, leb, ltb, ◌==◌, Bytes, length, take,
  length-take, Outcome, ok, Bool-cases, leb→le, leb→lt, le→leb, ==_iff, lt-of_tests, inl, inr, min,
  arith, [], ◌∷◌,
}
use xmpp_proxy.Filter.Reader.{Ending}
use xmpp_proxy.Wire.{peek_bytes}
use xmpp_proxy.Peek.{peek_tcp, ten_seconds, elapsed}

-- The bytes of `src` arrive: the socket holds the first `count i` at call `i`, at least one of them
-- and within the limit as long as fewer than `len` have come, and `len` at call `last`.
pub record Arrives (clock : ℕ → ℕ) (waiting : ℕ → Outcome Bytes) (src : Bytes) (len last : ℕ)
    : Type 0 where
  pub count : ℕ → ℕ
  pub held : (i : ℕ) → waiting i ≡ ok (take (count i) src)
  pub in_stream : (i : ℕ) → count i ≤ length src
  pub some_byte : (i : ℕ) → 0 < count i
  pub in_time : (i : ℕ) → i < last → elapsed clock i ≤ ten_seconds
  pub come : len ≤ count last

take-take : (n m : ℕ) (xs : Bytes) → n ≤ m → take n (take m xs) ≡ take n xs
take-take zero m xs h = refl
take-take (suc n) zero xs h = absurd (omega arith)
take-take (suc n) (suc m) [] h = refl
take-take (suc n) (suc m) (x ∷ xs) h = ap (◌∷◌ x) (take-take n m xs (omega arith))

le→not_ltb : (a b : ℕ) → b ≤ a → ltb a b ≡ false
le→not_ltb a b h = ground arith

module _ (clock : ℕ → ℕ) (waiting : ℕ → Outcome Bytes) (src : Bytes) (len last : ℕ)
    (a : Arrives clock waiting src len last) where
  length-peeked : (i : ℕ) → length (take len (take (a.count i) src)) ≡ min len (a.count i)
  length-peeked i =
      let h = a.in_stream i in
      omega (arith, length-take len (take (a.count i) src), length-take (a.count i) src)

  peek_tcp-come :
      (fuel i : ℕ)
      → i ≤ last
      → last < i + fuel
      → peek_tcp fuel clock waiting len i ≡ ok (take len src)
  unfolding peek_tcp
  peek_tcp-come zero i h k = absurd (omega arith)
  peek_tcp-come (suc fuel) i h k = elim (Bool-cases (leb len (a.count i))) [
    | inl enough ↦
        let all : length (take len (take (a.count i) src)) ≡ len =
          omega (arith, length-peeked i, leb→le len (a.count i) enough) in
        rw (a.held i, (==_iff (length (take len (take (a.count i) src))) len).1 all)
          (ap ok (take-take len (a.count i) src (leb→le len (a.count i) enough)))
    | inr few ↦
        let p = length (take len (take (a.count i) src)) in
        let c = leb→lt len (a.count i) few in
        let b = a.some_byte i in
        let l = length-peeked i in
        let more : (p == len) ≡ false = ground (arith, l) in
        let some : (p == 0) ≡ false = ground (arith, l) in
        let before =
          lt-of_tests (λ j. leb len (a.count j)) i last h (le→leb len (a.count last) a.come) few in
        let in_time = le→not_ltb ten_seconds (elapsed clock i) (a.in_time i before) in
        rw (a.held i, more, some, in_time) (peek_tcp-come fuel (suc i) before (omega arith))
  ]

  -- Where the bytes arrive in time, and with a round for each call, a peek at a socket gives the
  -- first bytes of the stream, as a peek at a stream of bytes does.
  pub peek_tcp-peek_bytes :
      (fuel : ℕ) (ending : Ending)
      → last < fuel
      → peek_tcp fuel clock waiting len 0 ≡ peek_bytes len src ending
  unfolding peek_bytes
  peek_tcp-peek_bytes fuel ending n =
      let c = a.come in
      let s = a.in_stream last in
      rw (le→leb len (length src) (omega arith)) (peek_tcp-come fuel 0 (omega arith) (omega arith))
