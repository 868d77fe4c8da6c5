-- ===== src/Peek/Buffered.antt =====
-- A buffered stream is peeked at once: what the peer sends behind its first bytes is never seen.
use xmpp_proxy.Prelude.{
  ℕ, ◌≡◌, false, leb, if◌then◌else◌, Bytes, length, take, [], ◌∷◌, Outcome, ok, err, panic,
  not_enough_bytes, too_slow,
}
use xmpp_proxy.Peek.{BufRead}

module _ (r : BufRead) (clock : ℕ → ℕ) (len : ℕ) where
  -- an answer that the stream gives again and again
  record Stays (s : r.State) (b : ℕ) (held : Bytes) : Type 0 where
    fills : r.fill_buf s ≡ (ok (b ∷ held), s)
    at_once : r.waits s ≡ false

  -- what becomes of the first answer of a stream
  abbrev pub at_first : Outcome Bytes → Outcome Bytes
  at_first (err e) = err e
  at_first panic = panic
  at_first (ok []) = if leb len 0 then ok (take len []) else err not_enough_bytes
  at_first (ok (b ∷ held)) =
      if leb len (length (b ∷ held)) then ok (take len (b ∷ held)) else err too_slow
