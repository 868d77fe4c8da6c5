-- ===== src/Peek.antt =====
-- src/common/mod.rs: the three `peek_bytes` and `first_bytes_match_buf_timeout`, with their limits of
-- time. The clock gives a number of nanoseconds at each reading; what a call of the runtime finds is
-- a parameter. The fuel is the number of rounds left.
pub mod Tcp
pub mod Buffered
use xmpp_proxy.Prelude.{
  ℕ, zero, suc, ◌+◌, ◌-◌, ◌≡◌, Bool, true, false, ◌&&◌, leb, ltb, ◌==◌, if◌then◌else◌, Bytes,
  length, take, [], ◌∷◌, Outcome, ok, err, panic, ◌>>=◌, not_enough_bytes, too_slow, elapsed_wtf,
  timed_out,
}

abbrev pub ten_seconds : ℕ
ten_seconds = 10000000000

abbrev pub twenty_seconds : ℕ
twenty_seconds = 20000000000

-- the time since the reading before the loop, at a round
abbrev pub elapsed : (ℕ → ℕ) → ℕ → ℕ
elapsed clock i = clock (suc i) - clock 0

abbrev pub out_of_rounds {ℓ} : {A : Type ℓ} → Outcome A
out_of_rounds = panic

-- `TcpStream`: `waiting` is what the socket holds at each call of `peek`, which copies as much of it
-- as there is room for.
unfoldable pub peek_tcp : ℕ → (ℕ → ℕ) → (ℕ → Outcome Bytes) → ℕ → ℕ → Outcome Bytes
peek_tcp zero clock waiting len i = out_of_rounds
peek_tcp (suc fuel) clock waiting len i =
    let again = peek_tcp fuel clock waiting len (suc i) in
    waiting i >>= λ held.
    let p = take len held in
    if length p == len
    then ok p
    else if length p == 0
    then err not_enough_bytes
    else if ltb ten_seconds (elapsed clock i)
    then err too_slow
    else again

abbrev pub is_empty : Bytes → Bool
is_empty [] = true
is_empty (x ∷ xs) = false

-- `AsyncBufRead`: what it holds, and whether a call of `fill_buf` waits for the peer. What it holds
-- and was not consumed it gives out again at once, and reads no more before that is consumed.
pub record BufRead : Type 1 where
  pub State : Type 0
  pub fill_buf : State → Outcome Bytes × State
  pub waits : State → Bool
  pub given_again :
      (s : State) (b : ℕ) (held : Bytes)
      → (fill_buf s).0 ≡ ok (b ∷ held)
      → (fill_buf (fill_buf s).1 ≡ (ok (b ∷ held), (fill_buf s).1)) × (waits (fill_buf s).1 ≡ false)

module _ (r : BufRead) where
  -- `BufStream` and `BufReader`, which have one text
  unfoldable pub peek_buf : ℕ → (ℕ → ℕ) → r.State → ℕ → ℕ → Outcome Bytes
  peek_buf zero clock s len i = out_of_rounds
  peek_buf (suc fuel) clock s len i =
      let again = peek_buf fuel clock (r.fill_buf s).1 len (suc i) in
      (r.fill_buf s).0 >>= λ buf.
      if leb len (length buf)
      then ok (take len buf)
      else if is_empty buf
      then err not_enough_bytes
      else if ltb ten_seconds (elapsed clock i)
      then err too_slow
      else again

  -- `first_bytes_match_buf` under its two limits: the outer one ends it only where it waits, and is
  -- the shorter one.
  unfoldable pub match_loop : ℕ → (ℕ → ℕ) → r.State → ℕ → (Bytes → Bool) → ℕ → Outcome Bool
  match_loop zero clock s len matcher i = out_of_rounds
  match_loop (suc fuel) clock s len matcher i =
      let again = match_loop fuel clock (r.fill_buf s).1 len matcher (suc i) in
      if r.waits s && leb ten_seconds (elapsed clock i)
      then err timed_out
      else ((r.fill_buf s).0 >>= λ buf.
          if leb len (length buf)
          then ok (matcher (take len buf))
          else if leb twenty_seconds (elapsed clock i)
          then err elapsed_wtf
          else again)

  abbrev pub first_bytes_match_buf_timeout :
      ℕ → (ℕ → ℕ) → r.State → ℕ → (Bytes → Bool) → Outcome Bool
  first_bytes_match_buf_timeout fuel clock s len matcher = match_loop fuel clock s len matcher 0
