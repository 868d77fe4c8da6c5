-- ===== src/Wire.antt =====
-- The two ends of a connection as the program sees them. A stream to read is the bytes that come in
-- time and how it ends (Filter.Reader); a stream to write is what was sent, and how many further
-- calls of `write_all` and `flush` go through. src/common/mod.rs: `peek_bytes`.
use xmpp_proxy.Prelude.{
  ℕ, zero, suc, ◌≡◌, ◌⊎◌, inl, inr, refl, sym, ap, ◌∙◌, Error, if◌then◌else◌, leb, Bytes, length,
  take, ◌++◌, Outcome, ok, err, ◌>>=◌, ok-of_>>=, io_error, not_enough_bytes,
}
use xmpp_proxy.Filter.Reader.{Ending, eof, broken}

pub record Sink : Type 0 where
  pub sent : Bytes
  pub calls : ℕ

abbrev pub send : ℕ → Bytes → Outcome Sink
send zero sent = err io_error
send (suc n) sent = ok (record { sent = sent; calls = n })

unfoldable pub write_all : Bytes → Sink → Outcome Sink
write_all buf s = send s.calls (s.sent ++ buf)

unfoldable pub flush : Sink → Outcome Sink
flush s = send s.calls s.sent

-- why no further byte comes
abbrev pub no_more {ℓ} : {A : Type ℓ} → Ending → Outcome A
no_more eof = err not_enough_bytes
no_more broken = err io_error

-- `peek_bytes`: the first `n` bytes, which stay in the stream
unfoldable pub peek_bytes : ℕ → Bytes → Ending → Outcome Bytes
peek_bytes n src ending = if leb n (length src) then ok (take n src) else no_more ending

send-sent : (n : ℕ) (sent : Bytes) (t : Sink) → ok t ≡ send n sent → t.sent ≡ sent
send-sent zero sent t h = cc
send-sent (suc n) sent t h = cc

-- A call of `write_all` that goes through sends its bytes.
pub write_all-sent : (buf : Bytes) (s t : Sink) → ok t ≡ write_all buf s → t.sent ≡ s.sent ++ buf
unfolding write_all
write_all-sent buf s t h = send-sent s.calls (s.sent ++ buf) t h

pub flush-sent : (s t : Sink) → ok t ≡ flush s → t.sent ≡ s.sent
unfolding flush
flush-sent s t h = send-sent s.calls s.sent t h

-- `write_all(buf).await?; flush().await?`
abbrev pub write_flush : Bytes → Sink → Outcome Sink
write_flush buf s = write_all buf s >>= flush

pub write_flush-sent :
    (buf : Bytes) (s t : Sink) → ok t ≡ write_flush buf s → t.sent ≡ s.sent ++ buf
write_flush-sent buf s t h =
    let (u, e, w) = ok-of_>>= flush (write_all buf s) h in
    flush-sent u t e ∙ write_all-sent buf s u (sym w)

send-cases :
    (n : ℕ) (sent : Bytes)
    → ((t : Sink) × (send n sent ≡ ok t)) ⊎ ((e : Error) × (send n sent ≡ err e))
send-cases zero sent = inr (io_error, refl)
send-cases (suc n) sent = inl (record { sent = sent; calls = n }, refl)

-- A write goes through or fails.
pub write_flush-cases :
    (buf : Bytes) (s : Sink)
    → ((t : Sink) × (write_flush buf s ≡ ok t)) ⊎ ((e : Error) × (write_flush buf s ≡ err e))
unfolding write_all flush
write_flush-cases buf s = elim (send-cases s.calls (s.sent ++ buf)) [
  | inr (e, h) ↦ inr (e, ap (λ o. o >>= flush) h)
  | inl (u, h) ↦ elim (send-cases u.calls u.sent) [
    | inl (t, k) ↦ inl (t, ap (λ o. o >>= flush) h ∙ k)
    | inr (e, k) ↦ inr (e, ap (λ o. o >>= flush) h ∙ k)
  ]
]
