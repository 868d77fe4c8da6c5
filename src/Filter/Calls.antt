-- ===== src/Filter/Calls.antt =====
-- Calls of the reader one after another: no panic, and the one error after which there is no going on.
use xmpp_proxy.Prelude.{
  ℕ, ◌<◌, ◌≡◌, ◌≢◌, ◌⊎◌, inl, inr, refl, sym, ap, subst, ◌∙◌, lt→ltb, Bytes, length, length-set, [],
  ◌∷◌, Option, none, some, Outcome, ok, err, panic, stanza_too_big, arith,
}
use xmpp_proxy.Filter.{StanzaState, outside_stanza, StanzaFilter, process_next_byte_idx, new}
use xmpp_proxy.Filter.Reader.{
  Ending, eof, broken, Read, read_loop, write_byte, deliver, next, next_eoft, emit_stanza,
  emit_eoft,
}
use xmpp_proxy.Filter.Safe.{IsValid, StateInv, new-IsValid, IsSafe, read_step-IsSafe}

-- what a call of the reader leaves behind
abbrev pub LeavesSafe {ℓ} : {A : Type ℓ} → Outcome (Option A) → StanzaFilter → Type 0
LeavesSafe (ok _) g = IsValid g
LeavesSafe (err e) g =
    (IsValid g × (e ≢ stanza_too_big)) ⊎ ((e ≡ stanza_too_big) × (g.cnt ≡ length g.buf))
LeavesSafe panic g = ⊥

module _ {ℓ} {A : Type ℓ} (emit : StanzaFilter → ℕ → A × StanzaFilter)
    (keeps : (f : StanzaFilter) (idx : ℕ) → IsValid f → IsValid (emit f idx).1) where
  deliver-LeavesSafe :
      (f : StanzaFilter) (b : ℕ) (r : Outcome (Option ℕ)) (g : StanzaFilter) (rest : Bytes)
      (more : Read A)
      → IsSafe f b (r, g)
      → (IsValid g → LeavesSafe more.result more.filter)
      → LeavesSafe (deliver emit r g rest more).result (deliver emit r g rest more).filter
  deliver-LeavesSafe f b (ok (some idx)) g rest more s h = keeps g idx s.0
  deliver-LeavesSafe f b (ok none) g rest more s h = h s.0
  deliver-LeavesSafe f b (err e) g rest more (inl s) h = inl s
  deliver-LeavesSafe f b (err e) g rest more (inr s) h = inr (s.0, s.2 ∙ sym s.1)
  deliver-LeavesSafe f b panic g rest more s h = s

  pub read_loop-LeavesSafe :
      (f : StanzaFilter) (src : Bytes) (ending : Ending)
      → IsValid f
      → LeavesSafe (read_loop emit f src ending).result (read_loop emit f src ending).filter
  unfolding read_loop
  read_loop-LeavesSafe f [] eof v =
      rw (lt→ltb f.cnt (length f.buf) (omega (arith, v.room, v.sized))) v
  read_loop-LeavesSafe f [] broken v =
      rw (lt→ltb f.cnt (length f.buf) (omega (arith, v.room, v.sized))) (inl (v, λ e. cc))
  read_loop-LeavesSafe f (b ∷ rest) ending v =
      let step = read_step-IsSafe f b v in
      rw (lt→ltb f.cnt (length f.buf) (omega (arith, v.room, v.sized))) (
        deliver-LeavesSafe (write_byte f b) b (process_next_byte_idx (write_byte f b)).0
          (process_next_byte_idx (write_byte f b)).1 rest
          (read_loop emit (process_next_byte_idx (write_byte f b)).1 rest ending) step
          (read_loop-LeavesSafe (process_next_byte_idx (write_byte f b)).1 rest ending))

module _ {ℓ} {A : Type ℓ} (emit : StanzaFilter → ℕ → A × StanzaFilter) where
  read_loop-stuck :
      (f : StanzaFilter) (src : Bytes) (ending : Ending)
      → f.cnt ≡ length f.buf
      → (read_loop emit f src ending).result ≡ panic
  unfolding read_loop
  read_loop-stuck f [] ending e = ground arith
  read_loop-stuck f (b ∷ rest) ending e = ground arith

next-LeavesSafe :
    (f : StanzaFilter) (src : Bytes) (ending : Ending)
    → IsValid f
    → LeavesSafe (next f src ending).result (next f src ending).filter
unfolding next
next-LeavesSafe = read_loop-LeavesSafe emit_stanza (λ f idx v. v)

-- From a valid filter `next_eoft` does not panic, whatever the bytes of the stream and however it
-- ends, and it leaves a valid filter unless it fails with "stanza too big".
pub next_eoft-LeavesSafe :
    (f : StanzaFilter) (src : Bytes) (ending : Ending)
    → IsValid f
    → LeavesSafe (next_eoft f src ending).result (next_eoft f src ending).filter
unfolding next_eoft
next_eoft-LeavesSafe =
    read_loop-LeavesSafe emit_eoft
      (λ f idx v. record { sized = v.sized; room = v.room; known = v.known })

next_eoft-stuck :
    (f : StanzaFilter) (src : Bytes) (ending : Ending)
    → f.cnt ≡ length f.buf
    → (next_eoft f src ending).result ≡ panic
unfolding next_eoft
next_eoft-stuck = read_loop-stuck emit_eoft

-- A call that failed with "stanza too big" leaves the counter behind the buffer: the next call, on
-- any stream, panics.
pub next_eoft_after_too_big :
    (f : StanzaFilter) (src later : Bytes) (ending ending' : Ending)
    → IsValid f
    → (next_eoft f src ending).result ≡ err stanza_too_big
    → (next_eoft (next_eoft f src ending).filter later ending').result ≡ panic
next_eoft_after_too_big f src later ending ending' v e =
    elim (subst (λ r. LeavesSafe r (next_eoft f src ending).filter) e
      (next_eoft-LeavesSafe f src ending v)) [
        | inl (_, other) ↦ absurd (other refl)
        | inr (_, full) ↦ next_eoft-stuck (next_eoft f src ending).filter later ending' full
      ]

-- between two stanzas, as `next_eoft` leaves a filter of this size
pub record IsReady (size : ℕ) (f : StanzaFilter) : Type 0 where
  pub valid : IsValid f
  pub outside : f.state ≡ outside_stanza
  pub unmarked : f.end_of_first_tag ≡ 0
  pub size_is : f.buf_size ≡ size

outside-of_cnt : (st : StanzaState) (tag_cnt : ℕ) → StateInv st 0 tag_cnt → st ≡ outside_stanza
outside-of_cnt outside_stanza t h = refl
outside-of_cnt _ t h = absurd (omega arith)

IsReady-of_end :
    (g : StanzaFilter) (size : ℕ)
    → IsValid g
    → g.cnt ≡ 0
    → length g.buf ≡ size
    → IsReady size (record g { end_of_first_tag = 0 })
IsReady-of_end g size v z l = record {
  valid = record { sized = v.sized; room = v.room; known = v.known };
  outside = outside-of_cnt g.state g.tag_cnt (subst (λ c. StateInv g.state c g.tag_cnt) z v.known);
  unmarked = refl;
  size_is = sym v.sized ∙ l;
}

abbrev EndsReady : ℕ → Outcome (Option (Bytes × ℕ)) → StanzaFilter → Type 0
EndsReady size (ok (some _)) g = IsReady size g
EndsReady size (ok none) g = Unit
EndsReady size (err _) g = Unit
EndsReady size panic g = Unit

deliver-EndsReady :
    (f : StanzaFilter) (b size : ℕ) (r : Outcome (Option ℕ)) (g : StanzaFilter) (rest : Bytes)
    (more : Read (Bytes × ℕ))
    → length f.buf ≡ size
    → IsSafe f b (r, g)
    → (IsValid g → length g.buf ≡ size → EndsReady size more.result more.filter)
    → EndsReady size
        (deliver emit_eoft r g rest more).result
        (deliver emit_eoft r g rest more).filter
deliver-EndsReady f b size (ok (some idx)) g rest more l (v, _, e, z, _, _) h =
    IsReady-of_end g size v z (ap length e ∙ l)
deliver-EndsReady f b size (ok none) g rest more l (v, inl (e, _, _)) h = h v (ap length e ∙ l)
deliver-EndsReady f b size (ok none) g rest more l (v, inr (e, _, _)) h =
    h v (ap (λ x. length x.buf) e ∙ l)
deliver-EndsReady f b size (err e) g rest more l s h = tt
deliver-EndsReady f b size panic g rest more l s h = tt

read_loop-EndsReady :
    (f : StanzaFilter) (size : ℕ) (src : Bytes) (ending : Ending)
    → IsValid f
    → length f.buf ≡ size
    → EndsReady size
        (read_loop emit_eoft f src ending).result
        (read_loop emit_eoft f src ending).filter
unfolding read_loop
read_loop-EndsReady f size [] eof v l =
    rw (lt→ltb f.cnt (length f.buf) (omega (arith, v.room, v.sized))) tt
read_loop-EndsReady f size [] broken v l =
    rw (lt→ltb f.cnt (length f.buf) (omega (arith, v.room, v.sized))) tt
read_loop-EndsReady f size (b ∷ rest) ending v l =
    let g = (process_next_byte_idx (write_byte f b)).1 in
    rw (lt→ltb f.cnt (length f.buf) (omega (arith, v.room, v.sized))) (
      deliver-EndsReady (write_byte f b) b size (process_next_byte_idx (write_byte f b)).0 g rest
        (read_loop emit_eoft g rest ending) (length-set f.buf f.cnt b ∙ l) (read_step-IsSafe f b v)
        (λ w m. read_loop-EndsReady g size rest ending w m))

-- A call of `next_eoft` that gives out a stanza leaves the filter ready for the next one.
pub next_eoft-IsReady :
    (f : StanzaFilter) (src : Bytes) (ending : Ending) {a : Bytes × ℕ}
    → IsValid f
    → (next_eoft f src ending).result ≡ ok (some a)
    → IsReady f.buf_size (next_eoft f src ending).filter
unfolding next_eoft
next_eoft-IsReady f src ending v e =
    subst (λ r. EndsReady f.buf_size r (read_loop emit_eoft f src ending).filter) e
      (read_loop-EndsReady f f.buf_size src ending v v.sized)

pub new-IsReady : (n : ℕ) → 0 < n → IsReady n (new n)
new-IsReady n h = record {
  valid = new-IsValid n h;
  outside = refl;
  unmarked = refl;
  size_is = refl;
}
