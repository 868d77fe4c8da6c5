-- ===== src/Filter/Loops.antt =====
-- The program's loops `while let Ok(Some(..)) = in_rd.next(..).await { .. }` over a `StanzaReader`.
-- The fuel is the number of rounds left; a round that goes on has read a byte, so one more than the
-- length of the stream is enough.
pub mod Runs
pub mod Leaves
use xmpp_proxy.Prelude.{
  ℕ, zero, suc, ◌+◌, ◌≤◌, ◌<◌, ◌≡◌, ◌≢◌, inl, inr, refl, sym, ap, ◌∙◌, subst, ltb, Bool, true,
  false, Bool-cases, if◌then◌else◌, Bytes, length, [], ◌∷◌, Error, Option, none, some, Outcome, ok,
  err, panic, arith,
}
use xmpp_proxy.Filter.{StanzaFilter, process_next_byte_idx}
use xmpp_proxy.Filter.Reader.{Ending, eof, broken, Read, read_loop, write_byte, deliver, end_result}

-- what the body of a loop does: it comes to its end, or leaves the loop
pub data Round {ℓ} (S R : Type ℓ) : Type ℓ where
  go_on : S → Round S R
  leave : R → Round S R

-- how a loop ends: by its body, at the end of the stream, by an error of the reader, by a panic, or
-- for want of fuel
pub data End {ℓ} (S R : Type ℓ) : Type ℓ where
  left : R → End S R
  ended : S → End S R
  failed : Error → S → End S R
  crashed out_of_fuel : End S R

-- the end of a loop, the filter that it leaves and the bytes not yet read
pub record Looped {ℓ} (S R : Type ℓ) : Type ℓ where
  pub end : End S R
  pub filter : StanzaFilter
  pub rest : Bytes

abbrev pub round {ℓ} :
    {S R : Type ℓ} → Round S R → StanzaFilter → Bytes → (S → Looped S R) → Looped S R
round (go_on s) f rest more = more s
round (leave r) f rest more = record { end = left r; filter = f; rest = rest }

abbrev pub after_read {ℓ} :
    {A S R : Type ℓ}
    → Outcome (Option A)
    → StanzaFilter
    → Bytes
    → (S → A → Round S R)
    → S
    → (S → Looped S R)
    → Looped S R
after_read (ok (some a)) f rest body s more = round (body s a) f rest more
after_read (ok none) f rest body s more = record { end = ended s; filter = f; rest = rest }
after_read (err e) f rest body s more = record { end = failed e s; filter = f; rest = rest }
after_read panic f rest body s more = record { end = crashed; filter = f; rest = rest }

-- a call that gives out a stanza has read a byte
abbrev pub Shorter {ℓ} : {A : Type ℓ} → Outcome (Option A) → Bytes → Bytes → Type 0
Shorter (ok (some a)) rest src = length rest < length src
Shorter (ok none) rest src = Unit
Shorter (err _) rest src = Unit
Shorter panic rest src = Unit

Shorter-weaken {ℓ} :
    {A : Type ℓ} (r : Outcome (Option A)) (rest src : Bytes) (b : ℕ)
    → Shorter r rest src
    → Shorter r rest (b ∷ src)
Shorter-weaken (ok (some a)) rest src b h = omega arith
Shorter-weaken (ok none) rest src b h = tt
Shorter-weaken (err _) rest src b h = tt
Shorter-weaken panic rest src b h = tt

module _ {ℓ} {A : Type ℓ} (emit : StanzaFilter → ℕ → A × StanzaFilter) where
  deliver-Shorter :
      (r : Outcome (Option ℕ)) (g : StanzaFilter) (b : ℕ) (src : Bytes) (more : Read A)
      → Shorter more.result more.rest src
      → Shorter (deliver emit r g src more).result (deliver emit r g src more).rest (b ∷ src)
  deliver-Shorter (ok (some idx)) g b src more h = omega arith
  deliver-Shorter (ok none) g b src more h = Shorter-weaken more.result more.rest src b h
  deliver-Shorter (err _) g b src more h = tt
  deliver-Shorter panic g b src more h = tt

  pub read_loop-Shorter :
      (f : StanzaFilter) (src : Bytes) (ending : Ending)
      → Shorter (read_loop emit f src ending).result (read_loop emit f src ending).rest src
  unfolding read_loop
  read_loop-Shorter f [] eof = elim (Bool-cases (ltb f.cnt (length f.buf))) [
    | inl room ↦ rw room tt
    | inr full ↦ rw full tt
  ]
  read_loop-Shorter f [] broken = elim (Bool-cases (ltb f.cnt (length f.buf))) [
    | inl room ↦ rw room tt
    | inr full ↦ rw full tt
  ]
  read_loop-Shorter f (b ∷ rest) ending =
      let g = (process_next_byte_idx (write_byte f b)).1 in
      elim (Bool-cases (ltb f.cnt (length f.buf))) [
        | inl room ↦ rw room (
            deliver-Shorter (process_next_byte_idx (write_byte f b)).0 g b rest
              (read_loop emit g rest ending) (read_loop-Shorter g rest ending))
        | inr full ↦ rw full tt
      ]

module _ {ℓ} {A S R : Type ℓ} (emit : StanzaFilter → ℕ → A × StanzaFilter)
    (body : S → A → Round S R) where
  unfoldable pub while_next : ℕ → S → StanzaFilter → Bytes → Ending → Looped S R
  while_next zero s f src ending = record { end = out_of_fuel; filter = f; rest = src }
  while_next (suc fuel) s f src ending =
      let r = read_loop emit f src ending in
      after_read r.result r.filter r.rest body s (λ t. while_next fuel t r.filter r.rest ending)

  round-enough :
      (n m : ℕ) (r : Round S R) (f : StanzaFilter) (rest : Bytes) (ending : Ending)
      → ((t : S) → while_next n t f rest ending ≡ while_next m t f rest ending)
      → round r f rest (λ t. while_next n t f rest ending)
        ≡ round r f rest (λ t. while_next m t f rest ending)
  round-enough n m (go_on s) f rest ending h = h s
  round-enough n m (leave r) f rest ending h = refl

  after_read-enough :
      (n m : ℕ) (r : Outcome (Option A)) (f : StanzaFilter) (rest src : Bytes) (ending : Ending)
      (s : S)
      → Shorter r rest src
      → (length rest < length src
          → (t : S) → while_next n t f rest ending ≡ while_next m t f rest ending)
      → after_read r f rest body s (λ t. while_next n t f rest ending)
        ≡ after_read r f rest body s (λ t. while_next m t f rest ending)
  after_read-enough n m (ok (some a)) f rest src ending s l h =
      round-enough n m (body s a) f rest ending (h l)
  after_read-enough n m (ok none) f rest src ending s l h = refl
  after_read-enough n m (err _) f rest src ending s l h = refl
  after_read-enough n m panic f rest src ending s l h = refl

  -- Fuel above the length of the stream is enough: more of it changes nothing.
  pub while_next_enough :
      (n m : ℕ) (s : S) (f : StanzaFilter) (src : Bytes) (ending : Ending)
      → length src < n
      → length src < m
      → while_next n s f src ending ≡ while_next m s f src ending
  unfolding while_next
  while_next_enough zero m s f src ending h k = absurd (omega arith)
  while_next_enough (suc n) zero s f src ending h k = absurd (omega arith)
  while_next_enough (suc n) (suc m) s f src ending h k =
      let r = read_loop emit f src ending in
      after_read-enough n m r.result r.filter r.rest src ending s
        (read_loop-Shorter emit f src ending)
        (λ l t. while_next_enough n m t r.filter r.rest ending (omega arith) (omega arith))
