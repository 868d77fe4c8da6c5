-- ===== src/Filter/Loops/Leaves.antt =====
-- What a loop leaves behind when it starts with a valid filter.
use xmpp_proxy.Prelude.{ℕ, zero, suc, ◌≡◌, refl, Bytes, Option, none, some, Outcome, ok, err, panic}
use xmpp_proxy.Filter.{StanzaFilter}
use xmpp_proxy.Filter.Reader.{Ending, read_loop}
use xmpp_proxy.Filter.Safe.{IsValid}
use xmpp_proxy.Filter.Calls.{LeavesSafe, read_loop-LeavesSafe}
use xmpp_proxy.Filter.Loops.{
  Round, go_on, leave, End, left, ended, failed, crashed, out_of_fuel, Looped, round, after_read,
  while_next,
}

module _ {A S R : Type 0} (emit : StanzaFilter → ℕ → A × StanzaFilter) (body : S → A → Round S R)
    (keeps : (f : StanzaFilter) (idx : ℕ) → IsValid f → IsValid (emit f idx).1) (P : R → Type 0)
    (leaves : (s : S) (a : A) (r : R) → body s a ≡ leave r → P r) where
  -- no panic, and a valid filter where the body left
  abbrev pub Leaves : End S R → StanzaFilter → Type 0
  Leaves (left r) f = IsValid f × P r
  Leaves (ended s) f = Unit
  Leaves (failed e s) f = Unit
  Leaves crashed f = ⊥
  Leaves out_of_fuel f = Unit

  abbrev LoopLeaves : Looped S R → Type 0
  LoopLeaves l = Leaves l.end l.filter

  round-Leaves :
      (n : ℕ) (s : S) (a : A) (r : Round S R) (f : StanzaFilter) (rest : Bytes) (ending : Ending)
      → body s a ≡ r
      → IsValid f
      → ((t : S) → LoopLeaves (while_next emit body n t f rest ending))
      → LoopLeaves (round r f rest (λ t. while_next emit body n t f rest ending))
  round-Leaves n s a (go_on t) f rest ending e v h = h t
  round-Leaves n s a (leave r) f rest ending e v h = (v, leaves s a r e)

  after_read-Leaves :
      (n : ℕ) (s : S) (r : Outcome (Option A)) (f : StanzaFilter) (rest : Bytes) (ending : Ending)
      → LeavesSafe r f
      → (IsValid f → (t : S) → LoopLeaves (while_next emit body n t f rest ending))
      → LoopLeaves (after_read r f rest body s (λ t. while_next emit body n t f rest ending))
  after_read-Leaves n s (ok (some a)) f rest ending v h =
      round-Leaves n s a (body s a) f rest ending refl v (h v)
  after_read-Leaves n s (ok none) f rest ending v h = tt
  after_read-Leaves n s (err _) f rest ending v h = tt
  after_read-Leaves n s panic f rest ending v h = absurd v

  -- From a valid filter the loop does not panic: it ends at the first call that fails.
  pub while_next-Leaves :
      (n : ℕ) (s : S) (f : StanzaFilter) (src : Bytes) (ending : Ending)
      → IsValid f
      → LoopLeaves (while_next emit body n s f src ending)
  unfolding while_next
  while_next-Leaves zero s f src ending v = tt
  while_next-Leaves (suc n) s f src ending v =
      let r = read_loop emit f src ending in
      after_read-Leaves n s r.result r.filter r.rest ending
        (read_loop-LeavesSafe emit keeps f src ending v)
        (λ w t. while_next-Leaves n t r.filter r.rest ending w)
