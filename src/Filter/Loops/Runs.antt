-- ===== src/Filter/Loops/Runs.antt =====
-- A loop over a stream as the list of the stanzas that it was given.
use xmpp_proxy.Prelude.{
  ℕ, zero, suc, ◌<◌, ◌≡◌, refl, Bytes, length, List, [], ◌∷◌, Option, none, some, Error, Outcome,
  ok, err, panic, arith,
}
use xmpp_proxy.Filter.{StanzaFilter}
use xmpp_proxy.Filter.Reader.{Ending, read_loop}
use xmpp_proxy.Filter.Loops.{
  Round, go_on, leave, End, left, ended, failed, crashed, round, after_read, while_next, Shorter,
  read_loop-Shorter,
}

module _ {ℓ} {A S R : Type ℓ} where
  -- From `s` the body is given the stanzas `given`, one a round, and the loop ends with `e`.
  pub data Runs (body : S → A → Round S R) : S → List A → End S R → Type ℓ where
    at_end : {s : S} → Runs body s [] (ended s)
    at_error : {s : S} {e : Error} → Runs body s [] (failed e s)
    at_panic : {s : S} → Runs body s [] crashed
    at_leave : {s : S} {a : A} {r : R} → body s a ≡ leave r → Runs body s (a ∷ []) (left r)
    at_round :
        {s t : S} {a : A} {given : List A} {e : End S R}
        → body s a ≡ go_on t
        → Runs body t given e
        → Runs body s (a ∷ given) e

module _ {ℓ} {A : Type ℓ} (emit : StanzaFilter → ℕ → A × StanzaFilter) (ending : Ending) where
  -- Calls of the reader one after another give out the list.
  pub data Given : StanzaFilter → Bytes → List A → Type ℓ where
    nothing_given : {f : StanzaFilter} {src : Bytes} → Given f src []
    then_given :
        {f : StanzaFilter} {src : Bytes} {a : A} {given : List A}
        → (read_loop emit f src ending).result ≡ ok (some a)
        → Given (read_loop emit f src ending).filter (read_loop emit f src ending).rest given
        → Given f src (a ∷ given)

module _ {ℓ} {A S R : Type ℓ} (emit : StanzaFilter → ℕ → A × StanzaFilter)
    (body : S → A → Round S R) where
  -- a run over stanzas that the stream gives
  pub record HasRun (ending : Ending) (s : S) (f : StanzaFilter) (src : Bytes) (e : End S R)
      : Type ℓ where
    pub given : List A
    pub from_stream : Given emit ending f src given
    pub runs : Runs body s given e

  abbrev RestHasRun : ℕ → StanzaFilter → Bytes → Ending → Type ℓ
  RestHasRun n f rest ending =
      (t : S) → HasRun ending t f rest (while_next emit body n t f rest ending).end

  round-HasRun :
      (n : ℕ) (s : S) (a : A) (r : Round S R) (f : StanzaFilter) (src : Bytes) (ending : Ending)
      → (read_loop emit f src ending).result ≡ ok (some a)
      → body s a ≡ r
      → RestHasRun n (read_loop emit f src ending).filter (read_loop emit f src ending).rest ending
      → HasRun ending s f src
          (round r (read_loop emit f src ending).filter (read_loop emit f src ending).rest (λ t.
            while_next emit body n t
              (read_loop emit f src ending).filter
              (read_loop emit f src ending).rest
              ending)).end
  round-HasRun n s a (go_on t) f src ending q e h =
      let more = h t in
      record {
        given = a ∷ more.given;
        from_stream = then_given q more.from_stream;
        runs = at_round e more.runs;
      }
  round-HasRun n s a (leave r) f src ending q e h = record {
    given = a ∷ [];
    from_stream = then_given q nothing_given;
    runs = at_leave e;
  }

  after_read-HasRun :
      (n : ℕ) (s : S) (r : Outcome (Option A)) (f : StanzaFilter) (src : Bytes) (ending : Ending)
      → (read_loop emit f src ending).result ≡ r
      → Shorter r (read_loop emit f src ending).rest src
      → (length (read_loop emit f src ending).rest < length src
          → RestHasRun n
              (read_loop emit f src ending).filter
              (read_loop emit f src ending).rest
              ending)
      → HasRun ending s f src
          (after_read r
            (read_loop emit f src ending).filter
            (read_loop emit f src ending).rest
            body
            s
            (λ t.
              while_next emit body n t
                (read_loop emit f src ending).filter
                (read_loop emit f src ending).rest
                ending)).end
  after_read-HasRun n s (ok (some a)) f src ending q l h =
      round-HasRun n s a (body s a) f src ending q refl (h l)
  after_read-HasRun n s (ok none) f src ending q l h = record {
    given = [];
    from_stream = nothing_given;
    runs = at_end;
  }
  after_read-HasRun n s (err _) f src ending q l h = record {
    given = [];
    from_stream = nothing_given;
    runs = at_error;
  }
  after_read-HasRun n s panic f src ending q l h = record {
    given = [];
    from_stream = nothing_given;
    runs = at_panic;
  }

  -- With fuel above the length of the stream the loop comes to an end.
  pub while_next-HasRun :
      (n : ℕ) (s : S) (f : StanzaFilter) (src : Bytes) (ending : Ending)
      → length src < n
      → HasRun ending s f src (while_next emit body n s f src ending).end
  unfolding while_next
  while_next-HasRun zero s f src ending h = absurd (omega arith)
  while_next-HasRun (suc n) s f src ending h =
      after_read-HasRun n s (read_loop emit f src ending).result f src ending refl
        (read_loop-Shorter emit f src ending)
        (λ l t.
          while_next-HasRun n t (read_loop emit f src ending).filter
            (read_loop emit f src ending).rest ending (omega arith))
