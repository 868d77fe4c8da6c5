-- ===== src/Relay/Carried.antt =====
-- What the relay over byte streams carries from one end to the other.
use xmpp_proxy.Prelude.{
  ℕ, ◌≡◌, inl, inr, refl, sym, ap, ◌∙◌, subst, Bool-cases, true, ltb, Bytes, length, take, List, [],
  ◌∷◌, ◌++◌, append-nil, append_assoc, Error, Option, none, some, Outcome, ok, err, panic, io_error,
}
use xmpp_proxy.Filter.{StanzaFilter, process_next_byte_idx}
use xmpp_proxy.Filter.Reader.{Ending, eof, broken, Read, read_loop, write_byte, emit_eoft}
use xmpp_proxy.Wire.{Sink, write_flush, write_flush-sent}
use xmpp_proxy.Relay.{
  Direction, Move, reads, relays, fails, ends, by_write, by_byte, by_ending, by_src, move, Side,
  from_incoming, from_outgoing, Shuffle, After, goes_on, done, in_step, out_step, step, Steps, stay,
  then_step,
}

-- the stanzas one after another
abbrev pub text_of : List (Bytes × ℕ) → Bytes
text_of [] = []
text_of ((buf, eoft) ∷ bufs) = buf ++ text_of bufs

module _ (ending : Ending) where
  abbrev pub call : StanzaFilter → Bytes → Read (Bytes × ℕ)
  call f src = read_loop emit_eoft f src ending

  -- Calls of the reader one after another give the stanzas, or fail; and then one is under way, which
  -- goes on from the second filter and the second bytes, whatever follows these.
  pub data Gives : StanzaFilter → Bytes → List (Bytes × ℕ) → StanzaFilter → Bytes → Type 0 where
    under_way :
        {f g : StanzaFilter} {src rest : Bytes} (got : Bytes)
        → src ≡ got ++ rest
        → ((more : Bytes) → call f (got ++ more) ≡ call g more)
        → Gives f src [] g rest
    then_given :
        {f g : StanzaFilter} {src rest : Bytes} {a : Bytes × ℕ} {given : List (Bytes × ℕ)}
        → (call f src).result ≡ ok (some a)
        → Gives (call f src).filter (call f src).rest given g rest
        → Gives f src (a ∷ given) g rest
    then_failed :
        {f g : StanzaFilter} {src rest : Bytes} {e : Error} {given : List (Bytes × ℕ)}
        → (call f src).result ≡ err e
        → Gives (call f src).filter (call f src).rest given g rest
        → Gives f src given g rest

  Gives-reads :
      {f h g : StanzaFilter} {src rest : Bytes} {given : List (Bytes × ℕ)} (b : ℕ)
      → ((more : Bytes) → call f (b ∷ more) ≡ call h more)
      → Gives h src given g rest
      → Gives f (b ∷ src) given g rest
  Gives-reads b e (under_way got split same) =
      under_way (b ∷ got) (ap (◌∷◌ b) split) (λ more. e (got ++ more) ∙ same more)
  Gives-reads {g} {src} {rest} b e (then_given {given = given} q more) =
      then_given (ap (λ r. r.result) (e src) ∙ q)
        (subst (λ r. Gives r.filter r.rest given g rest) (sym (e src)) more)
  Gives-reads {g} {src} {rest} b e (then_failed {given = given} q more) =
      then_failed (ap (λ r. r.result) (e src) ∙ q)
        (subst (λ r. Gives r.filter r.rest given g rest) (sym (e src)) more)

  module _ {f h g : StanzaFilter} {src rest left : Bytes} {given : List (Bytes × ℕ)} where
    Gives-given :
        {a : Bytes × ℕ}
        → call f src ≡ record { result = ok (some a); filter = h; rest = rest }
        → Gives h rest given g left
        → Gives f src (a ∷ given) g left
    Gives-given c more =
        then_given (ap (λ r. r.result) c)
          (subst (λ r. Gives r.filter r.rest given g left) (sym c) more)

    Gives-failed :
        {e : Error}
        → call f src ≡ record { result = err e; filter = h; rest = rest }
        → Gives h rest given g left
        → Gives f src given g left
    Gives-failed c more =
        then_failed (ap (λ r. r.result) c)
          (subst (λ r. Gives r.filter r.rest given g left) (sym c) more)

-- Between `a` and `b` the reader has given `bufs`, and the writer was sent them and no more.
pub record Relayed (a b : Direction) : Type 0 where
  pub bufs : List (Bytes × ℕ)
  pub given : Gives a.ending a.filter a.src bufs b.filter b.src
  pub sent : b.sink.sent ≡ a.sink.sent ++ text_of bufs

Relayed-refl : (a : Direction) → Relayed a a
Relayed-refl a = record {
  bufs = [];
  given = under_way [] refl (λ more. refl);
  sent = sym (append-nil a.sink.sent);
}

abbrev Behind : Direction → Direction → Type 0
Behind a b = (c : Direction) → Relayed b c → Relayed a c

abbrev Leads : Direction → Move → Type 0
Leads a (reads b) = Behind a b
Leads a (relays b) = Behind a b
Leads a (fails b) = Behind a b
Leads a (ends r) = Unit

module _ (f : StanzaFilter) (en : Ending) (s : Sink) (room : ltb f.cnt (length f.buf) ≡ true) where
  abbrev at : Bytes → Direction
  at src = record { filter = f; src = src; ending = en; sink = s }

  abbrev result_of : ℕ → Outcome (Option ℕ) × StanzaFilter
  result_of b = process_next_byte_idx (write_byte f b)

  module _ (b : ℕ) (rest : Bytes) where
    abbrev g : StanzaFilter
    g = (result_of b).1

    by_write-Leads :
        (idx : ℕ) (o : Outcome Sink)
        → (result_of b).0 ≡ ok (some idx)
        → write_flush (take idx g.buf) s ≡ o
        → Leads (at (b ∷ rest)) (
            by_write (record { filter = (emit_eoft g idx).1; src = rest; ending = en; sink = s }) o)
    unfolding read_loop
    by_write-Leads idx (ok t) e w = λ c r. record {
      bufs = (emit_eoft g idx).0 ∷ r.bufs;
      given = Gives-given en (rw (room, e) refl) r.given;
      sent =
          r.sent
          ∙ ap (λ x. x ++ text_of r.bufs) (write_flush-sent (take idx g.buf) s t (sym w))
          ∙ append_assoc s.sent (take idx g.buf) (text_of r.bufs);
    }
    by_write-Leads idx (err x) e w = tt
    by_write-Leads idx panic e w = tt

    by_byte-Leads :
        (o : Outcome (Option ℕ))
        → (result_of b).0 ≡ o
        → Leads
            (at (b ∷ rest))
            (by_byte (record { filter = g; src = rest; ending = en; sink = s }) o)
    unfolding read_loop
    by_byte-Leads (ok none) e = λ c r. record {
      bufs = r.bufs;
      given = Gives-reads en b (λ more. rw (room, e) refl) r.given;
      sent = r.sent;
    }
    by_byte-Leads (ok (some idx)) e = by_write-Leads idx (write_flush (take idx g.buf) s) e refl
    by_byte-Leads (err x) e = λ c r. record {
      bufs = r.bufs;
      given = Gives-failed en {e = x} (rw (room, e) refl) r.given;
      sent = r.sent;
    }
    by_byte-Leads panic e = tt

  by_src-Leads : (src : Bytes) → Leads (at src) (by_src (at src) src)
  unfolding read_loop
  by_src-Leads [] = by_ending-Leads en refl
    where
      by_ending-Leads : (x : Ending) → en ≡ x → Leads (at []) (by_ending (at []) x)
      by_ending-Leads eof e = tt
      by_ending-Leads broken e = λ c r. record {
        bufs = r.bufs;
        given = Gives-failed en {e = io_error} (rw (room, e) refl) r.given;
        sent = r.sent;
      }
  by_src-Leads (b ∷ rest) = by_byte-Leads b rest (result_of b).0 refl

move-Leads : (a : Direction) → Leads a (move a)
unfolding move
move-Leads a = elim (Bool-cases (ltb a.filter.cnt (length a.filter.buf))) [
  | inl room ↦ rw room (by_src-Leads a.filter a.ending a.sink room a.src)
  | inr full ↦ rw full tt
]

abbrev Follows : Shuffle → After → Type 0
Follows p (goes_on q) = Behind p.incoming q.incoming × Behind p.outgoing q.outgoing
Follows p (done r) = Unit

in_step-Follows :
    (failed : Option Side) (m : Move) (p : Shuffle)
    → Leads p.incoming m
    → Follows p (in_step failed m p)
in_step-Follows (some from_incoming) m p h = (λ c r. r, λ c r. r)
in_step-Follows (some from_outgoing) (reads d) p h = (h, λ c r. r)
in_step-Follows (some from_outgoing) (relays d) p h = (h, λ c r. r)
in_step-Follows (some from_outgoing) (fails d) p h = tt
in_step-Follows (some from_outgoing) (ends r) p h = tt
in_step-Follows none (reads d) p h = (h, λ c r. r)
in_step-Follows none (relays d) p h = (h, λ c r. r)
in_step-Follows none (fails d) p h = (h, λ c r. r)
in_step-Follows none (ends r) p h = tt

out_step-Follows :
    (failed : Option Side) (m : Move) (p : Shuffle)
    → Leads p.outgoing m
    → Follows p (out_step failed m p)
out_step-Follows (some from_outgoing) m p h = (λ c r. r, λ c r. r)
out_step-Follows (some from_incoming) (reads d) p h = (λ c r. r, h)
out_step-Follows (some from_incoming) (relays d) p h = (λ c r. r, h)
out_step-Follows (some from_incoming) (fails d) p h = tt
out_step-Follows (some from_incoming) (ends r) p h = tt
out_step-Follows none (reads d) p h = (λ c r. r, h)
out_step-Follows none (relays d) p h = (λ c r. r, h)
out_step-Follows none (fails d) p h = (λ c r. r, h)
out_step-Follows none (ends r) p h = tt

step-Follows : (side : Side) (p : Shuffle) → Follows p (step side p)
unfolding step
step-Follows from_incoming p = in_step-Follows p.failed (move p.incoming) p (move-Leads p.incoming)
step-Follows from_outgoing p = out_step-Follows p.failed (move p.outgoing) p (move-Leads p.outgoing)

-- In whatever order the two directions read, as long as the loop goes on: the calls of each reader
-- have given some stanzas and failed between them, up to the call that is under way; and the other
-- end was sent these stanzas, one after another and unchanged, and nothing else.
pub Steps-Relayed :
    {p q : Shuffle} → Steps p q → Relayed p.incoming q.incoming × Relayed p.outgoing q.outgoing
Steps-Relayed (stay {p}) = (Relayed-refl p.incoming, Relayed-refl p.outgoing)
Steps-Relayed (then_step {p} {q} {r} side e more) =
    let (i, o) = Steps-Relayed more in
    let (f, g) = subst (Follows p) e (step-Follows side p) in (f r.incoming i, g r.outgoing o)
