-- ===== src/Relay/Fares.antt =====
-- What one direction of the relay does next.
use xmpp_proxy.Prelude.{
  ℕ, ◌≡◌, ◌⊎◌, inl, inr, refl, subst, Bool, Bool-cases, true, false, ltb, lt→ltb, Bytes, length,
  take, [], ◌∷◌, Error, Option, none, some, Outcome, ok, err, panic, io_error, stanza_too_big,
  arith,
}
use xmpp_proxy.Filter.{StanzaFilter, process_next_byte_idx}
use xmpp_proxy.Filter.Reader.{Ending, eof, broken, read_loop, write_byte, emit_eoft}
use xmpp_proxy.Filter.Safe.{IsValid, IsSafe, read_step-IsSafe}
use xmpp_proxy.Wire.{Sink, write_flush, write_flush-cases}
use xmpp_proxy.Relay.{
  Direction, Move, reads, relays, fails, ends, by_write, by_byte, by_ending, by_src, move,
}
use xmpp_proxy.Relay.Carried.{call}

-- what the call of the reader that is under way comes to
abbrev pub outcome : Direction → Outcome (Option (Bytes × ℕ))
outcome d = (call d.ending d.filter d.src).result

-- why a direction ends the loop by itself
pub data EndsBy (d : Direction) : Outcome {0} Unit → Type 0 where
  at_end : d.src ≡ [] → outcome d ≡ ok none → EndsBy d (ok tt)
  at_writer :
      {buf : Bytes} {eoft : ℕ} {e : Error}
      → outcome d ≡ ok (some (buf, eoft))
      → write_flush buf d.sink ≡ err e
      → EndsBy d (err e)
  at_panic : ¬ IsValid d.filter → EndsBy d panic

abbrev pub Keeps : Direction → Direction → Type 0
Keeps a b = IsValid a.filter → IsValid b.filter ⊎ (outcome a ≡ err stanza_too_big)

abbrev pub Fares : Direction → Move → Type 0
Fares a (reads b) = Keeps a b
Fares a (relays b) = Keeps a b
Fares a (fails b) = ((e : Error) × (outcome a ≡ err e)) × Keeps a b
Fares a (ends r) = EndsBy a r

emit_eoft-IsValid : (f : StanzaFilter) (idx : ℕ) → IsValid f → IsValid (emit_eoft f idx).1
emit_eoft-IsValid f idx v = record { sized = v.sized; room = v.room; known = v.known }

has_room : (f : StanzaFilter) → IsValid f → ltb f.cnt (length f.buf) ≡ true
has_room f v = lt→ltb f.cnt (length f.buf) (omega (arith, v.room, v.sized))

not_full : {t : Bool} → t ≡ false → t ≡ true → ⊥
not_full e h = cc

write_flush-no_panic : (buf : Bytes) (s : Sink) → write_flush buf s ≡ panic → ⊥
write_flush-no_panic buf s h = elim (write_flush-cases buf s) [ inl (t, e) ↦ cc | inr (x, e) ↦ cc ]

module _ (f : StanzaFilter) (en : Ending) (s : Sink) (room : ltb f.cnt (length f.buf) ≡ true) where
  abbrev at : Bytes → Direction
  at src = record { filter = f; src = src; ending = en; sink = s }

  module _ (b : ℕ) (rest : Bytes) where
    abbrev o₀ : Outcome (Option ℕ)
    o₀ = (process_next_byte_idx (write_byte f b)).0

    abbrev g : StanzaFilter
    g = (process_next_byte_idx (write_byte f b)).1

    safe : (o : Outcome (Option ℕ)) → o₀ ≡ o → IsValid f → IsSafe (write_byte f b) b (o, g)
    safe o e v = subst (λ r. IsSafe (write_byte f b) b (r, g)) e (read_step-IsSafe f b v)

    by_write-Fares :
        (idx : ℕ) (o : Outcome Sink)
        → o₀ ≡ ok (some idx)
        → write_flush (take idx g.buf) s ≡ o
        → Fares (at (b ∷ rest)) (
            by_write (record { filter = (emit_eoft g idx).1; src = rest; ending = en; sink = s }) o)
    unfolding read_loop
    by_write-Fares idx (ok t) e w = λ v. inl (emit_eoft-IsValid g idx (safe _ e v).0)
    by_write-Fares idx (err x) e w =
        let given : (read_loop emit_eoft f (b ∷ rest) en).result
            ≡ ok (some (take idx g.buf, g.end_of_first_tag)) =
          rw (room, e) refl in
        at_writer {buf = take idx g.buf} {eoft = g.end_of_first_tag} given w
    by_write-Fares idx panic e w = absurd (write_flush-no_panic (take idx g.buf) s w)

    by_byte-Fares :
        (o : Outcome (Option ℕ))
        → o₀ ≡ o
        → Fares
            (at (b ∷ rest))
            (by_byte (record { filter = g; src = rest; ending = en; sink = s }) o)
    unfolding read_loop
    by_byte-Fares (ok none) e = λ v. inl (safe _ e v).0
    by_byte-Fares (ok (some idx)) e = by_write-Fares idx (write_flush (take idx g.buf) s) e refl
    by_byte-Fares (err x) e =
        let failed : (read_loop emit_eoft f (b ∷ rest) en).result ≡ err x = rw (room, e) refl in
        (
          (x, failed),
          λ v. elim (safe _ e v) [
            | inl k ↦ inl k.0
            | inr k ↦ inr (subst (λ y. outcome (at (b ∷ rest)) ≡ err y) k.0 failed)
          ],
        )
    by_byte-Fares panic e = at_panic (λ v. safe _ e v)

  by_src-Fares : (src : Bytes) → Fares (at src) (by_src (at src) src)
  unfolding read_loop
  by_src-Fares [] = by_ending-Fares en refl
    where
      by_ending-Fares : (x : Ending) → en ≡ x → Fares (at []) (by_ending (at []) x)
      by_ending-Fares eof e =
          let none_left : (read_loop emit_eoft f [] en).result ≡ ok none = rw (room, e) refl in
          at_end refl none_left
      by_ending-Fares broken e =
          let failed : (read_loop emit_eoft f [] en).result ≡ err io_error = rw (room, e) refl in
          ((io_error, failed), λ v. inl v)
  by_src-Fares (b ∷ rest) = by_byte-Fares b rest (process_next_byte_idx (write_byte f b)).0 refl

pub move-Fares : (a : Direction) → Fares a (move a)
unfolding move
move-Fares a = elim (Bool-cases (ltb a.filter.cnt (length a.filter.buf))) [
  | inl room ↦ rw room (by_src-Fares a.filter a.ending a.sink room a.src)
  | inr full ↦ rw full (at_panic (λ v. not_full full (has_room a.filter v)))
]
