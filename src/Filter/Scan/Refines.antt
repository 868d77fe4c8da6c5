-- ===== src/Filter/Scan/Refines.antt =====
-- The loop of the reader over the preallocated buffer, against the loop of the specification.
use xmpp_proxy.Prelude.{
  ℕ, ◌+◌, ◌≤◌, ◌≡◌, inl, inr, refl, sym, ap, subst, ◌∙◌, lt→ltb, Bytes, length, take, [], ◌∷◌,
  Option, none, some, Outcome, ok, err, panic, arith,
}
use xmpp_proxy.Filter.{outside_stanza, StanzaFilter, new, process_next_byte_idx}
use xmpp_proxy.Filter.Reader.{
  Ending, Read, read_loop, write_byte, deliver, next, next_eoft, emit_stanza, emit_eoft,
}
use xmpp_proxy.Filter.Safe.{IsValid, IsSafe, StateInv, read_step-IsSafe, new-IsValid}
use xmpp_proxy.Filter.Scan.{cut, view, scan_loop, take-take}
use xmpp_proxy.Filter.Scan.Step.{scan_byte-view}

-- the same outcome, and the same bytes left
pub record SameRead {ℓ} {A : Type ℓ} (a b : Read A) : Type ℓ where
  pub result : a.result ≡ b.result
  pub rest : a.rest ≡ b.rest

view-cut : (n : ℕ) (g : StanzaFilter) → g.cnt ≤ n → view (cut n g) ≡ view g
view-cut n g h = ap (λ t. record g { buf = t }) (take-take g.cnt n g.buf h)

cnt_le : (f g : StanzaFilter) (b : ℕ) → IsSafe (write_byte f b) b (ok none, g) → g.cnt ≤ f.cnt + 1
cnt_le f g b (v, inl (_, e, _)) = omega arith
cnt_le f g b (v, inr (e, z, _)) = omega (arith, ap (λ h. h.cnt) e)

module _ {ℓ} {A : Type ℓ} (emit : StanzaFilter → ℕ → A × StanzaFilter)
    (blind : (f : StanzaFilter) (n : ℕ) → (emit (cut n f) n).0 ≡ (emit f n).0) where
  deliver-SameRead :
      (f : StanzaFilter) (b : ℕ) (r : Outcome (Option ℕ)) (g : StanzaFilter) (rest : Bytes)
      (more more' : Read A)
      → IsSafe (write_byte f b) b (r, g)
      → (r ≡ ok none → SameRead more more')
      → SameRead (deliver emit r g rest more) (deliver emit r (cut (f.cnt + 1) g) rest more')
  deliver-SameRead f b (ok (some idx)) g rest more more' (_, e, _, _, _, _) h = record {
    result = ap (λ a. ok (some a)) (rw e (sym (blind g (f.cnt + 1))));
    rest = refl;
  }
  deliver-SameRead f b (ok none) g rest more more' s h = h refl
  deliver-SameRead f b (err e) g rest more more' s h = record { result = refl; rest = refl }
  deliver-SameRead f b panic g rest more more' s h = absurd s

  read_loop-SameRead :
      (f : StanzaFilter) (src : Bytes) (ending : Ending)
      → IsValid f
      → SameRead (read_loop emit f src ending) (scan_loop emit (view f) src ending)
  unfolding read_loop scan_loop
  read_loop-SameRead f [] ending v =
      rw (lt→ltb f.cnt (length f.buf) (omega (arith, v.room, v.sized)))
        (record { result = refl; rest = refl })
  read_loop-SameRead f (b ∷ rest) ending v =
      let g = (process_next_byte_idx (write_byte f b)).1 in
      let safe = read_step-IsSafe f b v in
      rw (lt→ltb f.cnt (length f.buf) (omega (arith, v.room, v.sized)), scan_byte-view f b v)
        (deliver-SameRead f b (process_next_byte_idx (write_byte f b)).0 g rest
          (read_loop emit g rest ending) (scan_loop emit (view (cut (f.cnt + 1) g)) rest ending)
          safe
          (λ e.
            let w : IsSafe (write_byte f b) b (ok none, g) =
              subst (λ r. IsSafe (write_byte f b) b (r, g)) e safe in
            subst (λ s. SameRead (read_loop emit g rest ending) (scan_loop emit s rest ending))
              (sym (view-cut (f.cnt + 1) g (cnt_le f g b w)))
              (read_loop-SameRead g rest ending w.0)))

take-zero : (f : StanzaFilter) → f.cnt ≡ 0 → take f.cnt f.buf ≡ []
take-zero f e = rw e

-- `next` over the preallocated buffer is the specification run on the bytes of the stanza so far:
-- what earlier stanzas left in the buffer has no influence on the outcome or on what is read.
pub next-SameRead :
    (f : StanzaFilter) (src : Bytes) (ending : Ending)
    → IsValid f
    → SameRead (next f src ending) (scan_loop emit_stanza (view f) src ending)
unfolding next
next-SameRead = read_loop-SameRead emit_stanza (λ f n. take-take n n f.buf (omega arith))

pub next_eoft-SameRead :
    (f : StanzaFilter) (src : Bytes) (ending : Ending)
    → IsValid f
    → SameRead (next_eoft f src ending) (scan_loop emit_eoft (view f) src ending)
unfolding next_eoft
next_eoft-SameRead =
    read_loop-SameRead emit_eoft
      (λ f n. ap (λ t. (t, f.end_of_first_tag)) (take-take n n f.buf (omega arith)))

pub view-new :
    (f : StanzaFilter)
    → IsValid f
    → f.state ≡ outside_stanza
    → f.end_of_first_tag ≡ 0
    → view f ≡ view (new f.buf_size)
view-new f v s e =
    let (c, t) = subst (λ st. StateInv st f.cnt f.tag_cnt) s v.known in
    ground (arith, take-zero f c)

-- Between two stanzas a filter that `next_eoft` has used, however often, behaves as a new one of
-- its size.
pub next_eoft-new :
    (f : StanzaFilter) (src : Bytes) (ending : Ending)
    → IsValid f
    → f.state ≡ outside_stanza
    → f.end_of_first_tag ≡ 0
    → SameRead (next_eoft f src ending) (next_eoft (new f.buf_size) src ending)
next_eoft-new f src ending v s e =
    let w = new-IsValid f.buf_size (omega (arith, v.room)) in
    let a = next_eoft-SameRead f src ending v in
    let b = next_eoft-SameRead (new f.buf_size) src ending w in
    let views = ap (λ x. scan_loop emit_eoft x src ending) (view-new f v s e) in
    record {
      result = a.result ∙ ap (λ x. x.result) views ∙ sym b.result;
      rest = a.rest ∙ ap (λ x. x.rest) views ∙ sym b.rest;
    }
