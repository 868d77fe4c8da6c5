-- ===== src/Filter/Cut.antt =====
-- Which bytes of the stream a stanza is: those from the first `<` up to the one that ends it.
use xmpp_proxy.Prelude.{
  ℕ, suc, ◌+◌, ◌≤◌, ◌<◌, ◌≡◌, ◌≢◌, ◌⊎◌, inl, inr, refl, sym, ap, subst, ◌∙◌, lt→ltb, Bytes, length,
  take, take-set, length-set, length-take, [], ◌∷◌, ◌++◌, append_assoc, Option, none, some, Outcome,
  ok, err, panic, arith,
}
use xmpp_proxy.Filter.{StanzaFilter, process_next_byte_idx}
use xmpp_proxy.Filter.Reader.{
  Ending, eof, broken, Read, read_loop, write_byte, deliver, next, next_eoft, emit_stanza,
  emit_eoft,
}
use xmpp_proxy.Filter.Safe.{IsValid, IsSafe, read_step-IsSafe}

-- no `<`, so nothing of a stanza
abbrev pub NoOpen : Bytes → Type 0
NoOpen [] = Unit
NoOpen (x ∷ xs) = (x ≢ b'<') × NoOpen xs

-- The call read `skipped` and `read`, and `stanza` is what it had before with `read` behind it.
pub record IsCut (f : StanzaFilter) (src stanza rest : Bytes) : Type 0 where
  pub skipped : Bytes
  pub read : Bytes
  pub splits : src ≡ skipped ++ (read ++ rest)
  pub is_stanza : stanza ≡ take f.cnt f.buf ++ read
  pub nothing_skipped : NoOpen skipped
  pub begins : (f.cnt ≡ 0) → (tail : Bytes) × (read ≡ b'<' ∷ tail)
  pub inside : (0 < f.cnt) → skipped ≡ []
  pub ends : (init : Bytes) × (read ≡ init ++ b'>' ∷ [])
  pub fits : length stanza ≤ f.buf_size

-- the bytes so far, after the write
kept_bytes :
    (f : StanzaFilter) (b : ℕ)
    → IsValid f
    → take (f.cnt + 1) (write_byte f b).buf ≡ take f.cnt f.buf ++ b ∷ []
kept_bytes f b v =
    let e : f.cnt + 1 ≡ suc f.cnt = omega arith in
    rw e (take-set f.buf f.cnt b (omega (arith, v.sized, v.room)))

abbrev CutsTo {ℓ} :
    {A : Type ℓ} → (A → Bytes) → StanzaFilter → Bytes → Outcome (Option A) → Bytes → Type 0
CutsTo text f src (ok (some a)) rest = IsCut f src (text a) rest
CutsTo text f src (ok none) rest = Unit
CutsTo text f src (err _) rest = Unit
CutsTo text f src panic rest = Unit

IsCut-last :
    (f : StanzaFilter) (b : ℕ) (rest : Bytes)
    → IsValid f
    → b ≡ b'>'
    → 0 < f.cnt
    → IsCut f (b ∷ rest) (take (f.cnt + 1) (write_byte f b).buf) rest
IsCut-last f b rest v e p = record {
  skipped = [];
  read = b ∷ [];
  splits = refl;
  is_stanza = kept_bytes f b v;
  nothing_skipped = tt;
  begins = λ z. absurd (omega arith);
  inside = λ _. refl;
  ends = ([], rw e);
  fits = omega (arith, length-take (f.cnt + 1) (write_byte f b).buf, v.room);
}

IsCut-advance :
    (f g : StanzaFilter) (b : ℕ) {src stanza rest : Bytes}
    → IsValid f
    → IsValid g
    → g.buf ≡ (write_byte f b).buf
    → g.cnt ≡ f.cnt + 1
    → (0 < f.cnt) ⊎ (b ≡ b'<')
    → IsCut g src stanza rest
    → IsCut f (b ∷ src) stanza rest
IsCut-advance f g b {src} {stanza} {rest} v w buf cnt begun c = record {
  skipped = [];
  read = b ∷ c.read;
  splits = ap (◌∷◌ b) (c.splits ∙ ap (λ t. t ++ (c.read ++ rest)) (c.inside (omega arith)));
  is_stanza =
      c.is_stanza
      ∙ ap (λ t. t ++ c.read) (rw (cnt, buf) (kept_bytes f b v))
      ∙ append_assoc (take f.cnt f.buf) (b ∷ []) c.read;
  nothing_skipped = tt;
  begins = λ z. elim begun [ inl p ↦ absurd (omega arith) | inr e ↦ (c.read, rw e) ];
  inside = λ _. refl;
  ends = (b ∷ c.ends.0, ap (◌∷◌ b) c.ends.1);
  fits = omega (arith, c.fits, v.sized, w.sized, ap length buf, length-set f.buf f.cnt b);
}

IsCut-ignore :
    (f g : StanzaFilter) (b : ℕ) {src stanza rest : Bytes}
    → g ≡ write_byte f b
    → f.cnt ≡ 0
    → b ≢ b'<'
    → IsCut g src stanza rest
    → IsCut f (b ∷ src) stanza rest
IsCut-ignore f g b {src} {stanza} {rest} e z n c =
    let d : IsCut (write_byte f b) src stanza rest = subst (λ h. IsCut h src stanza rest) e c in
    record {
      skipped = b ∷ d.skipped;
      read = d.read;
      splits = ap (◌∷◌ b) d.splits;
      is_stanza = d.is_stanza ∙ ap (λ t. t ++ d.read) (rw z);
      nothing_skipped = (n, d.nothing_skipped);
      begins = d.begins;
      inside = λ p. absurd (omega arith);
      ends = d.ends;
      fits = d.fits;
    }

module _ {ℓ} {A : Type ℓ} (emit : StanzaFilter → ℕ → A × StanzaFilter) (text : A → Bytes)
    (is_text : (f : StanzaFilter) (idx : ℕ) → text (emit f idx).0 ≡ take idx f.buf) where
  deliver-CutsTo :
      (f : StanzaFilter) (b : ℕ) (r : Outcome (Option ℕ)) (g : StanzaFilter) (rest : Bytes)
      (more : Read A)
      → IsValid f
      → IsSafe (write_byte f b) b (r, g)
      → (IsValid g → CutsTo text g rest more.result more.rest)
      → CutsTo text f
          (b ∷ rest)
          (deliver emit r g rest more).result
          (deliver emit r g rest more).rest
  deliver-CutsTo f b (ok (some idx)) g rest more v (w, i, buf, z, e, p) h =
      subst (λ t. IsCut f (b ∷ rest) t rest) (rw (← i, ← buf) (sym (is_text g idx)))
        (IsCut-last f b rest v e p)
  deliver-CutsTo f b (ok none) g rest more v (w, o) h = carry more.result more.rest o (h w)
    where
      carry :
          (r : Outcome (Option A)) (left : Bytes)
          → ((g.buf ≡ (write_byte f b).buf) × (g.cnt ≡ f.cnt + 1) × ((0 < f.cnt) ⊎ (b ≡ b'<')))
            ⊎ ((g ≡ write_byte f b) × (f.cnt ≡ 0) × (b ≢ b'<'))
          → CutsTo text g rest r left
          → CutsTo text f (b ∷ rest) r left
      carry (ok (some a)) left (inl (x, y, z)) c = IsCut-advance f g b v w x y z c
      carry (ok (some a)) left (inr (x, y, z)) c = IsCut-ignore f g b x y z c
      carry (ok none) left o c = tt
      carry (err _) left o c = tt
      carry panic left o c = tt
  deliver-CutsTo f b (err e) g rest more v s h = tt
  deliver-CutsTo f b panic g rest more v s h = tt

  read_loop-CutsTo :
      (f : StanzaFilter) (src : Bytes) (ending : Ending)
      → IsValid f
      → CutsTo text f src (read_loop emit f src ending).result (read_loop emit f src ending).rest
  unfolding read_loop
  read_loop-CutsTo f [] eof v = rw (lt→ltb f.cnt (length f.buf) (omega (arith, v.room, v.sized))) tt
  read_loop-CutsTo f [] broken v =
      rw (lt→ltb f.cnt (length f.buf) (omega (arith, v.room, v.sized))) tt
  read_loop-CutsTo f (b ∷ rest) ending v =
      rw (lt→ltb f.cnt (length f.buf) (omega (arith, v.room, v.sized))) (
        deliver-CutsTo f b (process_next_byte_idx (write_byte f b)).0
          (process_next_byte_idx (write_byte f b)).1 rest
          (read_loop emit (process_next_byte_idx (write_byte f b)).1 rest ending) v
          (read_step-IsSafe f b v)
          (read_loop-CutsTo (process_next_byte_idx (write_byte f b)).1 rest ending))

-- The stanza of `next` is a slice of the stream, with nothing lost or added: behind bytes that are
-- no `<` it begins with the first `<`, ends with the last byte read, a `>`, and fits the buffer.
-- Where the filter already held part of it, it is that part and then the bytes read.
pub next-IsCut :
    (f : StanzaFilter) (src : Bytes) (ending : Ending) {stanza : Bytes}
    → IsValid f
    → (next f src ending).result ≡ ok (some stanza)
    → IsCut f src stanza (next f src ending).rest
unfolding next
next-IsCut f src ending v e =
    subst (λ r. CutsTo (λ s. s) f src r (read_loop emit_stanza f src ending).rest) e
      (read_loop-CutsTo emit_stanza (λ s. s) (λ g i. refl) f src ending v)

-- The same of `next_eoft`.
pub next_eoft-IsCut :
    (f : StanzaFilter) (src : Bytes) (ending : Ending) {stanza : Bytes} {eoft : ℕ}
    → IsValid f
    → (next_eoft f src ending).result ≡ ok (some (stanza, eoft))
    → IsCut f src stanza (next_eoft f src ending).rest
unfolding next_eoft
next_eoft-IsCut f src ending v e =
    subst (λ r. CutsTo (λ s. s.0) f src r (read_loop emit_eoft f src ending).rest) e
      (read_loop-CutsTo emit_eoft (λ s. s.0) (λ g i. refl) f src ending v)
