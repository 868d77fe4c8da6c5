-- ===== src/Filter/Stanza/Suffix.antt =====
-- `last_equals` as "the bytes so far end in the needle", and the end of a CDATA section.
use xmpp_proxy.Prelude.{
  ℕ, ◌+◌, ◌-◌, ◌≤◌, ◌≡◌, ◌≢◌, ◌⊎◌, refl, sym, ap, ◌∙◌, le→leb, true, false, Bool-cases, Bytes,
  bytes_eq, bytes_eq_iff, length, length-append, take, take-all, drop, drop-append_length,
  take-append-drop, [], ◌∷◌, ◌++◌, append_assoc, ok, arith, inl, inr,
}
use xmpp_proxy.Filter.{StanzaFilter, last_equals, last_num_bytes, cdata_close}
use xmpp_proxy.Filter.Stanza.{NoCdataEnd}

last_num_bytes-drop :
    (f : StanzaFilter) (n : ℕ)
    → f.cnt + 1 ≡ length f.buf
    → 1 ≤ n
    → n ≤ length f.buf
    → last_num_bytes f n ≡ ok (drop (length f.buf - n) f.buf)
unfolding last_num_bytes
last_num_bytes-drop f n e h l =
    let start : f.cnt - (n - 1) ≡ length f.buf - n = omega arith in
    rw (le→leb (n - 1) f.cnt (omega arith), start, e, take-all (length f.buf) f.buf (omega arith))

pub last_equals-suffix :
    (f : StanzaFilter) (init needle : Bytes)
    → f.buf ≡ init ++ needle
    → f.cnt + 1 ≡ length f.buf
    → 1 ≤ length needle
    → last_equals f needle ≡ ok true
unfolding last_equals
last_equals-suffix f init needle s e h =
    let measured = ap length s ∙ length-append init needle in
    let start : length f.buf - length needle ≡ length init = omega arith in
    let found : drop (length f.buf - length needle) f.buf ≡ needle =
      rw start (ap (drop (length init)) s ∙ drop-append_length init needle) in
    rw (last_num_bytes-drop f (length needle) e h (omega arith), found)
      (ap ok ((bytes_eq_iff needle needle).1 refl))

pub last_equals-other :
    (f : StanzaFilter) (needle : Bytes)
    → ((init : Bytes) → f.buf ≢ init ++ needle)
    → f.cnt + 1 ≡ length f.buf
    → 1 ≤ length needle
    → length needle ≤ length f.buf
    → last_equals f needle ≡ ok false
unfolding last_equals
last_equals-other f needle n e h l =
    rw (last_num_bytes-drop f (length needle) e h l) (ap ok differs)
  where
    k : ℕ
    k = length f.buf - length needle

    differs : bytes_eq needle (drop k f.buf) ≡ false
    differs = elim (Bool-cases (bytes_eq needle (drop k f.buf))) [
      | inl same ↦ absurd (
          n (take k f.buf) (
            sym (take-append-drop k f.buf)
            ∙ ap (◌++◌ (take k f.buf)) (sym ((bytes_eq_iff _ _).0 same))))
      | inr other ↦ other
    ]

cons_tail : {x y : ℕ} {a b : Bytes} → x ∷ a ≡ y ∷ b → a ≡ b
cons_tail e = cc

-- Two ways to cut one string.
split_append :
    (a b c d : Bytes)
    → a ++ b ≡ c ++ d
    → ((m : Bytes) × (b ≡ m ++ d) × (c ≡ a ++ m))
      ⊎ ((x : ℕ) × (m : Bytes) × (a ≡ c ++ (x ∷ m)) × (d ≡ x ∷ (m ++ b)))
split_append [] b c d e = inl (c, e, refl)
split_append (x ∷ a) b [] d e = inr (x, a, refl, sym e)
split_append (x ∷ a) b (y ∷ c) d e = elim (split_append a b c d (cons_tail e)) [
  | inl (m, p, q) ↦ inl (m, p, cc)
  | inr (z, m, p, q) ↦ inr (z, m, cc, q)
]

final : Bytes → ℕ
final [] = 0
final (x ∷ []) = x
final (x ∷ y ∷ ys) = final (y ∷ ys)

final-append : (a : Bytes) (x : ℕ) (m : Bytes) → final (a ++ (x ∷ m)) ≡ final (x ∷ m)
unfolding final
final-append [] x m = refl
final-append (y ∷ []) x m = refl
final-append (y ∷ z ∷ a) x m = final-append (z ∷ a) x m

-- No proper part of "]]>" at its front ends in `[`.
not_across :
    (base init : Bytes) (x : ℕ) (m u : Bytes)
    → base ++ b'[' ∷ [] ≡ init ++ (x ∷ m)
    → cdata_close ≡ x ∷ (m ++ (u ++ b'>' ∷ []))
    → ⊥
unfolding final
not_across base init x m u e d =
    go m (sym (final-append base b'[' []) ∙ ap final e ∙ final-append init x m) d
  where
    go : (m : Bytes) → b'[' ≡ final (x ∷ m) → cdata_close ≡ x ∷ (m ++ (u ++ b'>' ∷ [])) → ⊥
    go [] p q = ground arith
    go (y ∷ []) p q = ground arith
    go (y ∷ z ∷ l) p q =
        absurd (
          omega (arith, ap length q, length-append l (u ++ b'>' ∷ []), length-append u (b'>' ∷ [])))

-- Inside the body of a CDATA section no `>` ends it.
pub not_cdata_end :
    (base u v init : Bytes)
    → NoCdataEnd (u ++ b'>' ∷ v)
    → ((base ++ b'[' ∷ []) ++ u) ++ b'>' ∷ [] ≢ init ++ cdata_close
not_cdata_end base u v init n e =
    elim (split_append (base ++ b'[' ∷ []) (u ++ b'>' ∷ []) init cdata_close
      (sym (append_assoc (base ++ b'[' ∷ []) u (b'>' ∷ [])) ∙ e)) [
        | inl (m, p, _) ↦
            n m v (
              sym (append_assoc u (b'>' ∷ []) v)
              ∙ ap (λ t. t ++ v) p
              ∙ append_assoc m cdata_close v)
        | inr (x, m, p, q) ↦ not_across base init x m u p q
      ]
