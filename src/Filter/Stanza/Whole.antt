-- ===== src/Filter/Stanza/Whole.antt =====
-- From outside a stanza: whole elements, the opening and the closing of a stream, the XML declaration.
use xmpp_proxy.Prelude.{
  ℕ, zero, suc, ◌≤◌, ◌≡◌, ◌≢◌, inl, inr, refl, sym, ap, subst, ◌∙◌, ◌==◌, leb, le→leb, Bool, true,
  false, ◌&&◌, Bool-cases, Bytes, bytes_eq, bytes_eq_iff, codes, starts_with, starts_with-drop,
  starts_with-append, length, length-append, take, drop, take-append-drop, take-append_length,
  get_elem?, [], ◌∷◌, ◌++◌, append_assoc, some, arith, true,
}
use native.Mathlib.Decide.{dec_le}
use xmpp_proxy.Filter.{StanzaFilter, finish, tag_end, stream_open, stream_close, xml_decl}
use xmpp_proxy.Filter.Scan.{get_elem?-take}
use xmpp_proxy.Filter.Scan.Cuts.{no_end_in_open}
use xmpp_proxy.Filter.Stanza.{Avoids, IsTag, NoSlash, IsElement}
use xmpp_proxy.Filter.Stanza.Tags.{Quiet, is_stream_open}

-- The bytes that the filter should give out alone and whole.
pub data IsStanza : Bytes → Type 0 where
  whole_element : {w : Bytes} → IsElement w → starts_with w stream_open ≡ false → IsStanza w
  opening :
      {t : Bytes}
      → IsTag t
      → NoSlash t
      → starts_with (b'<' ∷ (t ++ (b'>' ∷ []))) stream_open ≡ true
      → IsStanza (b'<' ∷ (t ++ (b'>' ∷ [])))
  closing : IsStanza stream_close
  declaration :
      {t : Bytes} → Avoids b'>' t → IsStanza (b'<' ∷ b'?' ∷ (xml_decl ++ (t ++ (b'>' ∷ []))))

-- `e` is the place of the `>` that ends the first tag, or 0 for the declaration.
pub data FirstTag (w : Bytes) (e : ℕ) : Type 0 where
  at_tag :
      (t more : Bytes)
      → IsTag t
      → w ≡ b'<' ∷ (t ++ (b'>' ∷ more))
      → e ≡ suc (length t)
      → FirstTag w e
  at_empty :
      (t : Bytes)
      → IsTag t
      → w ≡ b'<' ∷ (t ++ (b'/' ∷ b'>' ∷ []))
      → e ≡ suc (suc (length t))
      → FirstTag w e
  at_close : w ≡ stream_close → e ≡ 15 → FirstTag w e
  no_tag : starts_with w (codes "<?xml ") ≡ true → e ≡ 0 → FirstTag w e

take-append : (n : ℕ) (a b : Bytes) → n ≤ length a → take n (a ++ b) ≡ take n a
take-append zero a b h = refl
take-append (suc n) [] b h = elim h [ ]
take-append (suc n) (x ∷ a) b h = ap (◌∷◌ x) (take-append n a b (omega arith))

get_elem?-append : (a : Bytes) (x : ℕ) (b : Bytes) → get_elem? (a ++ (x ∷ b)) (length a) ≡ some x
get_elem?-append [] x b = refl
get_elem?-append (y ∷ a) x b = get_elem?-append a x b

starts_with-of_take : (w : Bytes) → take 15 w ≡ stream_open → starts_with w stream_open ≡ true
starts_with-of_take w e =
    subst (λ v. starts_with v stream_open ≡ true)
      (ap (λ t. t ++ drop 15 w) (sym e) ∙ take-append-drop 15 w)
      (starts_with-append stream_open (drop 15 w))

-- A first tag that does not open a stream is never taken for one, whatever follows.
pub first_tag-Quiet :
    (got more : Bytes)
    → starts_with (got ++ (b'>' ∷ more)) stream_open ≡ false
    → Quiet (got ++ b'>' ∷ [])
first_tag-Quiet got more n xs =
    elim (Bool-cases (bytes_eq stream_open (take 15 ((got ++ b'>' ∷ []) ++ xs)))) [
      | inl same ↦ absurd (differs (sym ((bytes_eq_iff _ _).0 same)))
      | inr differ ↦ rw differ (and_false (leb 15 (length ((got ++ b'>' ∷ []) ++ xs))))
    ]
  where
    and_false : (b : Bool) → (b && false) ≡ false
    and_false true = refl
    and_false false = refl

    head : Bytes
    head = got ++ b'>' ∷ []

    differs : take 15 (head ++ xs) ≢ stream_open
    differs e = elim (dec_le 15 (length head)) [
      | yes p ↦
          let same : take 15 (got ++ (b'>' ∷ more)) ≡ take 15 (head ++ xs) =
            ap (take 15) (sym (append_assoc got (b'>' ∷ []) more))
            ∙ take-append 15 head more p
            ∙ sym (take-append 15 head xs p) in
          cc (starts_with-of_take (got ++ (b'>' ∷ more)) (same ∙ e))
      | no p ↦
          let measured = length-append got (b'>' ∷ []) in
          no_end_in_open (length got) (
            ap (λ t. get_elem? t (length got)) (sym e)
            ∙ get_elem?-take (length got) 15 (head ++ xs) (omega arith)
            ∙ ap (λ t. get_elem? t (length got)) (append_assoc got (b'>' ∷ []) xs)
            ∙ get_elem?-append got b'>' xs)
    ]

pub is_stream_open-of_starts :
    (w : Bytes) → starts_with w stream_open ≡ true → is_stream_open w ≡ true
is_stream_open-of_starts w h =
    let e = starts_with-drop w stream_open h in
    let long = ap length e ∙ length-append stream_open (drop 15 w) in
    let same : take 15 w ≡ stream_open =
      ap (take 15) e ∙ take-append_length stream_open (drop 15 w) in
    rw (le→leb 15 (length w) (omega arith), same) ((bytes_eq_iff stream_open stream_open).1 refl)

pub tag_end-closed : (f : StanzaFilter) → f.tag_cnt ≡ 0 → tag_end f ≡ (finish, f)
unfolding tag_end
tag_end-closed f e = ground arith

pub tag_end-stream :
    (f : StanzaFilter) → f.tag_cnt ≡ 1 → is_stream_open f.buf ≡ true → tag_end f ≡ (finish, f)
unfolding tag_end
tag_end-stream f e h =
    let a : (f.tag_cnt == 0) ≡ false = ground arith in
    let b : (f.tag_cnt == 1) ≡ true = ground arith in rw (a, b, h)
