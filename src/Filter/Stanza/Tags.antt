-- ===== src/Filter/Stanza/Tags.antt =====
-- The specification over the text of a tag, and at the `>` behind it.
use xmpp_proxy.Prelude.{
  ℕ, suc, ◌+◌, ◌-◌, ◌<◌, ◌≡◌, refl, ap, ◌∙◌, ◌==◌, leb, Bool, true, false, ◌&&◌, if◌then◌else◌,
  Bytes, bytes_eq, length, length-append, get_elem?, [], ◌∷◌, ◌++◌, append_assoc, append-nil, some,
  arith,
}
use xmpp_proxy.Slice.{slice}
use xmpp_proxy.Filter.{
  StanzaState, inside_tag, inside_tag_first_char, inside_attribute, stanza_first_char, StanzaFilter,
  advance, dispatch, is_quote, stream_open, previous_byte,
}
use xmpp_proxy.Filter.Reader.{Ending}
use xmpp_proxy.Filter.Scan.{append_byte}
use xmpp_proxy.Filter.Stanza.{
  Avoids, none_left, other, IsTagTail, tag_done, plain, quoted, StartsMarkup, IsTag, tag,
}
use xmpp_proxy.Filter.Stanza.Steps.{holding, from, step_advance}

-- the test for the opening of a stream, on what the buffer holds
abbrev pub is_stream_open : Bytes → Bool
is_stream_open got = leb 15 (length got) && bytes_eq stream_open (slice 0 15 got)

-- whatever follows, it will not be taken for the opening of a stream
abbrev pub Quiet : Bytes → Type 0
Quiet got = (more : Bytes) → is_stream_open (got ++ more) ≡ false

pub Quiet-append : (got xs : Bytes) → Quiet got → Quiet (got ++ xs)
Quiet-append got xs q more = ap is_stream_open (append_assoc got xs more) ∙ q (xs ++ more)

abbrev pub marked : ℕ → Bytes → ℕ
marked eoft got = if eoft == 0 then length got else eoft

pub previous_byte-append :
    (init : Bytes) (c : ℕ) (more : Bytes)
    → previous_byte (length (init ++ c ∷ [])) ((init ++ c ∷ []) ++ more) ≡ some c
unfolding previous_byte
previous_byte-append init c more =
    let e : length (init ++ c ∷ []) ≡ suc (length init) =
      omega (arith, length-append init (c ∷ [])) in
    let f : suc (length init) - 1 ≡ length init = omega arith in
    let g : (suc (length init) == 0) ≡ false = ground arith in
    rw (e, g, f, append_assoc init (c ∷ []) more) (at init)
  where
    at : (xs : Bytes) → get_elem? (xs ++ (c ∷ more)) (length xs) ≡ some c
    at [] = refl
    at (x ∷ xs) = at xs

module _ {ℓ} {A : Type ℓ} (emit : StanzaFilter → ℕ → A × StanzaFilter) (size : ℕ)
    (ending : Ending) where
  module _ (eoft depth : ℕ) where
    run-Avoids :
        (q : ℕ) {body : Bytes} (got rest : Bytes)
        → Avoids q body
        → length got + length body < size
        → from emit size ending got eoft depth (inside_attribute q) (body ++ rest)
          ≡ from emit size ending (got ++ body) eoft depth (inside_attribute q) rest
    unfolding dispatch
    run-Avoids q got rest none_left room = rw append-nil
    run-Avoids q got rest (other {x} {xs} n a) room =
        let e : (x == q) ≡ false = ground arith in
        step_advance emit size ending got (xs ++ rest) x eoft depth eoft depth (inside_attribute q)
          (inside_attribute q) (omega arith) (rw e)
        ∙ run-Avoids q (got ++ x ∷ []) rest a (omega (arith, length-append got (x ∷ [])))
        ∙ rw append_assoc

    -- a quoted string leads back into the tag
    run_quoted :
        (q : ℕ) {body : Bytes} (got rest : Bytes)
        → is_quote q ≡ true
        → Avoids q body
        → length got + length body + 2 < size
        → from emit size ending got eoft depth inside_tag (q ∷ (body ++ (q ∷ rest)))
          ≡ from emit size ending (((got ++ q ∷ []) ++ body) ++ q ∷ []) eoft depth inside_tag rest
    unfolding dispatch
    run_quoted q {body} got rest h a room =
        let e : (q == b'>') ≡ false = ground arith in
        let same : (q == q) ≡ true = ground arith in
        let more = length-append got (q ∷ []) in
        step_advance emit size ending got (body ++ (q ∷ rest)) q eoft depth eoft depth inside_tag
          (inside_attribute q) (omega arith) (rw (e, h))
        ∙ run-Avoids q (got ++ q ∷ []) (q ∷ rest) a (omega arith)
        ∙ step_advance emit size ending ((got ++ q ∷ []) ++ body) rest q eoft depth eoft depth
            (inside_attribute q) inside_tag (omega (arith, length-append (got ++ q ∷ []) body))
            (rw same)

    -- the tail of a tag leaves the state inside the tag
    run-IsTagTail :
        {t : Bytes} (got rest : Bytes)
        → IsTagTail t
        → length got + length t < size
        → from emit size ending got eoft depth inside_tag (t ++ rest)
          ≡ from emit size ending (got ++ t) eoft depth inside_tag rest
    unfolding dispatch
    run-IsTagTail got rest tag_done room = rw append-nil
    run-IsTagTail got rest (plain {c} {cs} n q t) room =
        let e : (c == b'>') ≡ false = ground arith in
        step_advance emit size ending got (cs ++ rest) c eoft depth eoft depth inside_tag inside_tag
          (omega arith) (rw (e, q))
        ∙ run-IsTagTail (got ++ c ∷ []) rest t (omega (arith, length-append got (c ∷ [])))
        ∙ rw append_assoc
    run-IsTagTail got rest (quoted {q} {body} {cs} h a t) room =
        let inner = length-append body (q ∷ cs) in
        let read = ((got ++ q ∷ []) ++ body) ++ q ∷ [] in
        let measured : length read ≡ length got + length body + 2 = omega (
          arith,
          length-append got (q ∷ []),
          length-append (got ++ q ∷ []) body,
          length-append ((got ++ q ∷ []) ++ body) (q ∷ []),
        ) in
        rw (append_assoc body (q ∷ cs) rest) (
          run_quoted q got (cs ++ rest) h a (omega arith)
          ∙ run-IsTagTail read rest t (omega arith)
          ∙ simp append_assoc)

    -- the text of a tag behind its `<`
    pub run-IsTag :
        {t : Bytes} (got rest : Bytes) (first : StanzaState)
        → ((f : StanzaFilter) (c : ℕ)
            → ¬ StartsMarkup c
            → dispatch first f c ≡ (advance, record f { state = inside_tag }))
        → IsTag t
        → length got + length t < size
        → from emit size ending got eoft depth first (t ++ rest)
          ≡ from emit size ending (got ++ t) eoft depth inside_tag rest
    run-IsTag got rest first begins (tag {c} {cs} n t) room =
        step_advance emit size ending got (cs ++ rest) c eoft depth eoft depth first inside_tag
          (omega arith) (begins (append_byte (holding size got eoft depth first) c) c n)
        ∙ run-IsTagTail (got ++ c ∷ []) rest t (omega (arith, length-append got (c ∷ [])))
        ∙ rw append_assoc

pub first_char_begins :
    (f : StanzaFilter) (c : ℕ)
    → ¬ StartsMarkup c
    → dispatch stanza_first_char f c ≡ (advance, record f { state = inside_tag })
unfolding dispatch
first_char_begins f c n = ground arith

pub inner_char_begins :
    (f : StanzaFilter) (c : ℕ)
    → ¬ StartsMarkup c
    → dispatch inside_tag_first_char f c ≡ (advance, record f { state = inside_tag })
unfolding dispatch
inner_char_begins f c n = ground arith
