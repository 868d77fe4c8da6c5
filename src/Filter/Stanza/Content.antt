-- ===== src/Filter/Stanza/Content.antt =====
-- The specification over what stands inside an element: text, CDATA sections, elements.
use xmpp_proxy.Prelude.{
  ℕ, ◌+◌, ◌≤◌, ◌<◌, ◌≡◌, ◌≢◌, ◌⊎◌, refl, sym, ap, subst, ◌∙◌, ◌==◌, true, false, Bool-cases, Bytes,
  codes, length, length-append, [], ◌∷◌, ◌++◌, append_assoc, append-nil, ok, arith, inl, inr,
  ==_iff,
}
use xmpp_proxy.Filter.{
  StanzaState, inside_tag_first_char, between_tags, inside_cdata, exclamation_tag, StanzaFilter,
  advance, dispatch, cdata_open, cdata_close, checked_sub, last_equals,
}
use xmpp_proxy.Filter.Reader.{Ending, Read}
use xmpp_proxy.Filter.Scan.{append_byte}
use xmpp_proxy.Filter.Stanza.{NoCdataEnd}
use xmpp_proxy.Filter.Stanza.Steps.{holding, from, step_advance}
use xmpp_proxy.Filter.Stanza.Suffix.{last_equals-suffix, last_equals-other, not_cdata_end}

checked_sub-add : (i s : ℕ) → checked_sub (i + s) s ≡ ok i
unfolding checked_sub
checked_sub-add i s = ground arith

pub checked_sub-two : (i : ℕ) → checked_sub (i + 1 + 1) 2 ≡ ok i
unfolding checked_sub
checked_sub-two i = ground arith

module _ {ℓ} {A : Type ℓ} (emit : StanzaFilter → ℕ → A × StanzaFilter) (size : ℕ) (ending : Ending)
    (eoft : ℕ) where
  abbrev at : Bytes → ℕ → StanzaState → Bytes → Read A
  at got depth st src = from emit size ending got eoft depth st src

  pub run_open :
      (got rest : Bytes) (depth : ℕ)
      → length got + 1 < size
      → at got depth between_tags (b'<' ∷ rest)
        ≡ at (got ++ b'<' ∷ []) (depth + 1) inside_tag_first_char rest
  unfolding dispatch
  run_open got rest depth room =
      step_advance emit size ending got rest b'<' eoft depth eoft (depth + 1) between_tags
        inside_tag_first_char room refl

  pub run_text :
      (c : ℕ) (got rest : Bytes) (depth : ℕ)
      → c ≢ b'<'
      → length got + 1 < size
      → at got depth between_tags (c ∷ rest) ≡ at (got ++ c ∷ []) depth between_tags rest
  unfolding dispatch
  run_text c got rest depth n room =
      let e : (c == b'<') ≡ false = ground arith in
      step_advance emit size ending got rest c eoft depth eoft depth between_tags between_tags room
        (rw e)

  -- waiting for the end of "[CDATA["
  run_wait :
      (idx c : ℕ) (got rest : Bytes) (depth : ℕ)
      → length got < idx
      → length got + 1 < size
      → at got depth (exclamation_tag idx) (c ∷ rest)
        ≡ at (got ++ c ∷ []) depth (exclamation_tag idx) rest
  unfolding dispatch
  run_wait idx c got rest depth n room =
      let e : (idx == length got) ≡ false = ground arith in
      step_advance emit size ending got rest c eoft depth eoft depth (exclamation_tag idx)
        (exclamation_tag idx) room (rw e)

  run_waits :
      (idx : ℕ) (xs got rest : Bytes) (depth : ℕ)
      → length got + length xs ≤ idx
      → length got + length xs < size
      → at got depth (exclamation_tag idx) (xs ++ rest)
        ≡ at (got ++ xs) depth (exclamation_tag idx) rest
  run_waits idx [] got rest depth n room = rw append-nil
  run_waits idx (c ∷ xs) got rest depth n room =
      let more = length-append got (c ∷ []) in
      run_wait idx c got (xs ++ rest) depth (omega arith) (omega arith)
      ∙ run_waits idx xs (got ++ c ∷ []) rest depth (omega arith) (omega arith)
      ∙ rw append_assoc

  -- the last byte of "[CDATA["
  run_cdata_last :
      (idx : ℕ) (init got rest : Bytes) (depth : ℕ)
      → idx ≡ length got
      → got ++ b'[' ∷ [] ≡ init ++ cdata_open
      → length got + 1 < size
      → at got (depth + 1) (exclamation_tag idx) (b'[' ∷ rest)
        ≡ at (got ++ b'[' ∷ []) depth inside_cdata rest
  unfolding dispatch
  run_cdata_last idx init got rest depth i s room =
      let e : (idx == length got) ≡ true = ground arith in
      let found =
        last_equals-suffix
          (append_byte (holding size got eoft (depth + 1) (exclamation_tag idx)) b'[') init
          cdata_open s (sym (length-append got (b'[' ∷ []))) (omega arith) in
      step_advance emit size ending got rest b'[' eoft (depth + 1) eoft depth (exclamation_tag idx)
        inside_cdata room (rw (e, found, checked_sub-add depth 1))

  pub run_cdata_start :
      (got rest : Bytes) (depth : ℕ)
      → length got + 9 < size
      → at got depth between_tags (b'<' ∷ b'!' ∷ (cdata_open ++ rest))
        ≡ at (got ++ (b'<' ∷ b'!' ∷ cdata_open)) depth inside_cdata rest
  unfolding dispatch
  run_cdata_start got rest depth room =
      let one = length-append got (b'<' ∷ []) in
      let two = length-append (got ++ b'<' ∷ []) (b'!' ∷ []) in
      run_open got _ depth (omega arith)
      ∙ step_advance emit size ending (got ++ b'<' ∷ []) _ b'!' eoft (depth + 1) eoft (depth + 1)
          inside_tag_first_char (exclamation_tag (length (got ++ b'<' ∷ []) + 7))
          (omega (arith, length-append got (b'<' ∷ []))) refl
      ∙ run_waits (length (got ++ b'<' ∷ []) + 7) (codes "[CDATA") marked_up (b'[' ∷ rest)
          (depth + 1) (omega arith) (omega arith)
      ∙ run_cdata_last (length (got ++ b'<' ∷ []) + 7) marked_up (marked_up ++ codes "[CDATA") rest
          depth (omega (arith, length-append marked_up (codes "[CDATA")))
          (append_assoc marked_up (codes "[CDATA") (b'[' ∷ []))
          (omega (arith, length-append marked_up (codes "[CDATA")))
      ∙ simp append_assoc
    where
      marked_up : Bytes
      marked_up = (got ++ b'<' ∷ []) ++ b'!' ∷ []

  -- the body of a CDATA section, `u` of it read
  pub run_cdata_body :
      (base u v got rest : Bytes) (depth : ℕ)
      → got ≡ (base ++ b'[' ∷ []) ++ u
      → 2 ≤ length base
      → NoCdataEnd (u ++ v)
      → length got + length v < size
      → at got depth inside_cdata (v ++ rest) ≡ at (got ++ v) depth inside_cdata rest
  unfolding dispatch
  run_cdata_body base u [] got rest depth g l n room = rw append-nil
  run_cdata_body base u (c ∷ v) got rest depth g l n room =
      step_advance emit size ending got (v ++ rest) c eoft depth eoft depth inside_cdata
        inside_cdata (omega arith) (stays (Bool-cases (c == b'>')))
      ∙ run_cdata_body base (u ++ c ∷ []) v (got ++ c ∷ []) rest depth
          (ap (λ t. t ++ c ∷ []) g ∙ append_assoc (base ++ b'[' ∷ []) u (c ∷ [])) l
          (subst NoCdataEnd (sym (append_assoc u (c ∷ []) v)) n)
          (omega (arith, length-append got (c ∷ [])))
      ∙ rw append_assoc
    where
      here : StanzaFilter
      here = append_byte (holding size got eoft depth inside_cdata) c

      unended : c ≡ b'>' → last_equals here cdata_close ≡ ok false
      unended e =
          last_equals-other here cdata_close
            (λ init q.
              not_cdata_end base u v init (subst (λ x. NoCdataEnd (u ++ x ∷ v)) e n)
                (rw (← g) (subst (λ x. got ++ x ∷ [] ≡ init ++ cdata_close) e q)))
            (sym (length-append got (c ∷ []))) (omega arith)
            (omega (
              arith,
              length-append got (c ∷ []),
              ap length g,
              length-append (base ++ b'[' ∷ []) u,
              length-append base (b'[' ∷ []),
            ))

      stays :
          ((c == b'>') ≡ true) ⊎ ((c == b'>') ≡ false)
          → dispatch inside_cdata here c ≡ (advance, here)
      stays (inl y) = rw (y, unended ((==_iff c b'>').0 y))
      stays (inr o) = rw o

  pub run_cdata_end :
      (got rest : Bytes) (depth : ℕ)
      → length got + 3 < size
      → at got depth inside_cdata (cdata_close ++ rest)
        ≡ at (got ++ cdata_close) depth between_tags rest
  unfolding dispatch
  run_cdata_end got rest depth room =
      step_advance emit size ending got _ b']' eoft depth eoft depth inside_cdata inside_cdata
        (omega arith) refl
      ∙ step_advance emit size ending (got ++ b']' ∷ []) _ b']' eoft depth eoft depth inside_cdata
          inside_cdata (omega (arith, length-append got (b']' ∷ []))) refl
      ∙ step_advance emit size ending ((got ++ b']' ∷ []) ++ b']' ∷ []) rest b'>' eoft depth eoft
          depth inside_cdata between_tags
          (omega
            (arith, length-append got (b']' ∷ []), length-append (got ++ b']' ∷ []) (b']' ∷ [])))
          (rw (
            last_equals-suffix
              (append_byte (holding size ((got ++ b']' ∷ []) ++ b']' ∷ []) eoft depth inside_cdata)
                b'>')
              got cdata_close (simp append_assoc)
              (sym (length-append ((got ++ b']' ∷ []) ++ b']' ∷ []) (b'>' ∷ []))) (omega arith)))
      ∙ simp append_assoc
