-- ===== src/Filter/Stanza/Runs.antt =====
-- The specification from outside a stanza up to its last byte, for each kind of stanza.
use xmpp_proxy.Prelude.{
  ℕ, suc, ◌+◌, ◌≤◌, ◌<◌, ◌≡◌, ◌≢◌, refl, ◌∙◌, Bytes, codes, starts_with-append, length,
  length-append, [], ◌∷◌, ◌++◌, append_assoc, append-nil, arith,
}
use xmpp_proxy.Filter.{
  StanzaState, stanza_first_char, end_stream, question_tag, inside_xml_tag, StanzaFilter, advance,
  dispatch, stream_close, xml_decl, mark_first_tag,
}
use xmpp_proxy.Filter.Reader.{Ending}
use xmpp_proxy.Filter.Scan.{append_byte}
use xmpp_proxy.Filter.Stanza.{Avoids, none_left, other, empty_element, element}
use xmpp_proxy.Filter.Stanza.Steps.{holding, from, step_advance, finished, step_finish}
use xmpp_proxy.Filter.Stanza.Suffix.{last_equals-suffix}
use xmpp_proxy.Filter.Stanza.Whole.{
  IsStanza, whole_element, opening, closing, declaration, FirstTag, at_tag, at_empty, at_close,
  no_tag,
}
use xmpp_proxy.Filter.Stanza.Begins.{
  Avoids-of_Lacks, top, run_begin, run-empty_element, run-opening, run-element,
}

module _ {ℓ} {A : Type ℓ} (emit : StanzaFilter → ℕ → A × StanzaFilter) (size : ℕ)
    (ending : Ending) where
  -- in the closing of a stream
  run-Avoids :
      {xs : Bytes} (st : StanzaState) (got rest : Bytes) (depth : ℕ)
      → ((f : StanzaFilter) (b : ℕ) → b ≢ b'>' → dispatch st f b ≡ (advance, f))
      → Avoids b'>' xs
      → length got + length xs < size
      → from emit size ending got 0 depth st (xs ++ rest)
        ≡ from emit size ending (got ++ xs) 0 depth st rest
  run-Avoids st got rest depth stays none_left room = rw append-nil
  run-Avoids st got rest depth stays (other {x} {xs} n a) room =
      let l = length-append got (x ∷ []) in
      step_advance emit size ending got (xs ++ rest) x 0 depth 0 depth st st (omega arith)
        (stays (append_byte (holding size got 0 depth st) x) x n)
      ∙ run-Avoids st (got ++ x ∷ []) rest depth stays a (omega arith)
      ∙ rw append_assoc

end_stream_stays : (f : StanzaFilter) (b : ℕ) → b ≢ b'>' → dispatch end_stream f b ≡ (advance, f)
unfolding dispatch
end_stream_stays f b n = ground arith

xml_tag_stays : (f : StanzaFilter) (b : ℕ) → b ≢ b'>' → dispatch inside_xml_tag f b ≡ (advance, f)
unfolding dispatch
xml_tag_stays f b n = ground arith

module _ {ℓ} {A : Type ℓ} (emit : StanzaFilter → ℕ → A × StanzaFilter) (size : ℕ)
    (ending : Ending) where
  run_closing :
      (rest : Bytes)
      → 16 ≤ size
      → top emit size ending (stream_close ++ rest) ≡ finished emit size ending stream_close 15 rest
  unfolding dispatch mark_first_tag
  run_closing rest room =
      run_begin emit size ending (codes "/stream:stream>" ++ rest) (omega arith)
      ∙ step_advance emit size ending (codes "<") (codes "stream:stream>" ++ rest) b'/' 0 1 0 1
          stanza_first_char end_stream (omega arith) refl
      ∙ run-Avoids emit size ending {xs = codes "stream:stream"} end_stream (codes "</")
          (b'>' ∷ rest) 1 end_stream_stays
          (Avoids-of_Lacks b'>' (codes "stream:stream") (omega arith)) (omega arith)
      ∙ step_finish emit size ending (codes "</stream:stream") rest b'>' 0 1 15 1 end_stream
          end_stream
          (rw (
            last_equals-suffix
              (append_byte (holding size (codes "</stream:stream") 0 1 end_stream) b'>') []
              stream_close refl refl (omega arith)))

  run_declaration :
      {t : Bytes} (rest : Bytes)
      → Avoids b'>' t
      → length t + 7 ≤ size
      → top emit size ending (b'<' ∷ b'?' ∷ (xml_decl ++ (t ++ (b'>' ∷ rest))))
        ≡ finished emit size ending (b'<' ∷ b'?' ∷ (xml_decl ++ (t ++ (b'>' ∷ [])))) 0 rest
  unfolding dispatch
  run_declaration {t} rest a room =
      run_begin emit size ending (b'?' ∷ (xml_decl ++ (t ++ (b'>' ∷ rest)))) (omega arith)
      ∙ step_advance emit size ending (codes "<") _ b'?' 0 1 0 1 stanza_first_char (question_tag 5)
          (omega arith) refl
      ∙ step_advance emit size ending (codes "<?") _ b'x' 0 1 0 1 (question_tag 5) (question_tag 5)
          (omega arith) refl
      ∙ step_advance emit size ending (codes "<?x") _ b'm' 0 1 0 1 (question_tag 5) (question_tag 5)
          (omega arith) refl
      ∙ step_advance emit size ending (codes "<?xm") _ b'l' 0 1 0 1 (question_tag 5)
          (question_tag 5) (omega arith) refl
      ∙ step_advance emit size ending (codes "<?xml") _ b' ' 0 1 0 1 (question_tag 5) inside_xml_tag
          (omega arith)
          (rw (
            last_equals-suffix
              (append_byte (holding size (codes "<?xml") 0 1 (question_tag 5)) b' ') (codes "<?")
              xml_decl refl refl (omega arith)))
      ∙ run-Avoids emit size ending inside_xml_tag (codes "<?xml ") (b'>' ∷ rest) 1 xml_tag_stays a
          (omega arith)
      ∙ step_finish emit size ending (codes "<?xml " ++ t) rest b'>' 0 1 0 1 inside_xml_tag
          inside_xml_tag refl

  measure_element :
      (t c k : Bytes)
      → length (b'<' ∷ (t ++ (b'>' ∷ (c ++ (b'<' ∷ b'/' ∷ (k ++ (b'>' ∷ [])))))))
        ≡ length t + length c + length k + 5
  measure_element t c k = omega (
    arith,
    length-append t (b'>' ∷ (c ++ (b'<' ∷ b'/' ∷ (k ++ (b'>' ∷ []))))),
    length-append c (b'<' ∷ b'/' ∷ (k ++ (b'>' ∷ []))),
    length-append k (b'>' ∷ []),
  )

  -- From outside a stanza each kind of stanza is given out as it ends, at the place of its first tag.
  pub run-IsStanza :
      {w : Bytes} (rest : Bytes)
      → IsStanza w
      → length w ≤ size
      → (e : ℕ) × FirstTag w e
        × (top emit size ending (w ++ rest) ≡ finished emit size ending w e rest)
  run-IsStanza rest (whole_element (empty_element {t} h) s) room =
      let l = length-append t (b'/' ∷ b'>' ∷ []) in
      (
        suc (suc (length t)),
        at_empty t h refl refl,
        rw (append_assoc t (b'/' ∷ b'>' ∷ []) rest)
            (run-empty_element emit size ending rest h (omega arith)),
      )
  run-IsStanza rest (whole_element (element {t} {c} {k} h n inner h' n') s) room = (
    suc (length t),
    at_tag t (c ++ (b'<' ∷ b'/' ∷ (k ++ (b'>' ∷ [])))) h refl refl,
    simp append_assoc (
        run-element emit size ending c rest h n inner h' n' s
          (omega (arith, measure_element t c k))),
  )
  run-IsStanza rest (opening {t} h n s) room =
      let l = length-append t (b'>' ∷ []) in
      (
        suc (length t),
        at_tag t [] h refl refl,
        rw (append_assoc t (b'>' ∷ []) rest)
            (run-opening emit size ending rest h n s (omega arith)),
      )
  run-IsStanza rest closing room = (15, at_close refl refl, run_closing rest room)
  run-IsStanza rest (declaration {t} a) room =
      let l = length-append t (b'>' ∷ []) in
      (
        0,
        no_tag (starts_with-append (codes "<?xml ") (t ++ (b'>' ∷ []))) refl,
        rw (append_assoc t (b'>' ∷ []) rest) (run_declaration rest a (omega arith)),
      )
