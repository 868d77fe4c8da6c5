-- ===== src/Filter/Stanza/Begins.antt =====
-- The specification from outside a stanza: elements and openings.
use xmpp_proxy.Prelude.{
  ℕ, suc, ◌+◌, ◌≤◌, ◌<◌, ◌≡◌, refl, ap, ◌∙◌, true, false, Bytes, starts_with, length, length-append,
  [], ◌∷◌, ◌++◌, append_assoc, arith,
}
use xmpp_proxy.Filter.{
  outside_stanza, stanza_first_char, inside_tag, StanzaFilter, dispatch, stream_open, tag_end,
}
use xmpp_proxy.Filter.Reader.{Ending, Read}
use xmpp_proxy.Filter.Scan.{append_byte}
use xmpp_proxy.Filter.Scan.Cuts.{Lacks}
use xmpp_proxy.Filter.Stanza.{Avoids, none_left, other, IsTag, NoSlash, IsContent}
use xmpp_proxy.Filter.Stanza.Elements.{run_inside, run-IsContent}
use xmpp_proxy.Filter.Stanza.Steps.{holding, from, step_advance, finished, step_finish}
use xmpp_proxy.Filter.Stanza.Tags.{marked, run-IsTag, first_char_begins}
use xmpp_proxy.Filter.Stanza.TagEnds.{
  run_slash, NoSlash-append, dispatch-tag_end, dispatch_self_close,
}
use xmpp_proxy.Filter.Stanza.Whole.{
  first_tag-Quiet, is_stream_open-of_starts, tag_end-closed, tag_end-stream,
}

marked_kept : (e : ℕ) (got : Bytes) → marked (suc e) got ≡ suc e
marked_kept e got = ground arith

pub Avoids-of_Lacks : (c : ℕ) (xs : Bytes) → Lacks c xs → Avoids c xs
Avoids-of_Lacks c [] h = none_left
Avoids-of_Lacks c (x ∷ xs) h = other h.0 (Avoids-of_Lacks c xs h.1)

module _ {ℓ} {A : Type ℓ} (emit : StanzaFilter → ℕ → A × StanzaFilter) (size : ℕ)
    (ending : Ending) where
  abbrev pub top : Bytes → Read A
  top src = from emit size ending [] 0 0 outside_stanza src

  pub run_begin :
      (rest : Bytes)
      → 1 < size
      → top (b'<' ∷ rest) ≡ from emit size ending (b'<' ∷ []) 0 1 stanza_first_char rest
  unfolding dispatch
  run_begin rest room =
      step_advance emit size ending [] rest b'<' 0 0 0 1 outside_stanza stanza_first_char room refl

  -- up to the end of the first tag's text
  run_first_tag :
      {t : Bytes} (rest : Bytes)
      → IsTag t
      → length t + 1 < size
      → top (b'<' ∷ (t ++ rest)) ≡ from emit size ending (b'<' ∷ t) 0 1 inside_tag rest
  run_first_tag {t} rest h room =
      run_begin (t ++ rest) (omega arith)
      ∙ run-IsTag emit size ending 0 1 (b'<' ∷ []) rest stanza_first_char first_char_begins h
          (omega arith)

  pub run-empty_element :
      {t : Bytes} (rest : Bytes)
      → IsTag t
      → length t + 3 ≤ size
      → top (b'<' ∷ (t ++ (b'/' ∷ b'>' ∷ rest)))
        ≡ finished emit size ending (b'<' ∷ (t ++ (b'/' ∷ b'>' ∷ []))) (suc (suc (length t))) rest
  run-empty_element {t} rest h room =
      let read = (b'<' ∷ t) ++ b'/' ∷ [] in
      let l = length-append t (b'/' ∷ []) in
      let e : marked 0 read ≡ suc (suc (length t)) = omega arith in
      run_first_tag (b'/' ∷ b'>' ∷ rest) h (omega arith)
      ∙ run_slash emit size ending (b'<' ∷ t) (b'>' ∷ rest) 0 1 (omega arith)
      ∙ step_finish emit size ending read rest b'>' 0 1 (marked 0 read) 0 inside_tag inside_tag (
          ap (λ d. dispatch inside_tag (append_byte (holding size read 0 d inside_tag) b'>') b'>')
            one
          ∙ dispatch_self_close size (b'<' ∷ t) 0 0
          ∙ tag_end-closed (append_byte (holding size read (marked 0 read) 0 inside_tag) b'>') refl)
      ∙ rw e (simp append_assoc)
    where
      one : ◌≡◌ {A = ℕ} 1 (0 + 1)
      one = refl

  pub run-opening :
      {t : Bytes} (rest : Bytes)
      → IsTag t
      → NoSlash t
      → starts_with (b'<' ∷ (t ++ (b'>' ∷ []))) stream_open ≡ true
      → length t + 2 ≤ size
      → top (b'<' ∷ (t ++ (b'>' ∷ rest)))
        ≡ finished emit size ending (b'<' ∷ (t ++ (b'>' ∷ []))) (suc (length t)) rest
  run-opening {t} rest h n s room =
      run_first_tag (b'>' ∷ rest) h (omega arith)
      ∙ step_finish emit size ending (b'<' ∷ t) rest b'>' 0 1 (suc (length t)) 1 inside_tag
          inside_tag
          (dispatch-tag_end size (b'<' ∷ t) 0 1 (NoSlash-append (b'<' ∷ []) n)
            ∙ tag_end-stream
                (append_byte (holding size (b'<' ∷ t) (suc (length t)) 1 inside_tag) b'>') refl
                (is_stream_open-of_starts _ s))

  pub run-element :
      {t k : Bytes} (c rest : Bytes)
      → IsTag t
      → NoSlash t
      → IsContent c
      → IsTag k
      → NoSlash k
      → starts_with (b'<' ∷ (t ++ (b'>' ∷ (c ++ (b'<' ∷ b'/' ∷ (k ++ (b'>' ∷ []))))))) stream_open
        ≡ false
      → length t + length c + length k + 5 ≤ size
      → top (b'<' ∷ (t ++ (b'>' ∷ (c ++ (b'<' ∷ b'/' ∷ (k ++ (b'>' ∷ rest)))))))
        ≡ finished emit size ending
            (b'<' ∷ (t ++ (b'>' ∷ (c ++ (b'<' ∷ b'/' ∷ (k ++ (b'>' ∷ [])))))))
            (suc (length t))
            rest
  run-element {t} {k} c rest h n inner h' n' s room =
      let body = b'>' ∷ (c ++ (b'<' ∷ b'/' ∷ k)) in
      let quiet = first_tag-Quiet (b'<' ∷ t) (c ++ (b'<' ∷ b'/' ∷ (k ++ (b'>' ∷ [])))) s in
      let l = length-append t (b'>' ∷ []) in
      run_first_tag (b'>' ∷ (c ++ (b'<' ∷ b'/' ∷ (k ++ (b'>' ∷ rest))))) h (omega arith)
      ∙ run_inside emit size ending c k (b'<' ∷ t) (b'>' ∷ rest) 0 0 (NoSlash-append (b'<' ∷ []) n)
          quiet h' (omega arith)
          (λ rest'.
            run-IsContent emit size ending (suc (length t)) (marked_kept (length t)) inner
              ((b'<' ∷ t) ++ b'>' ∷ []) rest' 1 (omega arith) quiet (omega arith))
      ∙ step_finish emit size ending ((b'<' ∷ t) ++ body) rest b'>' (suc (length t)) 0
          (suc (length t)) 0 inside_tag inside_tag
          (dispatch-tag_end size ((b'<' ∷ t) ++ body) (suc (length t)) 0 (
              NoSlash-append (b'<' ∷ t) (
                NoSlash-append (b'>' ∷ [])
                  (NoSlash-append c (NoSlash-append (b'<' ∷ b'/' ∷ []) n'))))
            ∙ ap
                (λ e. tag_end (append_byte (holding size ((b'<' ∷ t) ++ body) e 0 inside_tag) b'>'))
                (marked_kept (length t) ((b'<' ∷ t) ++ body))
            ∙ tag_end-closed
                (append_byte (holding size ((b'<' ∷ t) ++ body) (suc (length t)) 0 inside_tag) b'>')
                refl)
      ∙ simp append_assoc
