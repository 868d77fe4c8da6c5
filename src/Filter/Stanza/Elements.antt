-- ===== src/Filter/Stanza/Elements.antt =====
-- The specification over whole elements inside a stanza, and over their content.
use xmpp_proxy.Prelude.{
  ℕ, ◌+◌, ◌<◌, ◌≡◌, ◌≢◌, ◌∙◌, Bytes, codes, length, length-append, [], ◌∷◌, ◌++◌, append_assoc,
  append-nil, arith,
}
use xmpp_proxy.Filter.{
  inside_tag, inside_tag_first_char, between_tags, StanzaFilter, dispatch, cdata_open, cdata_close,
}
use xmpp_proxy.Filter.Reader.{Ending}
use xmpp_proxy.Filter.Stanza.{
  IsTag, NoSlash, NoCdataEnd, IsElement, empty_element, element, IsContent, nothing, text, cdata,
  child,
}
use xmpp_proxy.Filter.Stanza.Content.{
  checked_sub-two, run_open, run_text, run_cdata_start, run_cdata_body, run_cdata_end,
}
use xmpp_proxy.Filter.Stanza.Steps.{from, step_advance}
use xmpp_proxy.Filter.Stanza.Tags.{Quiet, Quiet-append, marked, run-IsTag, inner_char_begins}
use xmpp_proxy.Filter.Stanza.TagEnds.{run_tag_end, run_self_close, NoSlash-append}

module _ {ℓ} {A : Type ℓ} (emit : StanzaFilter → ℕ → A × StanzaFilter) (size : ℕ)
    (ending : Ending) where
  -- "</" takes back the two tags that it stands for
  run_close_start :
      (got rest : Bytes) (eoft depth : ℕ)
      → length got + 2 < size
      → from emit size ending got eoft (depth + 1) between_tags (b'<' ∷ b'/' ∷ rest)
        ≡ from emit size ending
            ((got ++ b'<' ∷ []) ++ b'/' ∷ [])
            eoft
            depth
            inside_tag_first_char
            rest
  unfolding dispatch
  run_close_start got rest eoft depth room =
      run_open emit size ending eoft got (b'/' ∷ rest) (depth + 1) (omega arith)
      ∙ step_advance emit size ending (got ++ b'<' ∷ []) rest b'/' eoft (depth + 1 + 1) eoft depth
          inside_tag_first_char inside_tag_first_char (omega (arith, length-append got (b'<' ∷ [])))
          (rw (checked_sub-two depth))

  -- from the `>` of an opening tag up to the `>` of the closing one, with the run over the content
  -- as an argument
  pub run_inside :
      (c k got rest : Bytes) (eoft depth : ℕ)
      → NoSlash got
      → Quiet (got ++ b'>' ∷ [])
      → IsTag k
      → length got + length c + length k + 3 < size
      → ((rest' : Bytes)
          → from emit size ending
              (got ++ b'>' ∷ [])
              (marked eoft got)
              (depth + 1)
              between_tags
              (c ++ rest')
            ≡ from emit size ending
                ((got ++ b'>' ∷ []) ++ c)
                (marked eoft got)
                (depth + 1)
                between_tags
                rest')
      → from emit size ending got eoft
          (depth + 1)
          inside_tag
          (b'>' ∷ (c ++ (b'<' ∷ b'/' ∷ (k ++ rest))))
        ≡ from emit size ending
            (got ++ (b'>' ∷ (c ++ (b'<' ∷ b'/' ∷ k))))
            (marked eoft got)
            depth
            inside_tag
            rest
  run_inside c k got rest eoft depth n q t room content =
      let opened = got ++ b'>' ∷ [] in
      let filled = opened ++ c in
      let closing = (filled ++ b'<' ∷ []) ++ b'/' ∷ [] in
      let l₁ = length-append got (b'>' ∷ []) in
      let l₂ = length-append opened c in
      let l₃ = length-append filled (b'<' ∷ []) in
      let l₄ = length-append (filled ++ b'<' ∷ []) (b'/' ∷ []) in
      run_tag_end emit size ending got (c ++ (b'<' ∷ b'/' ∷ (k ++ rest))) eoft (depth + 1) n
        (omega arith) q (omega arith)
      ∙ content (b'<' ∷ b'/' ∷ (k ++ rest))
      ∙ run_close_start filled (k ++ rest) (marked eoft got) depth (omega arith)
      ∙ run-IsTag emit size ending (marked eoft got) depth closing rest inside_tag_first_char
          inner_char_begins t (omega arith)
      ∙ simp append_assoc

module _ {ℓ} {A : Type ℓ} (emit : StanzaFilter → ℕ → A × StanzaFilter) (size : ℕ) (ending : Ending)
    (eoft : ℕ) (begun : (got : Bytes) → marked eoft got ≡ eoft) where
  abbrev Passes : Bytes → Type ℓ
  Passes w =
      (got rest : Bytes) (depth : ℕ)
      → 0 < depth
      → Quiet got
      → length got + length w < size
      → from emit size ending got eoft depth between_tags (w ++ rest)
        ≡ from emit size ending (got ++ w) eoft depth between_tags rest

  Passes-empty : {t : Bytes} → IsTag t → Passes (b'<' ∷ (t ++ (b'/' ∷ b'>' ∷ [])))
  Passes-empty {t} h got rest depth p q room =
      let opened = got ++ b'<' ∷ [] in
      let read = opened ++ t in
      let l₁ = length-append got (b'<' ∷ []) in
      let l₂ = length-append opened t in
      let l₃ = length-append t (b'/' ∷ b'>' ∷ []) in
      let quiet : Quiet ((read ++ b'/' ∷ []) ++ b'>' ∷ []) =
        Quiet-append (read ++ b'/' ∷ []) (b'>' ∷ []) (
          Quiet-append read (b'/' ∷ []) (Quiet-append opened t (Quiet-append got (b'<' ∷ []) q))) in
      rw (append_assoc t (b'/' ∷ b'>' ∷ []) rest) (
        run_open emit size ending eoft got (t ++ (b'/' ∷ b'>' ∷ rest)) depth (omega arith)
        ∙ run-IsTag emit size ending eoft (depth + 1) opened (b'/' ∷ b'>' ∷ rest)
            inside_tag_first_char inner_char_begins h (omega arith)
        ∙ run_self_close emit size ending read rest eoft depth p quiet (omega arith)
        ∙ rw (begun (read ++ b'/' ∷ [])) (simp append_assoc))

  Passes-element :
      {t k : Bytes} (c : Bytes)
      → IsTag t
      → NoSlash t
      → Passes c
      → IsTag k
      → NoSlash k
      → Passes (b'<' ∷ (t ++ (b'>' ∷ (c ++ (b'<' ∷ b'/' ∷ (k ++ (b'>' ∷ [])))))))
  Passes-element {t} {k} c h n inner h' n' got rest depth p q room =
      let opened = got ++ b'<' ∷ [] in
      let read = opened ++ t in
      let closing = b'<' ∷ b'/' ∷ k in
      let body = b'>' ∷ (c ++ closing) in
      let l₁ = length-append got (b'<' ∷ []) in
      let l₂ = length-append opened t in
      let l₃ = length-append t (b'>' ∷ (c ++ (b'<' ∷ b'/' ∷ (k ++ (b'>' ∷ []))))) in
      let l₄ = length-append c (b'<' ∷ b'/' ∷ (k ++ (b'>' ∷ []))) in
      let l₅ = length-append k (b'>' ∷ []) in
      let l₆ = length-append c closing in
      let l₇ = length-append read body in
      let l₈ = length-append read (b'>' ∷ []) in
      let quiet = Quiet-append opened t (Quiet-append got (b'<' ∷ []) q) in
      simp append_assoc (
        run_open emit size ending eoft got
          (t ++ (b'>' ∷ (c ++ (b'<' ∷ b'/' ∷ (k ++ (b'>' ∷ rest)))))) depth (omega arith)
        ∙ run-IsTag emit size ending eoft (depth + 1) opened
            (b'>' ∷ (c ++ (b'<' ∷ b'/' ∷ (k ++ (b'>' ∷ rest))))) inside_tag_first_char
            inner_char_begins h (omega arith)
        ∙ run_inside emit size ending c k read (b'>' ∷ rest) eoft depth (NoSlash-append opened n)
            (Quiet-append read (b'>' ∷ []) quiet) h' (omega arith)
            (λ rest'. rw (begun read) (
              inner (read ++ b'>' ∷ []) rest' (depth + 1) (omega arith)
                (Quiet-append read (b'>' ∷ []) quiet) (omega arith)))
        ∙ run_tag_end emit size ending (read ++ body) rest (marked eoft read) depth
            (NoSlash-append read (
              NoSlash-append (b'>' ∷ []) (NoSlash-append c (NoSlash-append (b'<' ∷ b'/' ∷ []) n'))))
            p (Quiet-append (read ++ body) (b'>' ∷ []) (Quiet-append read body quiet)) (omega arith)
        ∙ rw (begun read, begun (read ++ body)) (simp append_assoc))

  Passes-text : {c : ℕ} (cs : Bytes) → c ≢ b'<' → Passes cs → Passes (c ∷ cs)
  Passes-text {c} cs n later got rest depth p q room =
      let l = length-append got (c ∷ []) in
      run_text emit size ending eoft c got (cs ++ rest) depth n (omega arith)
      ∙ later (got ++ c ∷ []) rest depth p (Quiet-append got (c ∷ []) q) (omega arith)
      ∙ rw append_assoc

  Passes-cdata :
      (body cs : Bytes)
      → NoCdataEnd body
      → Passes cs
      → Passes (b'<' ∷ b'!' ∷ (cdata_open ++ (body ++ (cdata_close ++ cs))))
  Passes-cdata body cs n later got rest depth p q room =
      let head = b'<' ∷ b'!' ∷ codes "[CDATA" in
      let opened = got ++ (b'<' ∷ b'!' ∷ cdata_open) in
      let filled = opened ++ body in
      let l₁ = length-append got (b'<' ∷ b'!' ∷ cdata_open) in
      let l₂ = length-append opened body in
      let l₃ = length-append body (cdata_close ++ cs) in
      let l₄ = length-append filled cdata_close in
      let l₅ = length-append got head in
      simp append_assoc (
        run_cdata_start emit size ending eoft got (body ++ (cdata_close ++ (cs ++ rest))) depth
          (omega arith)
        ∙ run_cdata_body emit size ending eoft (got ++ head) [] body opened
            (cdata_close ++ (cs ++ rest)) depth (simp (append_assoc, append-nil)) (omega arith) n
            (omega arith)
        ∙ run_cdata_end emit size ending eoft filled (cs ++ rest) depth (omega arith)
        ∙ later (filled ++ cdata_close) rest depth p
            (Quiet-append filled cdata_close
              (Quiet-append opened body (Quiet-append got (b'<' ∷ b'!' ∷ cdata_open) q)))
            (omega arith)
        ∙ simp append_assoc)

  Passes-append : (u v : Bytes) → Passes u → Passes v → Passes (u ++ v)
  Passes-append u v f g got rest depth p q room =
      let l₁ = length-append u v in
      let l₂ = length-append got u in
      rw (append_assoc u v rest) (
        f got (v ++ rest) depth p q (omega arith)
        ∙ g (got ++ u) rest depth p (Quiet-append got u q) (omega arith)
        ∙ rw append_assoc)

  Passes-nil : Passes []
  Passes-nil got rest depth p q room = rw append-nil

  mutual
    pub run-IsElement : {w : Bytes} → IsElement w → Passes w
    run-IsElement (empty_element h) = Passes-empty h
    run-IsElement (element {c} h n inner h' n') = Passes-element c h n (run-IsContent inner) h' n'

    pub run-IsContent : {w : Bytes} → IsContent w → Passes w
    run-IsContent nothing = Passes-nil
    run-IsContent (text {cs} n later) = Passes-text cs n (run-IsContent later)
    run-IsContent (cdata body {cs} n later) = Passes-cdata body cs n (run-IsContent later)
    run-IsContent (child {e} {cs} h later) =
        Passes-append e cs (run-IsElement h) (run-IsContent later)
