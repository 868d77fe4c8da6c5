-- ===== src/Filter/Stanza/TagEnds.antt =====
-- The specification at the `>` behind a tag.
use xmpp_proxy.Prelude.{
  ℕ, ◌+◌, ◌-◌, ◌<◌, ◌≡◌, refl, sym, ap, ◌∙◌, ◌==◌, ltb, Bool, true, false, ◌&&◌, if◌then◌else◌,
  Bytes, length, length-append, [], ◌∷◌, ◌++◌, append_assoc, append-nil, some, arith,
}
use xmpp_proxy.Filter.{
  inside_tag, between_tags, StanzaFilter, advance, Turn, dispatch, tag_end, self_closing, close_tag,
  previous_byte, mark_first_tag, checked_sub,
}
use xmpp_proxy.Filter.Reader.{Ending}
use xmpp_proxy.Filter.Scan.{append_byte}
use xmpp_proxy.Filter.Stanza.{NoSlash}
use xmpp_proxy.Filter.Stanza.Steps.{holding, from, step_advance}
use xmpp_proxy.Filter.Stanza.Tags.{is_stream_open, Quiet, marked, previous_byte-append}

-- at the `>` of a tag that does not close itself
pub dispatch-tag_end :
    (size : ℕ) (got : Bytes) (eoft depth : ℕ)
    → NoSlash got
    → dispatch inside_tag (append_byte (holding size got eoft depth inside_tag) b'>') b'>'
      ≡ tag_end (append_byte (holding size got (marked eoft got) depth inside_tag) b'>')
unfolding dispatch self_closing close_tag mark_first_tag
dispatch-tag_end size got eoft depth n =
    let e : (n.last == b'/') ≡ false = ground arith in
    let before : previous_byte (length got) (got ++ b'>' ∷ []) ≡ some n.last =
      ap (λ g. previous_byte (length g) (g ++ b'>' ∷ [])) n.splits
      ∙ previous_byte-append n.init n.last (b'>' ∷ []) in
    ap (λ o. close_tag o (append_byte (holding size got (marked eoft got) depth inside_tag) b'>'))
      before
    ∙ rw e

pub NoSlash-append : (got : Bytes) {t : Bytes} → NoSlash t → NoSlash (got ++ t)
NoSlash-append got n = record {
  init = got ++ n.init;
  last = n.last;
  splits = ap (◌++◌ got) n.splits ∙ sym (append_assoc got n.init (n.last ∷ []));
  not_slash = n.not_slash;
}

tag_end-open :
    (f : StanzaFilter)
    → 0 < f.tag_cnt
    → Quiet f.buf
    → tag_end f ≡ (advance, record f { state = between_tags })
unfolding tag_end
tag_end-open f p q =
    let quiet : is_stream_open f.buf ≡ false = ap is_stream_open (sym (append-nil f.buf)) ∙ q [] in
    let e : (f.tag_cnt == 0) ≡ false = ground arith in
    rw (e, quiet) (if_and_false (f.tag_cnt == 1) _ _)
  where
    if_and_false : (b : Bool) (x y : Turn) → (if b && false then x else y) ≡ y
    if_and_false true x y = refl
    if_and_false false x y = refl

module _ {ℓ} {A : Type ℓ} (emit : StanzaFilter → ℕ → A × StanzaFilter) (size : ℕ)
    (ending : Ending) where
  -- the `>` of a tag inside a stanza
  pub run_tag_end :
      (got rest : Bytes) (eoft depth : ℕ)
      → NoSlash got
      → 0 < depth
      → Quiet (got ++ b'>' ∷ [])
      → length got + 1 < size
      → from emit size ending got eoft depth inside_tag (b'>' ∷ rest)
        ≡ from emit size ending (got ++ b'>' ∷ []) (marked eoft got) depth between_tags rest
  run_tag_end got rest eoft depth n p q room =
      step_advance emit size ending got rest b'>' eoft depth (marked eoft got) depth inside_tag
        between_tags room
        (dispatch-tag_end size got eoft depth n
          ∙ tag_end-open (append_byte (holding size got (marked eoft got) depth inside_tag) b'>') p
              q)

-- at the `>` of a tag that closes itself
pub dispatch_self_close :
    (size : ℕ) (got : Bytes) (eoft depth : ℕ)
    → dispatch inside_tag
        (append_byte (holding size (got ++ b'/' ∷ []) eoft (depth + 1) inside_tag) b'>')
        b'>'
      ≡ tag_end (
          append_byte
            (holding size (got ++ b'/' ∷ []) (marked eoft (got ++ b'/' ∷ [])) depth inside_tag)
            b'>')
unfolding dispatch self_closing close_tag mark_first_tag checked_sub
dispatch_self_close size got eoft depth =
    let e : ltb (depth + 1) 1 ≡ false = ground arith in
    let f : depth + 1 - 1 ≡ depth = omega arith in
    ap
      (λ o. close_tag o (
        append_byte
          (holding size (got ++ b'/' ∷ []) (marked eoft (got ++ b'/' ∷ [])) (depth + 1) inside_tag)
          b'>'))
      (previous_byte-append got b'/' (b'>' ∷ []))
    ∙ rw (e, f)

module _ {ℓ} {A : Type ℓ} (emit : StanzaFilter → ℕ → A × StanzaFilter) (size : ℕ)
    (ending : Ending) where
  -- the `/` in front of it
  pub run_slash :
      (got rest : Bytes) (eoft depth : ℕ)
      → length got + 1 < size
      → from emit size ending got eoft depth inside_tag (b'/' ∷ rest)
        ≡ from emit size ending (got ++ b'/' ∷ []) eoft depth inside_tag rest
  unfolding dispatch
  run_slash got rest eoft depth room =
      step_advance emit size ending got rest b'/' eoft depth eoft depth inside_tag inside_tag room
        refl

  pub run_self_close :
      (got rest : Bytes) (eoft depth : ℕ)
      → 0 < depth
      → Quiet ((got ++ b'/' ∷ []) ++ b'>' ∷ [])
      → length got + 2 < size
      → from emit size ending got eoft (depth + 1) inside_tag (b'/' ∷ b'>' ∷ rest)
        ≡ from emit size ending
            ((got ++ b'/' ∷ []) ++ b'>' ∷ [])
            (marked eoft (got ++ b'/' ∷ []))
            depth
            between_tags
            rest
  run_self_close got rest eoft depth p q room =
      let more = length-append got (b'/' ∷ []) in
      run_slash got (b'>' ∷ rest) eoft (depth + 1) (omega arith)
      ∙ step_advance emit size ending (got ++ b'/' ∷ []) rest b'>' eoft (depth + 1)
          (marked eoft (got ++ b'/' ∷ [])) depth inside_tag between_tags (omega arith)
          (dispatch_self_close size got eoft depth
            ∙ tag_end-open
                (append_byte
                  (holding size (got ++ b'/' ∷ []) (marked eoft (got ++ b'/' ∷ [])) depth
                    inside_tag)
                  b'>')
                p q)
