-- ===== src/Filter/Stanza/Steps.antt =====
-- Single steps of the specification, from a state that is given by the bytes of the stanza so far.
use xmpp_proxy.Prelude.{
  ℕ, ◌+◌, ◌<◌, ◌≡◌, ◌≢◌, ◌==◌, false, Bytes, length, length-append, take-all, [], ◌∷◌, ◌++◌, some,
  ok, arith,
}
use xmpp_proxy.Filter.{
  StanzaState, outside_stanza, StanzaFilter, stanza_end, advance, finish, dispatch, settle,
}
use xmpp_proxy.Filter.Reader.{Ending, Read}
use xmpp_proxy.Filter.Scan.{view, append_byte, scan_byte, scan_loop}

-- the state in which `got` has been read of a stanza
abbrev pub holding : ℕ → Bytes → ℕ → ℕ → StanzaState → StanzaFilter
holding size got eoft depth state = record {
  buf_size = size;
  buf = got;
  end_of_first_tag = eoft;
  cnt = length got;
  tag_cnt = depth;
  state = state;
}

module _ {ℓ} {A : Type ℓ} (emit : StanzaFilter → ℕ → A × StanzaFilter) (size : ℕ)
    (ending : Ending) where
  -- the loop from such a state
  abbrev pub from : Bytes → ℕ → ℕ → StanzaState → Bytes → Read A
  from got eoft depth state src = scan_loop emit (holding size got eoft depth state) src ending

  view-advance :
      (got : Bytes) (b eoft depth : ℕ) (st : StanzaState)
      → view (record {
        buf_size = size;
        buf = got ++ b ∷ [];
        end_of_first_tag = eoft;
        cnt = length got + 1;
        tag_cnt = depth;
        state = st;
      })
        ≡ holding size (got ++ b ∷ []) eoft depth st
  view-advance got b eoft depth st =
      let e : length got + 1 ≡ length (got ++ b ∷ []) = omega (arith, length-append got (b ∷ [])) in
      rw (e, take-all (length (got ++ b ∷ [])) (got ++ b ∷ []) (omega arith))

  pub step_advance :
      (got rest : Bytes) (b eoft depth eoft' depth' : ℕ) (st st' : StanzaState)
      → length got + 1 < size
      → dispatch st (append_byte (holding size got eoft depth st) b) b ≡ (
        advance,
        record {
          buf_size = size;
          buf = got ++ b ∷ [];
          end_of_first_tag = eoft';
          cnt = length got;
          tag_cnt = depth';
          state = st';
        },
      )
      → from got eoft depth st (b ∷ rest) ≡ from (got ++ b ∷ []) eoft' depth' st' rest
  unfolding scan_loop scan_byte settle
  step_advance got rest b eoft depth eoft' depth' st st' room e =
      let fits : (length got + 1 == size) ≡ false = ground arith in
      rw (e, settle, fits, view-advance got b eoft' depth' st')

  -- the reader's result where a stanza ends
  abbrev pub finished : Bytes → ℕ → Bytes → Read A
  finished w eoft rest =
      let (a, g) =
        emit
          (record {
            buf_size = size;
            buf = w;
            end_of_first_tag = eoft;
            cnt = 0;
            tag_cnt = 0;
            state = outside_stanza;
          })
          (length w) in
      record { result = ok (some a); filter = g; rest = rest }

  pub step_finish :
      (got rest : Bytes) (b eoft depth eoft' depth' : ℕ) (st st' : StanzaState)
      → dispatch st (append_byte (holding size got eoft depth st) b) b ≡ (
        finish,
        record {
          buf_size = size;
          buf = got ++ b ∷ [];
          end_of_first_tag = eoft';
          cnt = length got;
          tag_cnt = depth';
          state = st';
        },
      )
      → from got eoft depth st (b ∷ rest) ≡ finished (got ++ b ∷ []) eoft' rest
  unfolding scan_loop scan_byte settle stanza_end
  step_finish got rest b eoft depth eoft' depth' st st' e =
      let n : length got + 1 ≡ length (got ++ b ∷ []) = omega (arith, length-append got (b ∷ [])) in
      rw (e, settle, n)

  -- outside a stanza everything up to a `<` is passed over
  pub step_ignore :
      (b eoft depth : ℕ) (rest : Bytes)
      → b ≢ b'<'
      → from [] eoft depth outside_stanza (b ∷ rest) ≡ from [] eoft depth outside_stanza rest
  unfolding scan_loop scan_byte settle dispatch
  step_ignore b eoft depth rest n = let e : (b == b'<') ≡ false = ground arith in rw (e, settle)
