-- ===== src/Filter/Stanza/Reads.antt =====
-- The reader of the program over streams of well-formed stanzas.
use xmpp_proxy.Prelude.{
  ℕ, ◌≤◌, ◌≡◌, refl, sym, ap, subst, ◌∙◌, List, Bytes, length, take-all, [], ◌∷◌, ◌++◌, some, ok,
  arith,
}
use xmpp_proxy.Filter.{StanzaFilter, new}
use xmpp_proxy.Filter.Calls.{IsReady, next_eoft-IsReady}
use xmpp_proxy.Filter.Cut.{NoOpen}
use xmpp_proxy.Filter.Reader.{Ending, Read, next_eoft, emit_eoft}
use xmpp_proxy.Filter.Scan.{view, scan_loop}
use xmpp_proxy.Filter.Scan.Refines.{next_eoft-SameRead, view-new}
use xmpp_proxy.Filter.Stanza.Runs.{run-IsStanza}
use xmpp_proxy.Filter.Stanza.Begins.{top}
use xmpp_proxy.Filter.Stanza.Steps.{step_ignore}
use xmpp_proxy.Filter.Stanza.Whole.{IsStanza, FirstTag}

skip-NoOpen :
    (size : ℕ) (ending : Ending) (skipped rest : Bytes)
    → NoOpen skipped
    → top emit_eoft size ending (skipped ++ rest) ≡ top emit_eoft size ending rest
skip-NoOpen size ending [] rest h = refl
skip-NoOpen size ending (b ∷ skipped) rest h =
    step_ignore emit_eoft size ending b 0 0 (skipped ++ rest) h.0
    ∙ skip-NoOpen size ending skipped rest h.1

view-IsReady : {size : ℕ} {f : StanzaFilter} → IsReady size f → view f ≡ view (new size)
view-IsReady {size} {f} r =
    view-new f r.valid r.outside r.unmarked ∙ ap (λ n. view (new n)) r.size_is

-- what a call that gives out `w` comes to
pub record GivesOut (size : ℕ) (w rest : Bytes) (r : Read (Bytes × ℕ)) : Type 0 where
  pub eoft : ℕ
  pub result : r.result ≡ ok (some (w, eoft))
  pub first_tag : FirstTag w eoft
  pub left : r.rest ≡ rest
  pub ready : IsReady size r.filter

-- A ready filter gives out a well-formed stanza that fits its buffer whole and alone, with the place
-- at which its first tag ends: it passes over what stands before it, reads none of what follows, and
-- is ready again.
pub next_eoft-GivesOut :
    (size : ℕ) (f : StanzaFilter) (skipped w rest : Bytes) (ending : Ending)
    → IsReady size f
    → NoOpen skipped
    → IsStanza w
    → length w ≤ size
    → GivesOut size w rest (next_eoft f (skipped ++ (w ++ rest)) ending)
next_eoft-GivesOut size f skipped w rest ending r n s fits =
    let (e, first, runs) = run-IsStanza emit_eoft size ending rest s fits in
    let same = next_eoft-SameRead f (skipped ++ (w ++ rest)) ending r.valid in
    let path =
      ap (λ v. scan_loop emit_eoft v (skipped ++ (w ++ rest)) ending) (view-IsReady r)
      ∙ skip-NoOpen size ending skipped (w ++ rest) n
      ∙ runs in
    let result =
      same.result
      ∙ ap (λ x. x.result) path
      ∙ ap (λ t. ok (some (t, e))) (take-all (length w) w (omega arith)) in
    record {
      eoft = e;
      result = result;
      first_tag = first;
      left = same.rest ∙ ap (λ x. x.rest) path;
      ready =
          subst (λ k. IsReady k (next_eoft f (skipped ++ (w ++ rest)) ending).filter) r.size_is
            (next_eoft-IsReady f (skipped ++ (w ++ rest)) ending r.valid result);
    }

-- Calls one after another give out the stanzas `ws`, and then `rest` is left.
pub data Gives (ending : Ending) (rest : Bytes) : StanzaFilter → Bytes → List Bytes → Type 0 where
  no_more : {f : StanzaFilter} → Gives ending rest f rest []
  one_more :
      {f : StanzaFilter} {src : Bytes} {w : Bytes} {ws : List Bytes} (eoft : ℕ)
      → (next_eoft f src ending).result ≡ ok (some (w, eoft))
      → Gives ending rest (next_eoft f src ending).filter (next_eoft f src ending).rest ws
      → Gives ending rest f src (w ∷ ws)

-- a stream: stanzas that fit the buffer, each behind bytes that the filter passes over
pub data IsStream (size : ℕ) (rest : Bytes) : Bytes → List Bytes → Type 0 where
  stream_end : IsStream size rest rest []
  stanza :
      (skipped : Bytes) {w : Bytes} {src : Bytes} {ws : List Bytes}
      → NoOpen skipped
      → IsStanza w
      → length w ≤ size
      → IsStream size rest src ws
      → IsStream size rest (skipped ++ (w ++ src)) (w ∷ ws)

-- From a stream of well-formed stanzas a ready filter gives out exactly these stanzas, in order.
pub IsStream-Gives :
    (size : ℕ) {rest src : Bytes} {ws : List Bytes} (f : StanzaFilter) (ending : Ending)
    → IsReady size f
    → IsStream size rest src ws
    → Gives ending rest f src ws
IsStream-Gives size f ending r stream_end = no_more
IsStream-Gives size {rest} f ending r (stanza skipped {w} {src} {ws} n s fits more) =
    let g = next_eoft-GivesOut size f skipped w src ending r n s fits in
    one_more g.eoft g.result (
      subst (λ t. Gives ending rest (next_eoft f (skipped ++ (w ++ src)) ending).filter t ws)
        (sym g.left)
        (IsStream-Gives size (next_eoft f (skipped ++ (w ++ src)) ending).filter ending g.ready
          more))
