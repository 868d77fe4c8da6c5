-- ===== src/Preamble.antt =====
-- src/common/mod.rs: `stream_preamble` on a byte stream.
use xmpp_proxy.Prelude.{
  ℕ, suc, ◌≡◌, inl, inr, refl, sym, ap, ◌∙◌, subst, Bool, true, ◌||◌, Bool-cases, if◌then◌else◌,
  Bytes, codes, length, starts_with, List, [], ◌∷◌, ◌++◌, append_assoc, Outcome, ok, err, panic,
  bad_preamble, ended_before_open, arith,
}
use xmpp_proxy.Slice.{contains_seq}
use xmpp_proxy.Filter.{StanzaFilter, stream_open}
use xmpp_proxy.Filter.Reader.{Ending, emit_eoft}
use xmpp_proxy.Filter.Loops.{
  Round, go_on, leave, End, left, ended, failed, crashed, out_of_fuel, while_next,
}
use xmpp_proxy.Filter.Loops.Runs.{
  Given, Runs, at_end, at_error, at_panic, at_leave, at_round, while_next-HasRun,
}
use xmpp_proxy.Starttls.{xml_open}

-- whether the header says that a client opened the stream
unfoldable pub is_client : Bytes → Bool
is_client buf =
    contains_seq buf (codes " xmlns=\"jabber:client\"")
    || contains_seq buf (codes " xmlns='jabber:client'")

abbrev pub Opening : Type 0
Opening = Bytes × Bool

-- the body of the loop; the state is what was collected
unfoldable pub preamble_round : Bytes → Bytes × ℕ → Round Bytes (Outcome Opening)
preamble_round so_far (buf, eoft) =
    if starts_with buf xml_open
    then go_on (so_far ++ buf)
    else if starts_with buf stream_open
    then leave (ok (so_far ++ buf, is_client buf))
    else leave (err bad_preamble)

abbrev pub opened : End Bytes (Outcome Opening) → Outcome Opening
opened (left r) = r
opened (ended s) = err ended_before_open
opened (failed e s) = err ended_before_open
opened crashed = panic
opened out_of_fuel = panic

unfoldable pub stream_preamble :
    StanzaFilter → Bytes → Ending → Outcome Opening × StanzaFilter × Bytes
stream_preamble f src ending =
    let l = while_next emit_eoft preamble_round (suc (length src)) [] f src ending in
    (opened l.end, l.filter, l.rest)

-- Declarations and then a header; `out` is their text, and `c2s` what the header says.
pub data IsPreamble : List (Bytes × ℕ) → Bytes → Bool → Type 0 where
  at_header :
      {buf : Bytes} {eoft : ℕ}
      → starts_with buf stream_open ≡ true
      → IsPreamble ((buf, eoft) ∷ []) buf (is_client buf)
  behind_declaration :
      {buf out : Bytes} {eoft : ℕ} {bufs : List (Bytes × ℕ)} {c2s : Bool}
      → starts_with buf xml_open ≡ true
      → IsPreamble bufs out c2s
      → IsPreamble ((buf, eoft) ∷ bufs) (buf ++ out) c2s

abbrev Collects : Bytes → Bytes × ℕ → Round Bytes (Outcome Opening) → Type 0
Collects s (buf, eoft) (leave (ok o)) =
    (starts_with buf stream_open ≡ true) × (o ≡ (s ++ buf, is_client buf))
Collects s (buf, eoft) (leave (err e)) = Unit
Collects s (buf, eoft) (leave panic) = Unit
Collects s (buf, eoft) (go_on t) = (starts_with buf xml_open ≡ true) × (t ≡ s ++ buf)

preamble_round-Collects : (s : Bytes) (a : Bytes × ℕ) → Collects s a (preamble_round s a)
unfolding preamble_round
preamble_round-Collects s (buf, eoft) = elim (Bool-cases (starts_with buf xml_open)) [
  | inl x ↦ rw x (x, refl)
  | inr not_xml ↦ elim (Bool-cases (starts_with buf stream_open)) [
    | inl h ↦ rw (not_xml, h) (h, refl)
    | inr not_stream ↦ rw (not_xml, not_stream) tt
  ]
]

-- a preamble whose text stands behind `s`
pub record Continues (s : Bytes) (bufs : List (Bytes × ℕ)) (o : Opening) : Type 0 where
  pub out : Bytes
  pub preamble : IsPreamble bufs out o.1
  pub collected : o.0 ≡ s ++ out

pub Runs-Continues :
    {s : Bytes} {o : Opening} {bufs : List (Bytes × ℕ)} {e : End Bytes (Outcome Opening)}
    → Runs preamble_round s bufs e
    → opened e ≡ ok o
    → Continues s bufs o
Runs-Continues at_end h = cc
Runs-Continues at_error h = cc
Runs-Continues at_panic h = cc
Runs-Continues {s} {o} (at_leave {a = (buf, eoft)} {r = r} e) h =
    let (x, q) =
      subst (λ p. Collects s (buf, eoft) (leave p)) h
        (subst (Collects s (buf, eoft)) e (preamble_round-Collects s (buf, eoft))) in
    record {
      out = buf;
      preamble = subst (IsPreamble ((buf, eoft) ∷ []) buf) (sym (ap (λ p. p.1) q)) (at_header x);
      collected = ap (λ p. p.0) q;
    }
Runs-Continues {s} {o} (at_round {t = t} {a = (buf, eoft)} e more) h =
    let c = Runs-Continues more h in
    let (x, q) = subst (Collects s (buf, eoft)) e (preamble_round-Collects s (buf, eoft)) in
    record {
      out = buf ++ c.out;
      preamble = behind_declaration x c.preamble;
      collected = c.collected ∙ ap (λ u. u ++ c.out) q ∙ append_assoc s buf c.out;
    }

-- `stream_preamble` succeeds only on declarations followed by a stream header, given by the stream
-- in this order; it returns their text whole and whether the header is a client's.
pub stream_preamble-Continues :
    (f : StanzaFilter) (src : Bytes) (ending : Ending) (o : Opening)
    → (stream_preamble f src ending).0 ≡ ok o
    → (bufs : List (Bytes × ℕ)) × Given emit_eoft ending f src bufs × Continues [] bufs o
unfolding stream_preamble
stream_preamble-Continues f src ending o h =
    let run =
      while_next-HasRun emit_eoft preamble_round (suc (length src)) [] f src ending (omega arith) in
    (run.given, run.from_stream, Runs-Continues run.runs h)
