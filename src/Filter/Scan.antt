-- ===== src/Filter/Scan.antt =====
-- The specification of the filter: a machine whose buffer grows, and holds the bytes of the
-- stanza so far and nothing else. The preallocated buffer of the program, which still holds what
-- earlier stanzas left, behaves as that machine.
pub mod Cuts
pub mod Step
pub mod Refines
use xmpp_proxy.Prelude.{
  ℕ, zero, suc, ◌+◌, ◌-◌, ◌≤◌, ◌<◌, ◌≡◌, ◌≢◌, ◌⊎◌, inl, inr, refl, sym, ap, subst, ◌∙◌, ◌==◌, ltb,
  leb, lt→ltb, le→leb, lt→leb, Bool, true, false, ◌&&◌, if◌then◌else◌, Bool-cases, ==_iff, Bytes,
  bytes_eq, bytes_eq_iff, length, take, drop, set, get_elem?, take-set, get_elem?-set_self,
  length-take, length-set, [], ◌∷◌, ◌++◌, List, Option, none, some, Outcome, ok, err, panic, arith,
  min,
}
use native.Mathlib.Decide.{dec_le}
use xmpp_proxy.Slice.{slice}
use xmpp_proxy.Filter.{
  StanzaState, outside_stanza, stanza_first_char, inside_tag_first_char, inside_tag, between_tags,
  inside_attribute, exclamation_tag, question_tag, inside_cdata, inside_xml_tag, end_stream,
  StanzaFilter, stanza_end, last_equals, last_num_bytes, Flow, advance, ignore, finish, fail, crash,
  Turn, stream_open, xml_decl, cdata_open, cdata_close, stream_close, tag_end, self_closing,
  close_tag, previous_byte, mark_first_tag, dispatch, settle, process_byte, process_next_byte_idx,
  checked_sub, with_tag_cnt, on_equals, goto,
}
use xmpp_proxy.Filter.Reader.{
  Ending, eof, broken, Read, read_loop, write_byte, deliver, end_result, next, next_eoft,
  emit_stanza, emit_eoft,
}
use xmpp_proxy.Filter.Safe.{IsValid, IsSafe, read_step-IsSafe}

-- the filter with its buffer cut down to `n` bytes
abbrev pub cut : ℕ → StanzaFilter → StanzaFilter
cut n f = record f { buf = take n f.buf }

-- only the bytes of the stanza so far
abbrev pub view : StanzaFilter → StanzaFilter
view f = cut f.cnt f

abbrev pub append_byte : StanzaFilter → ℕ → StanzaFilter
append_byte s b = record s { buf = s.buf ++ b ∷ [] }

unfoldable pub scan_byte : StanzaFilter → ℕ → Outcome (Option ℕ) × StanzaFilter
scan_byte s b = settle (dispatch s.state (append_byte s b) b)

module _ {ℓ} {A : Type ℓ} (emit : StanzaFilter → ℕ → A × StanzaFilter) where
  unfoldable pub scan_loop : StanzaFilter → Bytes → Ending → Read A
  scan_loop s [] ending = record { result = end_result ending; filter = s; rest = [] }
  scan_loop s (b ∷ rest) ending =
      let (r, g) = scan_byte s b in deliver emit r g rest (scan_loop (view g) rest ending)

module _ {ℓ} {A : Type ℓ} where
  pub take-take : (m n : ℕ) (xs : List A) → m ≤ n → take m (take n xs) ≡ take m xs
  take-take zero n xs h = refl
  take-take (suc m) zero xs h = elim h [ ]
  take-take (suc m) (suc n) [] h = refl
  take-take (suc m) (suc n) (x ∷ xs) h = ap (◌∷◌ x) (take-take m n xs (omega arith))

  pub get_elem?-take : (i n : ℕ) (xs : List A) → i < n → get_elem? (take n xs) i ≡ get_elem? xs i
  get_elem?-take i zero xs h = elim h [ ]
  get_elem?-take i (suc n) [] h = refl
  get_elem?-take zero (suc n) (x ∷ xs) h = refl
  get_elem?-take (suc i) (suc n) (x ∷ xs) h = get_elem?-take i n xs (omega arith)
