-- ===== src/Filter/Scan/Step.antt =====
-- One step of the program's filter and one of the specification.
use xmpp_proxy.Prelude.{
  ℕ, suc, ◌+◌, ◌<◌, ◌≡◌, refl, sym, ap, ◌∙◌, ◌==◌, ==_iff, length, get_elem?, take-set,
  get_elem?-set_self, length-set, some, arith,
}
use xmpp_proxy.Filter.{
  StanzaState, outside_stanza, stanza_first_char, inside_tag_first_char, inside_tag, between_tags,
  inside_attribute, exclamation_tag, question_tag, inside_cdata, inside_xml_tag, end_stream,
  StanzaFilter, stanza_end, advance, ignore, finish, fail, crash, Turn, xml_decl, cdata_open,
  cdata_close, stream_close, dispatch, settle, process_byte, process_next_byte_idx, checked_sub,
}
use xmpp_proxy.Filter.Reader.{write_byte}
use xmpp_proxy.Filter.Safe.{IsValid}
use xmpp_proxy.Filter.Scan.Cuts.{
  cut_turn, with_tag_cnt-cut, marked-cut, mark_first_tag-cut, if-cut, equals-cut,
}
use xmpp_proxy.Filter.Scan.{cut, view, append_byte, scan_byte}

dispatch-cut :
    (st : StanzaState) (f : StanzaFilter) (b : ℕ)
    → get_elem? f.buf f.cnt ≡ some b
    → f.cnt < length f.buf
    → dispatch st (cut (f.cnt + 1) f) b ≡ cut_turn (f.cnt + 1) (dispatch st f b)
unfolding dispatch
dispatch-cut outside_stanza f b e h = ground arith
dispatch-cut stanza_first_char f b e h = ground arith
dispatch-cut inside_tag_first_char f b e h =
    if-cut _ (b == b'/') _ _
      (λ _. with_tag_cnt-cut (f.cnt + 1) (checked_sub f.tag_cnt 2) f _ (λ m. refl))
      (λ _. ground arith)
dispatch-cut inside_tag f b e h =
    if-cut _ (b == b'>') _ _ (λ q. marked-cut f (e ∙ ap some ((==_iff b b'>').0 q)) h)
      (λ _. ground arith)
dispatch-cut between_tags f b e h = ground arith
dispatch-cut (inside_attribute end) f b e h = ground arith
dispatch-cut (exclamation_tag idx) f b e h =
    if-cut _ (idx == f.cnt) _ _
      (λ _.
        equals-cut f cdata_open _ _
          (with_tag_cnt-cut (f.cnt + 1) (checked_sub f.tag_cnt 1)
            (record f { state = inside_cdata }) _ (λ m. refl))
          refl)
      (λ _. refl)
dispatch-cut (question_tag idx) f b e h =
    if-cut _ (idx == f.cnt) _ _ (λ _. equals-cut f xml_decl _ _ refl refl) (λ _. refl)
dispatch-cut inside_cdata f b e h =
    if-cut _ (b == b'>') _ _ (λ _. equals-cut f cdata_close _ _ refl refl) (λ _. refl)
dispatch-cut inside_xml_tag f b e h = ground arith
dispatch-cut end_stream f b e h =
    if-cut _ (b == b'>') _ _
      (λ _.
        equals-cut f stream_close _ _ (ap (λ g. (finish, g)) (mark_first_tag-cut (f.cnt + 1) f))
          refl)
      (λ _. refl)

settle-cut : (n : ℕ) (t : Turn) → settle (cut_turn n t) ≡ ((settle t).0, cut n (settle t).1)
unfolding settle stanza_end
settle-cut n (advance, g) = refl
settle-cut n (ignore, g) = refl
settle-cut n (finish, g) = refl
settle-cut n (fail e, g) = refl
settle-cut n (crash, g) = refl

append-view :
    (f : StanzaFilter) (b : ℕ)
    → IsValid f
    → append_byte (view f) b ≡ cut (f.cnt + 1) (write_byte f b)
append-view f b v =
    let e : f.cnt + 1 ≡ suc f.cnt = omega arith in
    rw (e, take-set f.buf f.cnt b (omega (arith, v.sized, v.room)))

-- One step of the program's filter is one step of the specification.
pub scan_byte-view :
    (f : StanzaFilter) (b : ℕ)
    → IsValid f
    → scan_byte (view f) b ≡ (
      (process_next_byte_idx (write_byte f b)).0,
      cut (f.cnt + 1) (process_next_byte_idx (write_byte f b)).1,
    )
unfolding scan_byte process_next_byte_idx process_byte
scan_byte-view f b v =
    let fits : f.cnt < length f.buf = omega (arith, v.sized, v.room) in
    let found = get_elem?-set_self f.buf f.cnt b fits in
    let same =
      dispatch-cut f.state (write_byte f b) b found (omega (arith, length-set f.buf f.cnt b)) in
    let stepped : process_byte (get_elem? (write_byte f b).buf f.cnt) (write_byte f b)
        ≡ settle (dispatch f.state (write_byte f b) b) =
      ap (λ o. process_byte o (write_byte f b)) found in
    ap (λ s. settle (dispatch f.state s b)) (append-view f b v)
    ∙ ap settle same
    ∙ settle-cut (f.cnt + 1) (dispatch f.state (write_byte f b) b)
    ∙ ap (λ t. (t.0, cut (f.cnt + 1) t.1)) (sym stepped)
