-- ===== src/Filter/Safe.antt =====
-- The invariant of the filter: the buffer has room for the next byte, and each state knows how many
-- bytes it has behind it. With it no call indexes out of range.
use xmpp_proxy.Prelude.{
  ℕ, zero, suc, ◌+◌, ◌-◌, ◌≤◌, ◌<◌, ◌≡◌, ◌≢◌, ◌⊎◌, inl, inr, refl, sym, subst, ◌∙◌, ◌==◌, Bool,
  true, false, Bool-cases, Bytes, bytes_eq, length, get_elem?, [], ◌∷◌, List, Option, none, some,
  Outcome, ok, err, panic, stanza_too_big, not_enough_bytes, arith, length-set, length-replicate,
  get_elem?-set_self, ==_iff, le→leb,
}
use xmpp_proxy.Filter.{
  StanzaState, outside_stanza, stanza_first_char, inside_tag_first_char, inside_tag, between_tags,
  inside_attribute, exclamation_tag, question_tag, inside_cdata, inside_xml_tag, end_stream,
  StanzaFilter, new, stanza_end, last_equals, last_num_bytes, advance, ignore, finish, fail, crash,
  Turn, xml_decl, cdata_open, cdata_close, stream_close, tag_end, self_closing, close_tag,
  previous_byte, mark_first_tag, dispatch, settle, process_next_byte_idx, process_byte, checked_sub,
}
use xmpp_proxy.Filter.Reader.{write_byte}
use xmpp_proxy.Slice.{slice}

-- what each state knows of `cnt` and `tag_cnt`
abbrev pub StateInv : StanzaState → ℕ → ℕ → Type 0
StateInv outside_stanza cnt tag_cnt = (cnt ≡ 0) × (tag_cnt ≡ 0)
StateInv stanza_first_char cnt tag_cnt = (cnt ≡ 1) × (tag_cnt ≡ 1)
StateInv inside_tag_first_char cnt tag_cnt = (4 ≤ cnt) × (tag_cnt ≤ cnt)
StateInv inside_tag cnt tag_cnt = (2 ≤ cnt) × (tag_cnt ≤ cnt)
StateInv between_tags cnt tag_cnt = (3 ≤ cnt) × (tag_cnt ≤ cnt)
StateInv (inside_attribute end) cnt tag_cnt = (2 ≤ cnt) × (tag_cnt ≤ cnt)
StateInv (exclamation_tag idx) cnt tag_cnt =
    (cnt ≤ idx) × (idx ≤ cnt + 6) × (10 ≤ idx) × (tag_cnt ≤ cnt)
StateInv (question_tag idx) cnt tag_cnt = (2 ≤ cnt) × (cnt ≤ idx) × (idx ≡ 5) × (tag_cnt ≤ cnt)
StateInv inside_cdata cnt tag_cnt = (10 ≤ cnt) × (tag_cnt ≤ cnt)
StateInv inside_xml_tag cnt tag_cnt = (5 ≤ cnt) × (tag_cnt ≤ cnt)
StateInv end_stream cnt tag_cnt = (2 ≤ cnt) × (tag_cnt ≤ cnt)

pub record IsValid (f : StanzaFilter) : Type 0 where
  pub sized : length f.buf ≡ f.buf_size
  pub room : f.cnt < f.buf_size
  pub known : StateInv f.state f.cnt f.tag_cnt

-- The state after a turn, before the counter: what holds once it has moved on, or has not.
abbrev pub TurnInv : StanzaFilter → ℕ → Turn → Type 0
TurnInv f b (advance, g) =
    (g.buf ≡ f.buf)
    × (g.buf_size ≡ f.buf_size)
    × (g.cnt ≡ f.cnt)
    × StateInv g.state (g.cnt + 1) g.tag_cnt
    × ((0 < f.cnt) ⊎ (b ≡ b'<'))
TurnInv f b (ignore, g) = (g ≡ f) × (f.cnt ≡ 0) × (b ≢ b'<')
TurnInv f b (finish, g) =
    (g.buf ≡ f.buf) × (g.buf_size ≡ f.buf_size) × (g.cnt ≡ f.cnt) × (b ≡ b'>') × (0 < f.cnt)
TurnInv f b (fail e, g) =
    (g.buf ≡ f.buf)
    × (g.buf_size ≡ f.buf_size)
    × (g.cnt ≡ f.cnt)
    × StateInv g.state g.cnt g.tag_cnt
    × (e ≢ stanza_too_big)
TurnInv f b (crash, g) = ⊥

get_elem?-lt {ℓ} :
    {A : Type ℓ} (xs : List A) (i : ℕ) → i < length xs → (a : A) × (get_elem? xs i ≡ some a)
get_elem?-lt [] i h = elim h [ ]
get_elem?-lt (x ∷ xs) zero h = (x, refl)
get_elem?-lt (x ∷ xs) (suc i) h = get_elem?-lt xs i (omega arith)

-- With enough bytes behind it `last_equals` gives an answer.
last_equals_total :
    (f : StanzaFilter) (needle : Bytes)
    → length needle - 1 ≤ f.cnt
    → (b : Bool) × (last_equals f needle ≡ ok b)
unfolding last_equals last_num_bytes
last_equals_total f needle h = (
  bytes_eq needle (slice (f.cnt - (length needle - 1)) (f.cnt + 1) f.buf),
  rw (le→leb (length needle - 1) f.cnt h),
)

last_equals-cases :
    (f : StanzaFilter) (needle : Bytes)
    → (last_equals f needle ≡ ok true)
      ⊎ (last_equals f needle ≡ ok false)
      ⊎ (last_equals f needle ≡ err not_enough_bytes)
unfolding last_equals last_num_bytes
last_equals-cases f needle = ground arith

tag_end-TurnInv :
    (f g : StanzaFilter) (b : ℕ)
    → b ≡ b'>'
    → (g.buf ≡ f.buf)
    → (g.buf_size ≡ f.buf_size)
    → (g.cnt ≡ f.cnt)
    → 2 ≤ g.cnt
    → g.tag_cnt ≤ g.cnt
    → TurnInv f b (tag_end g)
unfolding tag_end
tag_end-TurnInv f g b q a z c d e = ground arith

self_closing-TurnInv :
    (f g : StanzaFilter) (b : ℕ)
    → b ≡ b'>'
    → (g.buf ≡ f.buf)
    → (g.buf_size ≡ f.buf_size)
    → (g.cnt ≡ f.cnt)
    → g.cnt < length g.buf
    → 2 ≤ g.cnt
    → g.tag_cnt ≤ g.cnt
    → g.state ≡ inside_tag
    → TurnInv f b (self_closing g.cnt g)
unfolding self_closing close_tag previous_byte checked_sub
self_closing-TurnInv f g b q a z c room d e s =
    let (x, p) = get_elem?-lt g.buf (g.cnt - 1) (omega arith) in
    ground (
      arith,
      tag_end-TurnInv f g b q a z c d e,
      tag_end-TurnInv f (record g { tag_cnt = g.tag_cnt - 1 }) b q a z c d (omega arith),
    )

mark_first_tag_keeps :
    (f : StanzaFilter)
    → ((mark_first_tag f).buf ≡ f.buf)
      × ((mark_first_tag f).buf_size ≡ f.buf_size)
      × ((mark_first_tag f).cnt ≡ f.cnt)
unfolding mark_first_tag
mark_first_tag_keeps f = (refl, refl, refl)

self_closing_marked :
    (f : StanzaFilter) (b : ℕ)
    → b ≡ b'>'
    → f.cnt < length f.buf
    → f.state ≡ inside_tag
    → StateInv inside_tag f.cnt f.tag_cnt
    → TurnInv f b (self_closing f.cnt (mark_first_tag f))
unfolding mark_first_tag
self_closing_marked f b q r e k =
    self_closing-TurnInv f (mark_first_tag f) b q refl refl refl r k.0 k.1 e

dispatch-TurnInv :
    (st : StanzaState) (f : StanzaFilter) (b : ℕ)
    → f.state ≡ st
    → f.cnt < length f.buf
    → StateInv st f.cnt f.tag_cnt
    → TurnInv f b (dispatch st f b)
unfolding dispatch checked_sub
dispatch-TurnInv outside_stanza f b e r k = ground arith
dispatch-TurnInv stanza_first_char f b e r k = ground arith
dispatch-TurnInv inside_tag_first_char f b e r k = ground arith
dispatch-TurnInv inside_tag f b e r k = elim (Bool-cases (b == b'>')) [
  | inl q ↦ rw q (self_closing_marked f b ((==_iff b b'>').0 q) r e k)
  | inr o ↦ rw o (ground arith)
]
dispatch-TurnInv between_tags f b e r k = ground arith
dispatch-TurnInv (inside_attribute end) f b e r k = ground arith
dispatch-TurnInv (exclamation_tag idx) f b e r k = ground (arith, last_equals-cases f cdata_open)
dispatch-TurnInv (question_tag idx) f b e r k = ground (arith, last_equals-cases f xml_decl)
dispatch-TurnInv inside_cdata f b e r k = ground (arith, last_equals-cases f cdata_close)
dispatch-TurnInv inside_xml_tag f b e r k = ground arith
dispatch-TurnInv end_stream f b e r k =
    ground (arith, last_equals-cases f stream_close, mark_first_tag_keeps f)

-- what a call at the byte `b` comes to, and the filter that it leaves
abbrev pub IsSafe : StanzaFilter → ℕ → Outcome (Option ℕ) × StanzaFilter → Type 0
IsSafe f b (ok none, g) =
    IsValid g
    × (((g.buf ≡ f.buf) × (g.cnt ≡ f.cnt + 1) × ((0 < f.cnt) ⊎ (b ≡ b'<')))
        ⊎ ((g ≡ f) × (f.cnt ≡ 0) × (b ≢ b'<')))
IsSafe f b (ok (some idx), g) =
    IsValid g × (idx ≡ f.cnt + 1) × (g.buf ≡ f.buf) × (g.cnt ≡ 0) × (b ≡ b'>') × (0 < f.cnt)
IsSafe f b (err e, g) =
    (IsValid g × (e ≢ stanza_too_big))
    ⊎ ((e ≡ stanza_too_big) × (length g.buf ≡ g.buf_size) × (g.cnt ≡ g.buf_size))
IsSafe f b (panic, g) = ⊥

settle-IsSafe :
    (f : StanzaFilter) (b : ℕ) (t : Turn) → IsValid f → TurnInv f b t → IsSafe f b (settle t)
unfolding settle stanza_end
settle-IsSafe f b (advance, g) v (a, z, c, k, s) = ground arith
settle-IsSafe f b (ignore, g) v (e, z, n) = (subst IsValid (sym e) v, inr (e, z, n))
settle-IsSafe f b (finish, g) v (a, z, c, q, p) = ground arith
settle-IsSafe f b (fail e, g) v (a, z, c, k, n) = ground arith
settle-IsSafe f b (crash, g) v h = absurd h

-- From a valid filter one step never indexes out of range. It leaves a valid filter, but for
-- "stanza too big", after which the counter stands at the end of the buffer.
pub process_next_byte_idx-IsSafe :
    {f : StanzaFilter} {b : ℕ}
    → IsValid f
    → get_elem? f.buf f.cnt ≡ some b
    → IsSafe f b (process_next_byte_idx f)
unfolding process_next_byte_idx process_byte
process_next_byte_idx-IsSafe {f} {b} v e =
    let fits : f.cnt < length f.buf = omega (arith, v.sized, v.room) in
    subst (λ o. IsSafe f b (process_byte o f)) (sym e)
      (settle-IsSafe f b (dispatch f.state f b) v (dispatch-TurnInv f.state f b refl fits v.known))

pub write_byte-IsValid : (f : StanzaFilter) (b : ℕ) → IsValid f → IsValid (write_byte f b)
write_byte-IsValid f b v = record {
  sized = length-set f.buf f.cnt b ∙ v.sized;
  room = v.room;
  known = v.known;
}

-- one read and one step
pub read_step-IsSafe :
    (f : StanzaFilter) (b : ℕ)
    → IsValid f
    → IsSafe (write_byte f b) b (process_next_byte_idx (write_byte f b))
read_step-IsSafe f b v =
    process_next_byte_idx-IsSafe (write_byte-IsValid f b v)
      (get_elem?-set_self f.buf f.cnt b (omega (arith, v.sized, v.room)))

pub new-IsValid : (n : ℕ) → 0 < n → IsValid (new n)
new-IsValid n h = record { sized = length-replicate n 0; room = h; known = (refl, refl) }
