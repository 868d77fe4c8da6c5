-- ===== src/Filter.antt =====
-- src/stanzafilter.rs: `StanzaFilter`, the byte machine that cuts a stream into stanzas, and
-- `StanzaReader`, which feeds it from a stream. A call that fails leaves the filter changed, and
-- the program goes on with it, so the state comes back beside every outcome.
pub mod Reader
pub mod Loops
pub mod Safe
pub mod Calls
pub mod Cut
pub mod Scan
pub mod Stanza
use xmpp_proxy.Prelude.{
  ℕ, ◌+◌, ◌-◌, ◌==◌, ltb, leb, Bool, true, false, ◌&&◌, ◌||◌, if◌then◌else◌, Bytes, codes, bytes_eq,
  length, get_elem?, take, replicate, Option, none, some, Error, Outcome, ok, err, panic,
  invalid_stanza, illegal_stanza, stanza_too_big, not_enough_bytes,
}
use xmpp_proxy.Slice.{slice}

-- `StanzaState`
pub data StanzaState : Type 0 where
  outside_stanza stanza_first_char inside_tag_first_char inside_tag between_tags : StanzaState
  inside_attribute exclamation_tag question_tag : ℕ → StanzaState
  inside_cdata inside_xml_tag end_stream : StanzaState

pub record StanzaFilter : Type 0 where
  pub buf_size : ℕ
  pub buf : Bytes
  pub end_of_first_tag : ℕ
  pub cnt : ℕ
  pub tag_cnt : ℕ
  pub state : StanzaState

unfoldable pub checked_sub : ℕ → ℕ → Outcome ℕ
checked_sub i s = if ltb i s then err invalid_stanza else ok (i - s)

-- `StanzaFilter::new`
abbrev pub new : ℕ → StanzaFilter
new buf_size = record {
  buf_size = buf_size;
  buf = replicate buf_size 0;
  end_of_first_tag = 0;
  cnt = 0;
  tag_cnt = 0;
  state = outside_stanza;
}

-- `stanza_end`: the new state; its result is the index behind the byte just read
unfoldable pub stanza_end : StanzaFilter → StanzaFilter
stanza_end f = record f { tag_cnt = 0; cnt = 0; state = outside_stanza }

-- `last_num_bytes`
unfoldable pub last_num_bytes : StanzaFilter → ℕ → Outcome Bytes
last_num_bytes f num =
    if leb (num - 1) f.cnt
    then ok (slice (f.cnt - (num - 1)) (f.cnt + 1) f.buf)
    else err not_enough_bytes

abbrev compare_bytes : Bytes → Outcome Bytes → Outcome Bool
compare_bytes needle (ok s) = ok (bytes_eq needle s)
compare_bytes needle (err e) = err e
compare_bytes needle panic = panic

-- `last_equals`
unfoldable pub last_equals : StanzaFilter → Bytes → Outcome Bool
last_equals f needle = compare_bytes needle (last_num_bytes f (length needle))

-- How the `match` on the state ends: it falls through to the counter, returns `Ok(None)` at once,
-- returns `self.stanza_end()`, fails, or indexes out of range.
pub data Flow : Type 0 where
  advance ignore finish : Flow
  fail : Error → Flow
  crash : Flow

abbrev pub Turn : Type 0
Turn = Flow × StanzaFilter

abbrev pub goto : StanzaFilter → StanzaState → Turn
goto f s = (advance, record f { state = s })

-- `self.tag_cnt = checked_sub(..)?`, and then `k`
abbrev pub with_tag_cnt : Outcome ℕ → StanzaFilter → (StanzaFilter → Turn) → Turn
with_tag_cnt (ok n) f k = k (record f { tag_cnt = n })
with_tag_cnt (err e) f k = (fail e, f)
with_tag_cnt panic f k = (crash, f)

-- `if self.last_equals(..)? { yes } else { no }`
abbrev pub on_equals : Outcome Bool → StanzaFilter → Turn → Turn → Turn
on_equals (ok true) f same other = same
on_equals (ok false) f same other = other
on_equals (err e) f same other = (fail e, f)
on_equals panic f same other = (crash, f)

abbrev pub is_quote : ℕ → Bool
is_quote b = b == b'\'' || b == b'"'

-- `if self.end_of_first_tag == 0 { self.end_of_first_tag = self.cnt }`
unfoldable pub mark_first_tag : StanzaFilter → StanzaFilter
mark_first_tag f = record f {
  end_of_first_tag = if f.end_of_first_tag == 0 then f.cnt else f.end_of_first_tag;
}

abbrev pub stream_open : Bytes
stream_open = codes "<stream:stream "

abbrev pub xml_decl : Bytes
xml_decl = codes "xml "

abbrev pub cdata_open : Bytes
cdata_open = codes "[CDATA["

abbrev pub cdata_close : Bytes
cdata_close = codes "]]>"

abbrev pub stream_close : Bytes
stream_close = codes "</stream:stream>"

-- the last tests at `>` in `InsideTag`, with the tag count settled
unfoldable pub tag_end : StanzaFilter → Turn
tag_end f =
    if f.tag_cnt == 0
    then (finish, f)
    else if f.tag_cnt == 1 && (leb 15 (length f.buf) && bytes_eq stream_open (slice 0 15 f.buf))
    then (finish, f)
    else goto f between_tags

-- `self.buf[self.cnt - 1]`: at 0 the subtraction underflows
unfoldable pub previous_byte : ℕ → Bytes → Option ℕ
previous_byte cnt buf = if cnt == 0 then none else get_elem? buf (cnt - 1)

-- a `/` before the `>` closes the tag itself
unfoldable pub close_tag : Option ℕ → StanzaFilter → Turn
close_tag none f = (crash, f)
close_tag (some c) f =
    if c == b'/' then with_tag_cnt (checked_sub f.tag_cnt 1) f tag_end else tag_end f

unfoldable pub self_closing : ℕ → StanzaFilter → Turn
self_closing cnt f = close_tag (previous_byte cnt f.buf) f

-- the arm of the `match` for each state, at the byte `b`
unfoldable pub dispatch : StanzaState → StanzaFilter → ℕ → Turn
dispatch outside_stanza f b =
    if b == b'<'
    then (advance, record f { tag_cnt = f.tag_cnt + 1; state = stanza_first_char })
    else (ignore, f)
dispatch between_tags f b =
    if b == b'<'
    then (advance, record f { tag_cnt = f.tag_cnt + 1; state = inside_tag_first_char })
    else (advance, f)
dispatch stanza_first_char f b =
    if b == b'/'
    then goto f end_stream
    else if b == b'!' || (b == b'>' || is_quote b)
    then (fail illegal_stanza, f)
    else if b == b'?'
    then goto f (question_tag (f.cnt + 4))
    else goto f inside_tag
dispatch inside_tag_first_char f b =
    if b == b'/'
    then with_tag_cnt (checked_sub f.tag_cnt 2) f (λ g. (advance, g))
    else if b == b'!'
    then goto f (exclamation_tag (f.cnt + 7))
    else if b == b'?' || (b == b'>' || is_quote b)
    then (fail illegal_stanza, f)
    else goto f inside_tag
dispatch inside_tag f b =
    if b == b'>'
    then self_closing f.cnt (mark_first_tag f)
    else if is_quote b
    then goto f (inside_attribute b)
    else (advance, f)
dispatch (inside_attribute end) f b = if b == end then goto f inside_tag else (advance, f)
dispatch (question_tag idx) f b =
    if idx == f.cnt
    then on_equals (last_equals f xml_decl) f (goto f inside_xml_tag) (fail illegal_stanza, f)
    else (advance, f)
dispatch inside_xml_tag f b = if b == b'>' then (finish, f) else (advance, f)
dispatch (exclamation_tag idx) f b =
    if idx == f.cnt
    then on_equals (last_equals f cdata_open) f
        (with_tag_cnt (checked_sub f.tag_cnt 1) (record f { state = inside_cdata })
          (λ g. (advance, g)))
        (fail illegal_stanza, f)
    else (advance, f)
dispatch inside_cdata f b =
    if b == b'>'
    then on_equals (last_equals f cdata_close) f (goto f between_tags) (advance, f)
    else (advance, f)
dispatch end_stream f b =
    if b == b'>'
    then on_equals (last_equals f stream_close) f (finish, mark_first_tag f)
        (fail illegal_stanza, f)
    else (advance, f)

-- what follows the `match`
unfoldable pub settle : Turn → Outcome (Option ℕ) × StanzaFilter
settle (advance, f) =
    let g = record f { cnt = f.cnt + 1 } in
    (if f.cnt + 1 == f.buf_size then err stanza_too_big else ok none, g)
settle (ignore, f) = (ok none, f)
settle (finish, f) = (ok (some (f.cnt + 1)), stanza_end f)
settle (fail e, f) = (err e, f)
settle (crash, f) = (panic, f)

-- the step at the byte read from the buffer, or at none
unfoldable pub process_byte : Option ℕ → StanzaFilter → Outcome (Option ℕ) × StanzaFilter
process_byte none f = (panic, f)
process_byte (some b) f = settle (dispatch f.state f b)

unfoldable pub process_next_byte_idx : StanzaFilter → Outcome (Option ℕ) × StanzaFilter
process_next_byte_idx f = process_byte (get_elem? f.buf f.cnt) f

abbrev first_bytes : Outcome (Option ℕ) → StanzaFilter → Outcome (Option Bytes)
first_bytes (ok (some idx)) f = ok (some (take idx f.buf))
first_bytes (ok none) f = ok none
first_bytes (err e) f = err e
first_bytes panic f = panic

unfoldable pub process_next_byte : StanzaFilter → Outcome (Option Bytes) × StanzaFilter
process_next_byte f = let (r, g) = process_next_byte_idx f in (first_bytes r g, g)
