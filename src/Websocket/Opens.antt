-- ===== src/Websocket/Opens.antt =====
-- What `from_ws` makes of an `<open` header.
use xmpp_proxy.Prelude.{
  ℕ, ◌≡◌, ◌≢◌, inl, inr, refl, ap, ◌∙◌, Bool, true, false, not, ◌==◌, ◌&&◌, Bool-cases, Bytes,
  codes, length, drop, starts_with, starts_with-drop, [], ◌∷◌, ◌++◌, arith,
}
use xmpp_proxy.Slice.{contains_seq}
use xmpp_proxy.Filter.{stream_open}
use xmpp_proxy.Filter.Stanza.{Avoids, none_left, other}
use xmpp_proxy.Websocket.Text.{replace, replace_from}
use xmpp_proxy.Websocket.Framing.{from_ws, open_to_stream, ws_open, streams_attribute}

not_there : (x c : ℕ) (xs cs : Bytes) → x ≢ c → starts_with (x ∷ xs) (c ∷ cs) ≡ false
unfolding starts_with
not_there x c xs cs n = ground arith

-- The needle does not begin in a part without its first byte.
replace-Avoids :
    (c : ℕ) (cs with : Bytes) {p : Bytes} (s : Bytes)
    → Avoids c p
    → replace (p ++ s) (c ∷ cs) with ≡ p ++ replace s (c ∷ cs) with
unfolding replace replace_from
replace-Avoids c cs with s none_left = refl
replace-Avoids c cs with s (other {x = x} {xs = xs} n v) =
    rw (not_there x c (xs ++ s) cs n) (ap (◌∷◌ x) (replace-Avoids c cs with s v))

abbrev lacks : ℕ → Bytes → Bool
lacks c [] = true
lacks c (x ∷ xs) = not (x == c) && lacks c xs

lacks-Avoids : (c : ℕ) (xs : Bytes) → lacks c xs ≡ true → Avoids c xs
lacks-Avoids c [] h = none_left
lacks-Avoids c (x ∷ xs) h =
    other (λ e. absurd (ground (arith, e))) (lacks-Avoids c xs (ground arith))

replace_open :
    (rest : Bytes)
    → replace (ws_open ++ rest) ws_open stream_open
      ≡ stream_open ++ replace rest ws_open stream_open
unfolding replace replace_from starts_with
replace_open rest = refl

-- a stream header
abbrev pub Opens : Bytes → Type 0
Opens s = (rest : Bytes) × (s ≡ stream_open ++ rest)

replace-Opens :
    (s : Bytes) (c : ℕ) (cs with : Bytes)
    → lacks c stream_open ≡ true
    → Opens s
    → Opens (replace s (c ∷ cs) with)
replace-Opens s c cs with l (rest, e) = (
  replace rest (c ∷ cs) with,
  ap (λ t. replace t (c ∷ cs) with) e
      ∙ replace-Avoids c cs with rest (lacks-Avoids c stream_open l),
)

open_to_stream-Opens :
    (stanza : Bytes) → starts_with stanza ws_open ≡ true → Opens (open_to_stream stanza)
unfolding open_to_stream
open_to_stream-Opens stanza h =
    let rest = drop (length ws_open) stanza in
    let first : Opens (replace stanza ws_open stream_open) = (
      replace rest ws_open stream_open,
      ap (λ t. replace t ws_open stream_open) (starts_with-drop stanza ws_open h)
          ∙ replace_open rest,
    ) in
    replace-Opens _ b'u' _ _ refl (replace-Opens _ b'u' _ _ refl first)

-- An `<open` of a websocket becomes a header of a stream, whatever its attributes are.
pub from_ws-Opens : (stanza : Bytes) → starts_with stanza ws_open ≡ true → Opens (from_ws stanza)
unfolding from_ws
from_ws-Opens stanza h =
    let opened = open_to_stream-Opens stanza h in
    elim (Bool-cases (contains_seq (open_to_stream stanza) (codes "xmlns:stream="))) [
      | inl c ↦
          rw (h, c) (replace-Opens (open_to_stream stanza) b'/' (b'>' ∷ []) (codes ">") refl opened)
      | inr c ↦
          rw (h, c)
            (replace-Opens (open_to_stream stanza) b'/' (b'>' ∷ []) streams_attribute refl opened)
    ]
