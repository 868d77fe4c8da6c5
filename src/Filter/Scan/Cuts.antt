-- ===== src/Filter/Scan/Cuts.antt =====
-- The specification looks at the bytes of the stanza so far alone: the parts of a step.
use xmpp_proxy.Prelude.{
  ℕ, zero, suc, ◌+◌, ◌-◌, ◌<◌, ◌≡◌, ◌≢◌, inl, inr, refl, sym, ap, ◌∙◌, ◌==◌, leb, le→leb, lt→leb,
  Bool, true, false, ◌&&◌, if◌then◌else◌, Bool-cases, Bytes, bytes_eq, bytes_eq_iff, length, take,
  get_elem?, length-take, [], ◌∷◌, Option, none, some, Outcome, ok, err, panic, arith,
}
use native.Mathlib.Decide.{dec_le}
use xmpp_proxy.Slice.{slice}
use xmpp_proxy.Filter.{
  StanzaFilter, last_equals, last_num_bytes, Turn, stream_open, tag_end, self_closing, close_tag,
  previous_byte, mark_first_tag, checked_sub, with_tag_cnt, on_equals,
}
use xmpp_proxy.Filter.Scan.{cut, take-take, get_elem?-take}

abbrev pub cut_turn : ℕ → Turn → Turn
cut_turn n (flow, g) = (flow, cut n g)

last_equals-cut :
    (f : StanzaFilter) (needle : Bytes)
    → last_equals (cut (f.cnt + 1) f) needle ≡ last_equals f needle
unfolding last_equals last_num_bytes
last_equals-cut f needle = rw (take-take (f.cnt + 1) (f.cnt + 1) f.buf (omega arith))

abbrev pub Lacks : ℕ → Bytes → Type 0
Lacks c [] = Unit
Lacks c (x ∷ xs) = (x ≢ c) × Lacks c xs

get_elem?-Lacks : (c : ℕ) (xs : Bytes) (i : ℕ) → Lacks c xs → get_elem? xs i ≢ some c
get_elem?-Lacks c [] i h e = cc
get_elem?-Lacks c (x ∷ xs) zero h e = h.0 (cc)
get_elem?-Lacks c (x ∷ xs) (suc i) h e = get_elem?-Lacks c xs i h.1 e

-- `>` does not stand in "<stream:stream "
pub no_end_in_open : (i : ℕ) → get_elem? stream_open i ≢ some b'>'
no_end_in_open i = get_elem?-Lacks b'>' stream_open i (omega arith)

stream_open-cut :
    (f : StanzaFilter)
    → get_elem? f.buf f.cnt ≡ some b'>'
    → f.cnt < length f.buf
    → (leb 15 (length (take (f.cnt + 1) f.buf))
        && bytes_eq stream_open (slice 0 15 (take (f.cnt + 1) f.buf)))
      ≡ (leb 15 (length f.buf) && bytes_eq stream_open (slice 0 15 f.buf))
stream_open-cut f e h = elim (dec_le 15 (f.cnt + 1)) [
  | yes p ↦
      let short = length-take (f.cnt + 1) f.buf in
      rw (
        take-take 15 (f.cnt + 1) f.buf p,
        le→leb 15 (length (take (f.cnt + 1) f.buf)) (omega (arith, short)),
        le→leb 15 (length f.buf) (omega arith),
      )
  | no p ↦
      let short = length-take (f.cnt + 1) f.buf in
      let differs : bytes_eq stream_open (take 15 f.buf) ≡ false = not_open (omega arith) in
      rw (lt→leb 15 (length (take (f.cnt + 1) f.buf)) (omega (arith, short)), differs)
        (sym (and_false (leb 15 (length f.buf))))
]
  where
    not_open : f.cnt < 15 → bytes_eq stream_open (take 15 f.buf) ≡ false
    not_open l = elim (Bool-cases (bytes_eq stream_open (take 15 f.buf))) [
      | inl same ↦ absurd (
          no_end_in_open f.cnt (
            ap (λ t. get_elem? t f.cnt) ((bytes_eq_iff _ _).0 same)
            ∙ get_elem?-take f.cnt 15 f.buf l
            ∙ e))
      | inr other ↦ other
    ]

    and_false : (b : Bool) → (b && false) ≡ false
    and_false true = refl
    and_false false = refl

tag_end-cut :
    (f : StanzaFilter)
    → get_elem? f.buf f.cnt ≡ some b'>'
    → f.cnt < length f.buf
    → tag_end (cut (f.cnt + 1) f) ≡ cut_turn (f.cnt + 1) (tag_end f)
unfolding tag_end
tag_end-cut f e h = ground (arith, stream_open-cut f e h)

pub with_tag_cnt-cut :
    (n : ℕ) (r : Outcome ℕ) (f : StanzaFilter) (k : StanzaFilter → Turn)
    → ((m : ℕ) → k (record (cut n f) { tag_cnt = m }) ≡ cut_turn n (k (record f { tag_cnt = m })))
    → with_tag_cnt r (cut n f) k ≡ cut_turn n (with_tag_cnt r f k)
with_tag_cnt-cut n (ok m) f k h = h m
with_tag_cnt-cut n (err e) f k h = refl
with_tag_cnt-cut n panic f k h = refl

close_tag-cut :
    (o : Option ℕ) (f : StanzaFilter)
    → get_elem? f.buf f.cnt ≡ some b'>'
    → f.cnt < length f.buf
    → close_tag o (cut (f.cnt + 1) f) ≡ cut_turn (f.cnt + 1) (close_tag o f)
unfolding close_tag
close_tag-cut none f e h = refl
close_tag-cut (some c) f e h = elim (Bool-cases (c == b'/')) [
  | inl y ↦ rw y (
      with_tag_cnt-cut (f.cnt + 1) (checked_sub f.tag_cnt 1) f tag_end
        (λ m. tag_end-cut (record f { tag_cnt = m }) e h))
  | inr n ↦ rw n (tag_end-cut f e h)
]

self_closing-cut :
    (f : StanzaFilter)
    → get_elem? f.buf f.cnt ≡ some b'>'
    → f.cnt < length f.buf
    → self_closing f.cnt (cut (f.cnt + 1) f) ≡ cut_turn (f.cnt + 1) (self_closing f.cnt f)
unfolding self_closing previous_byte
self_closing-cut f e h =
    ap (λ o. close_tag o (cut (f.cnt + 1) f)) (previous f.cnt f.buf)
    ∙ close_tag-cut (previous_byte f.cnt f.buf) f e h
  where
    previous : (n : ℕ) (xs : Bytes) → previous_byte n (take (n + 1) xs) ≡ previous_byte n xs
    previous n xs = ground (arith, get_elem?-take (n - 1) (n + 1) xs)

on_equals-cut :
    (n : ℕ) (r : Outcome Bool) (f : StanzaFilter) (same other : Turn)
    → on_equals r (cut n f) (cut_turn n same) (cut_turn n other)
      ≡ cut_turn n (on_equals r f same other)
on_equals-cut n (ok true) f same other = refl
on_equals-cut n (ok false) f same other = refl
on_equals-cut n (err e) f same other = refl
on_equals-cut n panic f same other = refl

pub marked-cut :
    (f : StanzaFilter)
    → get_elem? f.buf f.cnt ≡ some b'>'
    → f.cnt < length f.buf
    → self_closing f.cnt (mark_first_tag (cut (f.cnt + 1) f))
      ≡ cut_turn (f.cnt + 1) (self_closing f.cnt (mark_first_tag f))
unfolding mark_first_tag
marked-cut f e h = self_closing-cut (mark_first_tag f) e h

pub mark_first_tag-cut :
    (n : ℕ) (f : StanzaFilter) → mark_first_tag (cut n f) ≡ cut n (mark_first_tag f)
unfolding mark_first_tag
mark_first_tag-cut n f = refl

pub if-cut :
    (n : ℕ) (t : Bool) {x y : Turn} (x' y' : Turn)
    → (t ≡ true → x ≡ cut_turn n x')
    → (t ≡ false → y ≡ cut_turn n y')
    → (if t then x else y) ≡ cut_turn n (if t then x' else y')
if-cut n true x' y' p q = p refl
if-cut n false x' y' p q = q refl

pub equals-cut :
    (f : StanzaFilter) (needle : Bytes) (same other : Turn) {same' other' : Turn}
    → same' ≡ cut_turn (f.cnt + 1) same
    → other' ≡ cut_turn (f.cnt + 1) other
    → on_equals (last_equals (cut (f.cnt + 1) f) needle) (cut (f.cnt + 1) f) same' other'
      ≡ cut_turn (f.cnt + 1) (on_equals (last_equals f needle) f same other)
equals-cut f needle same other p q =
    rw (last_equals-cut f needle, p, q)
      (on_equals-cut (f.cnt + 1) (last_equals f needle) f same other)
