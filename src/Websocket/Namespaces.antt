-- ===== src/Websocket/Namespaces.antt =====
-- The namespaces that a first tag needs for `to_ws_new`, and where the tag ends.
use xmpp_proxy.Prelude.{
  ℕ, ◌-◌, ◌≡◌, ◌≢◌, ◌⊎◌, inl, inr, refl, ap, ◌∙◌, subst, Bool, true, false, not, ◌||◌, ◌==◌, ==_iff,
  if◌then◌else◌, Bool-cases, Bytes, codes, get_elem?, [], ◌++◌, Option, none, some, ok, ok-inj,
}
use xmpp_proxy.Slice.{contains_seq}
use xmpp_proxy.Slice.Search.{OccursAt, contains_seq-OccursAt, OccursAt-contains_seq}
use xmpp_proxy.Websocket.Framing.{
  has_xmlns, has_xmlns_stream, default_namespace, missing, before_slash, tag_text_end,
}

-- the text stands somewhere in the tag
abbrev pub Holds : Bytes → Bytes → Type 0
Holds tag needle = (i : ℕ) × OccursAt tag needle i

-- The default namespace that is put in: none where the tag has one, and else the one of a client's
-- stream or of a server's.
pub data DefaultPart (tag : Bytes) (is_c2s : Bool) : Bytes → Type 0 where
  has_default :
      Holds tag (codes " xmlns='") ⊎ Holds tag (codes " xmlns=\"") → DefaultPart tag is_c2s []
  of_client :
      ¬ (Holds tag (codes " xmlns='"))
      → ¬ (Holds tag (codes " xmlns=\""))
      → is_c2s ≡ true
      → DefaultPart tag is_c2s (codes " xmlns='jabber:client'")
  of_server :
      ¬ (Holds tag (codes " xmlns='"))
      → ¬ (Holds tag (codes " xmlns=\""))
      → is_c2s ≡ false
      → DefaultPart tag is_c2s (codes " xmlns='jabber:server'")

-- The stream's namespace is put in where the tag uses it and does not declare it.
pub data StreamPart (tag : Bytes) : Bytes → Type 0 where
  unused : ¬ (Holds tag (codes "stream:")) → StreamPart tag []
  has_stream :
      Holds tag (codes " xmlns:stream='") ⊎ Holds tag (codes " xmlns:stream=\"") → StreamPart tag []
  of_stream :
      Holds tag (codes "stream:")
      → ¬ (Holds tag (codes " xmlns:stream='"))
      → ¬ (Holds tag (codes " xmlns:stream=\""))
      → StreamPart tag (codes " xmlns:stream='http://etherx.jabber.org/streams'")

-- The text of the first tag of `buf`, which ends at `e`, ends at `k`: in front of the `/` of a tag
-- that closes itself.
pub data TextEnds (buf : Bytes) : ℕ → ℕ → Type 0 where
  at_slash : {e : ℕ} → get_elem? buf (e - 1) ≡ some b'/' → TextEnds buf e (e - 1)
  at_end : {e c : ℕ} → get_elem? buf (e - 1) ≡ some c → c ≢ b'/' → TextEnds buf e e

not_both : {b : Bool} → b ≡ true → b ≡ false → ⊥
not_both h k = cc

lacks_of : (tag needle : Bytes) → contains_seq tag needle ≡ false → ¬ (Holds tag needle)
lacks_of tag needle h (i, o) = not_both (OccursAt-contains_seq o) h

or-true : (a b : Bool) → (a || b) ≡ true → (a ≡ true) ⊎ (b ≡ true)
or-true true b h = inl refl
or-true false b h = inr h

or-false : (a b : Bool) → (a || b) ≡ false → (a ≡ false) × (b ≡ false)
or-false true b h = cc
or-false false b h = (refl, h)

either-Holds :
    (tag m n : Bytes)
    → (contains_seq tag m || contains_seq tag n) ≡ true
    → Holds tag m ⊎ Holds tag n
either-Holds tag m n h = elim (or-true (contains_seq tag m) (contains_seq tag n) h) [
  | inl x ↦ inl (contains_seq-OccursAt tag m x)
  | inr y ↦ inr (contains_seq-OccursAt tag n y)
]

neither-Holds :
    (tag m n : Bytes)
    → (contains_seq tag m || contains_seq tag n) ≡ false
    → ¬ (Holds tag m) × ¬ (Holds tag n)
neither-Holds tag m n h =
    let (x, y) = or-false (contains_seq tag m) (contains_seq tag n) h in
    (lacks_of tag m x, lacks_of tag n y)

pub has_xmlns-DefaultPart :
    (tag : Bytes) (is_c2s : Bool) → has_xmlns tag ≡ true → DefaultPart tag is_c2s []
unfolding has_xmlns contains_seq
has_xmlns-DefaultPart tag is_c2s h =
    has_default (either-Holds tag (codes " xmlns='") (codes " xmlns=\"") h)

lacks_xmlns-DefaultPart :
    (tag : Bytes) (is_c2s : Bool)
    → has_xmlns tag ≡ false
    → DefaultPart tag is_c2s (default_namespace is_c2s)
unfolding has_xmlns contains_seq
lacks_xmlns-DefaultPart tag true h =
    let (m, n) = neither-Holds tag (codes " xmlns='") (codes " xmlns=\"") h in of_client m n refl
lacks_xmlns-DefaultPart tag false h =
    let (m, n) = neither-Holds tag (codes " xmlns='") (codes " xmlns=\"") h in of_server m n refl

pub has_xmlns_stream-StreamPart : (tag : Bytes) → has_xmlns_stream tag ≡ true → StreamPart tag []
unfolding has_xmlns_stream contains_seq
has_xmlns_stream-StreamPart tag h = elim (Bool-cases (contains_seq tag (codes "stream:"))) [
  | inl uses ↦
      has_stream
        (either-Holds tag (codes " xmlns:stream='") (codes " xmlns:stream=\"") (used _ _ uses h))
  | inr n ↦ unused (lacks_of tag (codes "stream:") n)
]
  where
    used : (a b : Bool) → a ≡ true → (not a || b) ≡ true → b ≡ true
    used a b e k = cc

lacks_xmlns_stream-StreamPart :
    (tag : Bytes)
    → has_xmlns_stream tag ≡ false
    → StreamPart tag (codes " xmlns:stream='http://etherx.jabber.org/streams'")
unfolding has_xmlns_stream contains_seq
lacks_xmlns_stream-StreamPart tag h =
    let (a, b) = or-false (not (contains_seq tag (codes "stream:"))) _ h in
    let (m, n) = neither-Holds tag (codes " xmlns:stream='") (codes " xmlns:stream=\"") b in
    of_stream (contains_seq-OccursAt tag (codes "stream:") (negated _ a)) m n
  where
    negated : (a : Bool) → not a ≡ false → a ≡ true
    negated true h = refl
    negated false h = cc

-- what is put in
pub record Parts (tag : Bytes) (is_c2s : Bool) (added : Bytes) : Type 0 where
  pub default_part : Bytes
  pub is_default : DefaultPart tag is_c2s default_part
  pub stream_part : Bytes
  pub is_stream : StreamPart tag stream_part
  pub both : added ≡ default_part ++ stream_part

pub missing-Parts : (tag : Bytes) (is_c2s : Bool) → Parts tag is_c2s (missing tag is_c2s)
unfolding missing
missing-Parts tag is_c2s = elim (Bool-cases (has_xmlns tag)) [
  | inl h ↦ elim (Bool-cases (has_xmlns_stream tag)) [
    | inl k ↦
        rw (h, k)
          (record {
            default_part = [];
            is_default = has_xmlns-DefaultPart tag is_c2s h;
            stream_part = [];
            is_stream = has_xmlns_stream-StreamPart tag k;
            both = refl;
          })
    | inr k ↦
        rw (h, k)
          (record {
            default_part = [];
            is_default = has_xmlns-DefaultPart tag is_c2s h;
            stream_part = codes " xmlns:stream='http://etherx.jabber.org/streams'";
            is_stream = lacks_xmlns_stream-StreamPart tag k;
            both = refl;
          })
  ]
  | inr h ↦ elim (Bool-cases (has_xmlns_stream tag)) [
    | inl k ↦
        rw (h, k)
          (record {
            default_part = default_namespace is_c2s;
            is_default = lacks_xmlns-DefaultPart tag is_c2s h;
            stream_part = [];
            is_stream = has_xmlns_stream-StreamPart tag k;
            both = refl;
          })
    | inr k ↦
        rw (h, k)
          (record {
            default_part = default_namespace is_c2s;
            is_default = lacks_xmlns-DefaultPart tag is_c2s h;
            stream_part = codes " xmlns:stream='http://etherx.jabber.org/streams'";
            is_stream = lacks_xmlns_stream-StreamPart tag k;
            both = refl;
          })
  ]
]

before_slash-TextEnds :
    (buf : Bytes) (o : Option ℕ) (e k : ℕ)
    → get_elem? buf (e - 1) ≡ o
    → before_slash o e ≡ ok k
    → TextEnds buf e k
before_slash-TextEnds buf none e k h g = cc
before_slash-TextEnds buf (some c) e k h g = elim (Bool-cases (c == b'/')) [
  | inl s ↦
      subst (TextEnds buf e) (ok-inj (subst (λ b. ok (if b then e - 1 else e) ≡ ok k) s g))
        (at_slash (h ∙ ap some ((==_iff c b'/').0 s)))
  | inr n ↦
      subst (TextEnds buf e) (ok-inj (subst (λ b. ok (if b then e - 1 else e) ≡ ok k) n g))
        (at_end h (λ same. not_both ((==_iff c b'/').1 same) n))
]

pub tag_text_end-TextEnds : (buf : Bytes) (e k : ℕ) → tag_text_end buf e ≡ ok k → TextEnds buf e k
unfolding tag_text_end
tag_text_end-TextEnds buf e k h = before_slash-TextEnds buf (get_elem? buf (e - 1)) e k refl h
