-- ===== src/Websocket/Declares.antt =====
-- What `to_ws_new` makes of a stanza that is no header and no end of the stream.
use xmpp_proxy.Prelude.{
  ℕ, zero, suc, ◌≡◌, ◌≢◌, inl, inr, refl, sym, ap, ◌∙◌, subst, Bool, true, false, not, ◌&&◌, ◌||◌,
  leb, ◌==◌, if◌then◌else◌, Bool-cases, Bytes, codes, length, take, drop, starts_with, [], ◌++◌,
  append-nil, append_assoc, take-append-drop, length-take, leb→le, ok, panic, ◌>>=◌, ok-of_>>=,
  ok-inj, arith,
}
use xmpp_proxy.Slice.{contains_seq}
use xmpp_proxy.Slice.Search.{OccursAt, contains_seq-OccursAt, OccursAt-contains_seq}
use xmpp_proxy.Filter.{stream_open}
use xmpp_proxy.Websocket.Text.{from_utf8, is_utf8_from}
use xmpp_proxy.Websocket.Namespaces.{
  TextEnds, Parts, missing-Parts, has_xmlns-DefaultPart, has_xmlns_stream-StreamPart,
  tag_text_end-TextEnds,
}
use xmpp_proxy.Websocket.Framing.{
  has_xmlns, has_xmlns_stream, default_namespace, missing, insert_namespaces, declare_namespaces,
  tag_text_end, to_ws_new,
}

OccursAt-left :
    {s needle : Bytes} {i : ℕ} (t : Bytes) → OccursAt s needle i → OccursAt (s ++ t) needle i
OccursAt-left {s} {needle} t o = record {
  before = o.before;
  after = o.after ++ t;
  splits =
      ap (λ u. u ++ t) o.splits
      ∙ append_assoc o.before (needle ++ o.after) t
      ∙ ap (λ u. o.before ++ u) (append_assoc needle o.after t);
  place = o.place;
}

contains_seq-left :
    (s t needle : Bytes) → contains_seq s needle ≡ true → contains_seq (s ++ t) needle ≡ true
contains_seq-left s t needle h =
    let (i, o) = contains_seq-OccursAt s needle h in OccursAt-contains_seq (OccursAt-left t o)

contains_seq-at : (a needle c : Bytes) → contains_seq (a ++ (needle ++ c)) needle ≡ true
contains_seq-at a needle c =
    let o : OccursAt (a ++ (needle ++ c)) needle (length a) = record {
      before = a;
      after = c;
      splits = refl;
      place = refl;
    } in
    OccursAt-contains_seq o

-- the stream namespace is declared
abbrev pub StreamsDeclared : Bytes → Type 0
StreamsDeclared tag =
    (contains_seq tag (codes " xmlns:stream='") || contains_seq tag (codes " xmlns:stream=\""))
    ≡ true

or-left :
    (a b c d : Bool)
    → (a ≡ true → c ≡ true)
    → (b ≡ true → d ≡ true)
    → (a || b) ≡ true
    → (c || d) ≡ true
or-left true b c d f g h = rw (f refl) refl
or-left false b true d f g h = refl
or-left false b false d f g h = g h

has_xmlns-left : (s t : Bytes) → has_xmlns s ≡ true → has_xmlns (s ++ t) ≡ true
unfolding has_xmlns contains_seq
has_xmlns-left s t h =
    or-left _ _ _ _ (contains_seq-left s t (codes " xmlns='"))
      (contains_seq-left s t (codes " xmlns=\"")) h

StreamsDeclared-left : (s t : Bytes) → StreamsDeclared s → StreamsDeclared (s ++ t)
StreamsDeclared-left s t h =
    or-left _ _ _ _ (contains_seq-left s t (codes " xmlns:stream='"))
      (contains_seq-left s t (codes " xmlns:stream=\"")) h

has_xmlns-added :
    (s t : Bytes) (is_c2s : Bool) → has_xmlns (s ++ (default_namespace is_c2s ++ t)) ≡ true
unfolding has_xmlns contains_seq
has_xmlns-added s t true =
    rw (contains_seq-at s (codes " xmlns='") (codes "jabber:client'" ++ t)) refl
has_xmlns-added s t false =
    rw (contains_seq-at s (codes " xmlns='") (codes "jabber:server'" ++ t)) refl

StreamsDeclared-of :
    (s : Bytes)
    → has_xmlns_stream s ≡ true
    → contains_seq s (codes "stream:") ≡ true
    → StreamsDeclared s
unfolding has_xmlns_stream contains_seq
StreamsDeclared-of s h k = cc

StreamsDeclared-added :
    (s : Bytes) → StreamsDeclared (s ++ codes " xmlns:stream='http://etherx.jabber.org/streams'")
StreamsDeclared-added s =
    rw (contains_seq-at s (codes " xmlns:stream='") (codes "http://etherx.jabber.org/streams'"))
      refl

has_xmlns-missing : (tag : Bytes) (is_c2s : Bool) → has_xmlns (tag ++ missing tag is_c2s) ≡ true
unfolding missing
has_xmlns-missing tag is_c2s = elim (Bool-cases (has_xmlns tag)) [
  | inl h ↦ has_xmlns-left tag _ h
  | inr n ↦ rw n (has_xmlns-added tag _ is_c2s)
]

StreamsDeclared-missing :
    (tag : Bytes) (is_c2s : Bool)
    → contains_seq tag (codes "stream:") ≡ true
    → StreamsDeclared (tag ++ missing tag is_c2s)
unfolding missing
StreamsDeclared-missing tag is_c2s k = elim (Bool-cases (has_xmlns_stream tag)) [
  | inl h ↦ StreamsDeclared-left tag _ (StreamsDeclared-of tag h k)
  | inr n ↦
      rw
        (
          n,
          ← append_assoc tag (if not (has_xmlns tag) then default_namespace is_c2s else [])
              (codes " xmlns:stream='http://etherx.jabber.org/streams'"),
        )
        (StreamsDeclared-added
          (tag ++ (if not (has_xmlns tag) then default_namespace is_c2s else [])))
]

-- `out` is `buf` with the namespaces put in that its first tag is without, at the end of the tag's
-- text, so that the tag declares what it needs.
pub record IsDeclared (buf : Bytes) (e : ℕ) (is_c2s : Bool) (out : Bytes) : Type 0 where
  pub tag : Bytes
  pub added : Bytes
  pub rest : Bytes
  pub splits : buf ≡ tag ++ rest
  pub ends : TextEnds buf e (length tag)
  pub parts : Parts tag is_c2s added
  pub result : out ≡ (tag ++ added) ++ rest
  pub default_declared : has_xmlns (tag ++ added) ≡ true
  pub streams_declared : contains_seq tag (codes "stream:") ≡ true → StreamsDeclared (tag ++ added)

pub from_utf8-ok : (buf out : Bytes) → ok out ≡ from_utf8 buf → out ≡ buf
unfolding from_utf8
from_utf8-ok buf out h = elim (Bool-cases (is_utf8_from (0, 128, 191) buf)) [
  | inl u ↦ cc
  | inr u ↦ cc
]

insert_namespaces-IsDeclared :
    (buf out : Bytes) (is_c2s : Bool) (e₀ e : ℕ)
    → TextEnds buf e₀ (length (take e buf))
    → ok out ≡ insert_namespaces buf is_c2s e
    → IsDeclared buf e₀ is_c2s out
unfolding insert_namespaces
insert_namespaces-IsDeclared buf out is_c2s e₀ e ends h =
    let (tag, h₁, t) = ok-of_>>= _ (from_utf8 (take e buf)) h in
    let (rest, h₂, r) = ok-of_>>= _ (from_utf8 (drop e buf)) h₁ in
    let is_tag = from_utf8-ok (take e buf) tag (sym t) in
    let is_rest = from_utf8-ok (drop e buf) rest (sym r) in
    record {
      tag = take e buf;
      added = missing (take e buf) is_c2s;
      rest = drop e buf;
      splits = sym (take-append-drop e buf);
      ends = ends;
      parts = missing-Parts (take e buf) is_c2s;
      result =
          ok-inj h₂
          ∙ ap (λ u. (u ++ missing (take e buf) is_c2s) ++ rest) is_tag
          ∙ ap (λ u. (take e buf ++ missing (take e buf) is_c2s) ++ u) is_rest;
      default_declared = has_xmlns-missing (take e buf) is_c2s;
      streams_declared = StreamsDeclared-missing (take e buf) is_c2s;
    }

and-split : (a b : Bool) → (a && b) ≡ true → (a ≡ true) × (b ≡ true)
and-split true b h = (refl, h)
and-split false b h = cc

declare_namespaces-IsDeclared :
    (buf out : Bytes) (is_c2s : Bool) (e₀ e : ℕ)
    → TextEnds buf e₀ e
    → ok out ≡ declare_namespaces buf is_c2s e
    → IsDeclared buf e₀ is_c2s out
unfolding declare_namespaces
declare_namespaces-IsDeclared buf out is_c2s e₀ e ends h =
    let both = has_xmlns (take e buf) && has_xmlns_stream (take e buf) in
    elim (Bool-cases (leb e (length buf))) [
      | inl l ↦
          let whole : length (take e buf) ≡ e =
            omega (arith, length-take e buf, leb→le e (length buf) l) in
          let ends_there = subst (TextEnds buf e₀) (sym whole) ends in
          let h₁ =
            subst
              (λ b. ok out ≡ (
                if b
                then (if both then from_utf8 buf else insert_namespaces buf is_c2s e)
                else panic))
              l h in
          elim (Bool-cases both) [
            | inl declared ↦
                let (x, y) =
                  and-split (has_xmlns (take e buf)) (has_xmlns_stream (take e buf)) declared in
                let nothing_added = append-nil (take e buf) in
                record {
                  tag = take e buf;
                  added = [];
                  rest = drop e buf;
                  splits = sym (take-append-drop e buf);
                  ends = ends_there;
                  parts = record {
                    default_part = [];
                    is_default = has_xmlns-DefaultPart (take e buf) is_c2s x;
                    stream_part = [];
                    is_stream = has_xmlns_stream-StreamPart (take e buf) y;
                    both = refl;
                  };
                  result =
                      from_utf8-ok buf out (
                        subst
                          (λ b.
                            ok out ≡ (if b then from_utf8 buf else insert_namespaces buf is_c2s e))
                          declared h₁)
                      ∙ sym (take-append-drop e buf)
                      ∙ ap (λ u. u ++ drop e buf) (sym nothing_added);
                  default_declared = subst (λ u. has_xmlns u ≡ true) (sym nothing_added) x;
                  streams_declared = λ k.
                      subst StreamsDeclared (sym nothing_added)
                        (StreamsDeclared-of (take e buf) y k);
                }
            | inr not_all ↦ insert_namespaces-IsDeclared buf out is_c2s e₀ e ends_there (
                subst (λ b. ok out ≡ (if b then from_utf8 buf else insert_namespaces buf is_c2s e))
                  not_all h₁)
          ]
      | inr beyond ↦ cc
    ]

to_ws_new-other :
    (buf : Bytes) (e : ℕ) (is_c2s : Bool)
    → starts_with buf stream_open ≡ false
    → starts_with buf (codes "</stream:stream") ≡ false
    → to_ws_new buf (suc e) is_c2s ≡ (tag_text_end buf (suc e) >>= declare_namespaces buf is_c2s)
unfolding to_ws_new
to_ws_new-other buf e is_c2s not_stream not_close =
    let nonzero : (suc e == 0) ≡ false = ground arith in rw (not_stream, nonzero, not_close) refl

-- A stanza that is no header and no end of the stream, and whose first tag has an end, is passed on
-- byte for byte but for the namespaces put in at the end of this tag's text, in front of the `/` of
-- one that closes itself: a default namespace, a client's or a server's, if the tag has none, and the
-- stream's if the tag uses it and has none. The tag then declares both.
pub to_ws_new-IsDeclared :
    (buf : Bytes) (e : ℕ) (is_c2s : Bool) (out : Bytes)
    → starts_with buf stream_open ≡ false
    → e ≢ 0
    → starts_with buf (codes "</stream:stream") ≡ false
    → to_ws_new buf e is_c2s ≡ ok out
    → IsDeclared buf e is_c2s out
to_ws_new-IsDeclared buf zero is_c2s out not_stream nonzero not_close h = absurd (nonzero refl)
to_ws_new-IsDeclared buf (suc e) is_c2s out not_stream nonzero not_close h =
    let (k, h₁, t) =
      ok-of_>>= (declare_namespaces buf is_c2s) (tag_text_end buf (suc e))
        (sym h ∙ to_ws_new-other buf e is_c2s not_stream not_close) in
    declare_namespaces-IsDeclared buf out is_c2s (suc e) k (tag_text_end-TextEnds buf (suc e) k t)
      h₁
