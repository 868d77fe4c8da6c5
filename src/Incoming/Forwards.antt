-- ===== src/Incoming/Forwards.antt =====
-- What the target of an incoming stream is sent first.
use xmpp_proxy.Prelude.{
  ℕ, suc, ◌+◌, ◌<◌, ◌≡◌, inl, inr, refl, sym, ap, ◌∙◌, subst, Bool, true, false, not, ◌&&◌, ◌==◌,
  leb, if◌then◌else◌, Bool-cases, Bytes, codes, length, take, drop, [], ◌∷◌, ◌++◌, append-nil,
  append_assoc, ok, ok-of_>>=, ok-inj, arith,
}
use xmpp_proxy.Slice.{first_index_of}
use xmpp_proxy.Slice.Search.{OccursAt, first_index_of-FirstAt}
use xmpp_proxy.Filter.{StanzaFilter}
use xmpp_proxy.Filter.Stanza.{Avoids, none_left, other}
use xmpp_proxy.Wire.{Sink, write_flush, write_all-sent, write_flush-sent}
use xmpp_proxy.Incoming.{
  Addresses, IncomingConfig, proxy_header, print_into, write_proxy, target_of, open_incoming,
}

abbrev head_or : ℕ → Bytes → ℕ
head_or c [] = c
head_or c (x ∷ xs) = x

abbrev tail_of : Bytes → Bytes
tail_of [] = []
tail_of (x ∷ xs) = xs

not_before :
    (c : ℕ) (a b : Bytes) (j : ℕ) → Avoids c a → j < length a → ¬ OccursAt (a ++ (c ∷ b)) (c ∷ []) j
not_before c [] b j v l o = absurd (omega arith)
not_before c (y ∷ a) b j (other n v) l o =
    decide (λ k m. not_before c a b k v m) o.before o.after o.splits o.place
  where
    decide :
        ((k : ℕ) → k < length a → ¬ OccursAt (a ++ (c ∷ b)) (c ∷ []) k)
        → (before after : Bytes) → y ∷ (a ++ (c ∷ b)) ≡ before ++ ((c ∷ []) ++ after)
        → length before ≡ j
        → ⊥
    decide behind [] after e p = n (ap (head_or c) e)
    decide behind (z ∷ zs) after e p =
        let o : OccursAt (a ++ (c ∷ b)) (c ∷ []) (length zs) = record {
          before = zs;
          after = after;
          splits = ap tail_of e;
          place = refl;
        } in
        behind (length zs) (omega arith) o

-- The line ends at its own newline, whatever stands behind it.
first_newline :
    (c : ℕ) (a b : Bytes) → Avoids c a → first_index_of (a ++ (c ∷ b)) (c ∷ []) ≡ ok (length a)
first_newline c a b v =
    let o : OccursAt (a ++ (c ∷ b)) (c ∷ []) (length a) = record {
      before = a;
      after = b;
      splits = refl;
      place = refl;
    } in
    first_index_of-FirstAt (record { occurs = o; first = λ j l. not_before c a b j v l })

Avoids-append : {c : ℕ} {a b : Bytes} → Avoids c a → Avoids c b → Avoids c (a ++ b)
Avoids-append none_left w = w
Avoids-append (other n v) w = other n (Avoids-append v w)

abbrev avoids : ℕ → Bytes → Bool
avoids c [] = true
avoids c (x ∷ xs) = not (x == c) && avoids c xs

literal : {c : ℕ} (a : Bytes) → avoids c a ≡ true → Avoids c a
literal [] h = none_left
literal {c} (x ∷ xs) h = elim (Bool-cases (x == c)) [
  | inl e ↦ absurd (not_same (subst (λ b. (not b && avoids c xs) ≡ true) e h))
  | inr n ↦
      other (λ e. absurd (ground arith))
        (literal xs (subst (λ b. (not b && avoids c xs) ≡ true) n h))
]
  where
    not_same : false ≡ true → ⊥
    not_same e = cc

-- none of the printed addresses holds a newline
pub record OneLine (a : Addresses) : Type 0 where
  pub client_ip : Avoids 10 a.client_ip
  pub local_ip : Avoids 10 a.local_ip
  pub client_port : Avoids 10 a.client_port
  pub local_port : Avoids 10 a.local_port

abbrev front : Addresses → Bytes
front a =
    codes "PROXY TCP"
    ++ ((if a.is_ipv4 then codes "4" else codes "6")
        ++ (codes " "
            ++ (a.client_ip
                ++ (codes " "
                    ++ (a.local_ip
                        ++ (codes " "
                            ++ (a.client_port ++ (codes " " ++ (a.local_port ++ codes "\r")))))))))

front-Avoids : (a : Addresses) → OneLine a → Avoids 10 (front a)
front-Avoids a o = Avoids-append (literal (codes "PROXY TCP") refl) (
    Avoids-append (family a.is_ipv4) (
      other (λ e. absurd (omega arith))
        (Avoids-append o.client_ip (
          other (λ e. absurd (omega arith))
            (Avoids-append o.local_ip (
              other (λ e. absurd (omega arith))
                (Avoids-append o.client_port (
                  other (λ e. absurd (omega arith))
                    (Avoids-append o.local_port (literal (codes "\r") refl))))))))))
  where
    family : (b : Bool) → Avoids 10 (if b then codes "4" else codes "6")
    family true = literal (codes "4") refl
    family false = literal (codes "6") refl

front-header : (a : Addresses) (b : Bytes) → proxy_header a ++ b ≡ front a ++ (10 ∷ b)
front-header a b = simp append_assoc

print_into-ok :
    (line buf printed : Bytes)
    → print_into line buf ≡ ok printed
    → printed ≡ line ++ drop (length line) buf
print_into-ok line buf printed h = elim (Bool-cases (leb (length line) (length buf))) [
  | inl fits ↦ cc
  | inr long ↦ cc
]

take-line : (a b : Bytes) → take (length a + 1) (a ++ (10 ∷ b)) ≡ a ++ (10 ∷ [])
take-line [] b = refl
take-line (x ∷ a) b =
    let e : suc (length a) + 1 ≡ suc (length a + 1) = omega arith in
    rw e (ap (◌∷◌ x) (take-line a b))

write_proxy-sent :
    (a : Addresses) (buf : Bytes) (s t : Sink)
    → OneLine a
    → ok t ≡ write_proxy a buf s
    → t.sent ≡ s.sent ++ proxy_header a
unfolding write_proxy
write_proxy-sent a buf s t o h =
    let (printed, h₁, p) = ok-of_>>= _ (print_into (proxy_header a) buf) h in
    let (end, h₂, e) = ok-of_>>= _ (first_index_of printed (codes "\n")) h₁ in
    let old = drop (length (proxy_header a)) buf in
    let is_printed : printed ≡ front a ++ (10 ∷ old) =
      print_into-ok (proxy_header a) buf printed p ∙ front-header a old in
    let is_end : length (front a) ≡ end = ok-inj (
      sym (first_newline 10 (front a) old (front-Avoids a o))
      ∙ ap (λ u. first_index_of u (codes "\n")) (sym is_printed)
      ∙ e) in
    write_all-sent (take (end + 1) printed) s t h₂
    ∙ ap (λ u. s.sent ++ u)
        (ap (λ n. take (n + 1) printed) (sym is_end)
          ∙ ap (take (length (front a) + 1)) is_printed
          ∙ take-line (front a) old
          ∙ sym (front-header a [])
          ∙ append-nil (proxy_header a))

-- what stands before the header, with the PROXY protocol or without
abbrev pub announced : Bool → Addresses → Bytes
announced true a = proxy_header a
announced false a = []

announced-sent :
    (proxy : Bool) (a : Addresses) (buf : Bytes) (s t : Sink)
    → OneLine a
    → ok t ≡ (if proxy then write_proxy a buf s else ok s)
    → t.sent ≡ s.sent ++ announced proxy a
announced-sent true a buf s t o h = write_proxy-sent a buf s t o h
announced-sent false a buf s t o h = ap (λ u. u.sent) (ok-inj h) ∙ sym (append-nil s.sent)

-- The target that the configuration names for this kind of stream is sent the PROXY line, if that
-- is asked for, and then the header of the stream, and nothing else: what the filter's buffer held
-- before is not sent.
pub open_incoming-sent :
    (config : IncomingConfig) (a : Addresses) (stream_open : Bytes) (is_c2s : Bool)
    (f : StanzaFilter) (t : Sink)
    → OneLine a
    → open_incoming config a stream_open is_c2s f ≡ ok t
    → (s : Sink) × (target_of (if is_c2s then config.c2s_target else config.s2s_target) ≡ ok s)
      × (t.sent ≡ s.sent ++ (announced config.proxy a ++ stream_open))
unfolding open_incoming
open_incoming-sent config a stream_open is_c2s f t o h =
    let (s, h₁, e) =
      ok-of_>>= _ (target_of (if is_c2s then config.c2s_target else config.s2s_target)) (sym h) in
    let (u, h₂, p) =
      ok-of_>>= (write_flush stream_open) (if config.proxy then write_proxy a f.buf s else ok s)
        h₁ in
    (
      s,
      e,
      write_flush-sent stream_open u t h₂
          ∙ ap (λ v. v ++ stream_open) (announced-sent config.proxy a f.buf s u o (sym p))
          ∙ append_assoc s.sent (announced config.proxy a) stream_open,
    )
