-- ===== src/Systemd/Descriptors.antt =====
-- Which descriptors are taken, and the name that each gets.
use xmpp_proxy.Prelude.{
  ℕ, zero, suc, ◌+◌, ◌<◌, ◌≡◌, ◌⊎◌, inl, inr, refl, sym, ap, ◌∙◌, subst, Bool, true, false, leb,
  if◌then◌else◌, Bool-cases, Bytes, get_elem?, List, [], ◌∷◌, Option, none, some, ok, err, ◌>>=◌,
  ok-of_>>=, ok-inj, overlarge_fd, arith,
}
use xmpp_proxy.Srv.Sort.{Among, first, later}
use xmpp_proxy.Systemd.{
  Sockets, FileDescriptor, is_stream, is_inet, next_name, other_names, listening, kinds, push_front,
  descriptor, from_offset, socks_from_fds,
}

module _ (s : Sockets) where
  -- a descriptor that listens, of a kind that is known, with the name at its own place
  pub record IsPassed (offset : ℕ) (names : List Bytes) (rounds : ℕ) (fd : FileDescriptor)
      : Type 0 where
    pub place : ℕ
    pub in_range : place < rounds
    pub is_fd : fd.raw_fd ≡ 3 + (offset + place)
    pub has_name : fd.name ≡ get_elem? names place
    pub listens : s.accepts fd.raw_fd ≡ some true
    pub is_type : is_stream (s.sock_type fd.raw_fd) ≡ some fd.tcp_not_udp
    pub is_family : is_inet (s.address_family fd.raw_fd) ≡ some fd.inet_not_unix

  listening-true : (o : Option Bool) → listening o ≡ true → o ≡ some true
  listening-true none h = cc
  listening-true (some true) h = refl
  listening-true (some false) h = cc

  some_or : {A : Type 0} → A → Option A → A
  some_or a none = a
  some_or a (some b) = b

  some-inj : {A : Type 0} {a b : A} → some a ≡ some b → a ≡ b
  unfolding some_or
  some-inj {A} {a} {b} h = ap (some_or a) h

  abbrev IsKind : Option Bool → Option Bool → ℕ → Option Bytes → FileDescriptor → Type 0
  IsKind t i raw_fd name fd =
      (fd.raw_fd ≡ raw_fd)
      × (fd.name ≡ name)
      × (t ≡ some fd.tcp_not_udp)
      × (i ≡ some fd.inet_not_unix)

  kinds-some :
      (t i : Option Bool) (raw_fd : ℕ) (name : Option Bytes) (fd : FileDescriptor)
      → kinds t i raw_fd name ≡ some fd
      → IsKind t i raw_fd name fd
  kinds-some (some t) (some i) raw_fd name fd h =
      subst (IsKind (some t) (some i) raw_fd name) (some-inj h) (refl, refl, refl, refl)
  kinds-some (some t) none raw_fd name fd h = cc
  kinds-some none i raw_fd name fd h = cc

  next_name-get_elem? : (names : List Bytes) → next_name names ≡ get_elem? names 0
  next_name-get_elem? [] = refl
  next_name-get_elem? (n ∷ ns) = refl

  other_names-get_elem? :
      (names : List Bytes) (i : ℕ) → get_elem? (other_names names) i ≡ get_elem? names (suc i)
  other_names-get_elem? [] i = refl
  other_names-get_elem? (n ∷ ns) i = refl

  descriptor-IsPassed :
      (offset rounds : ℕ) (names : List Bytes) (fd : FileDescriptor)
      → descriptor s (3 + offset) (next_name names) ≡ some fd
      → IsPassed offset names (suc rounds) fd
  unfolding descriptor
  descriptor-IsPassed offset rounds names fd h =
      let n = 3 + offset in
      let ks =
        kinds (is_stream (s.sock_type n)) (is_inet (s.address_family n)) n (next_name names) in
      elim (Bool-cases (listening (s.accepts n))) [
        | inl l ↦
            let (r, nm, t, f) =
              kinds-some (is_stream (s.sock_type n)) (is_inet (s.address_family n)) n
                (next_name names) fd (subst (λ b. (if b then ks else none) ≡ some fd) l h) in
            record {
              place = 0;
              in_range = omega arith;
              is_fd = r ∙ omega arith;
              has_name = nm ∙ next_name-get_elem? names;
              listens = ap s.accepts r ∙ listening-true (s.accepts n) l;
              is_type = ap (λ k. is_stream (s.sock_type k)) r ∙ t;
              is_family = ap (λ k. is_inet (s.address_family k)) r ∙ f;
            }
        | inr q ↦ absurd (none-some (subst (λ b. (if b then ks else none) ≡ some fd) q h))
      ]
    where
      none-some : none ≡ some fd → ⊥
      none-some e = cc

  IsPassed-later :
      (offset rounds : ℕ) (names : List Bytes) (fd : FileDescriptor)
      → IsPassed (suc offset) (other_names names) rounds fd
      → IsPassed offset names (suc rounds) fd
  IsPassed-later offset rounds names fd p = record {
    place = suc p.place;
    in_range = omega (arith, p.in_range);
    is_fd = p.is_fd ∙ omega arith;
    has_name = p.has_name ∙ other_names-get_elem? names p.place;
    listens = p.listens;
    is_type = p.is_type;
    is_family = p.is_family;
  }

  push_front-Among :
      (o : Option FileDescriptor) {fds : List FileDescriptor} {fd : FileDescriptor}
      → Among fd (push_front o fds)
      → (o ≡ some fd) ⊎ Among fd fds
  push_front-Among none m = inr m
  push_front-Among (some f) first = inl refl
  push_front-Among (some f) (later m) = inr m

  from_offset-IsPassed :
      (rounds offset : ℕ) (names : List Bytes) (fds : List FileDescriptor) (fd : FileDescriptor)
      → from_offset s rounds offset names ≡ ok fds
      → Among fd fds
      → IsPassed offset names rounds fd
  unfolding from_offset
  from_offset-IsPassed zero offset names fds fd h m =
      elim (subst (λ l. Among fd l) (sym (ok-inj h)) m) [ ]
  from_offset-IsPassed (suc rounds) offset names fds fd h m =
      let pushed = λ (more : List FileDescriptor).
        push_front (descriptor s (3 + offset) (next_name names)) more in
      elim (Bool-cases (leb (3 + offset) 2147483647)) [
        | inl small ↦
            let h₁ =
              subst
                (λ b.
                  (if b
                    then (from_offset s rounds (suc offset) (other_names names) >>= λ more.
                        ok (pushed more))
                    else err overlarge_fd)
                  ≡ ok fds)
                small h in
            let (more, h₂, e) =
              ok-of_>>= (λ k. ok (pushed k)) (from_offset s rounds (suc offset) (other_names names))
                (sym h₁) in
            elim (push_front-Among (descriptor s (3 + offset) (next_name names))
              (subst (λ l. Among fd l) (ok-inj h₂) m)) [
                | inl d ↦ descriptor-IsPassed offset rounds names fd d
                | inr n ↦
                    IsPassed-later offset rounds names fd
                      (from_offset-IsPassed rounds (suc offset) (other_names names) more fd e n)
              ]
        | inr large ↦ cc
      ]

  -- Each descriptor that is taken is one of those that systemd passed, from 3 on; it is listening, its
  -- type and family are what the socket says, and its name is the one at its own place, also where
  -- descriptors before it were left out.
  pub socks_from_fds-IsPassed :
      (num_fds : ℕ) (names : List Bytes) (fds : List FileDescriptor) (fd : FileDescriptor)
      → socks_from_fds s num_fds names ≡ ok fds
      → Among fd fds
      → IsPassed 0 names num_fds fd
  unfolding socks_from_fds
  socks_from_fds-IsPassed num_fds names fds fd h m = from_offset-IsPassed num_fds 0 names fds fd h m
