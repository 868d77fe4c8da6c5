-- ===== src/Verify/Accepts.antt =====
-- When `verify_cert` accepts a certificate.
use xmpp_proxy.Prelude.{
  ℕ, ◌≡◌, inl, inr, ◌↔◌, refl, sym, ap, ◌∙◌, subst, true, false, if◌then◌else◌, Bool-cases, Bytes,
  bytes_eq, List, [], ◌∷◌, Option, none, some, ok, ok-of_>>=, ok-inj,
}
use xmpp_proxy.Srv.Types.{External}
use xmpp_proxy.Srv.Sort.{Among, first, later, contains}
use xmpp_proxy.Srv.Posh.{Digests, Posh, valid_cert}
use xmpp_proxy.Srv.Posh.Valid.{Listed, valid_cert-Listed, contains-Among, Among-contains}
use xmpp_proxy.Verify.{
  Webpki, XmppServerCertVerifier, verify_is_valid_tls_server_cert, is_pinned, pin_of_key,
  check_pins, check_posh, any_name, verify_chain, verify_unpinned, verify_cert,
}

module _ {x : External} (w : Webpki x) (d : Digests) where
  -- The pin of a public key: the hash of the key behind the header of a SubjectPublicKeyInfo.
  abbrev pub pin_of : Bytes → Bytes
  pin_of key = d.encode (d.sha_256 (48 ∷ 130 ∷ 1 ∷ 34 ∷ key))

  -- Pins are given and the certificate's key is one of them; or no pins are given, or its key, which
  -- can be read, is none of them.
  pub record Pinned (pins : List Bytes) (cert : Bytes) : Type 0 where
    pub key : Bytes
    pub readable : w.subject_key cert ≡ some key
    pub listed : Among (pin_of key) pins

  pub data Unpinned (cert : Bytes) : List Bytes → Type 0 where
    no_pins : Unpinned cert []
    other_key :
        {pins : List Bytes} {key : Bytes}
        → w.subject_key cert ≡ some key
        → ¬ (Among (pin_of key) pins)
        → Unpinned cert pins

  -- Why a certificate is accepted.
  pub data Accepted (v : XmppServerCertVerifier x) (cert : Bytes) (chain : List Bytes) (now : ℕ)
      : Type 0 where
    by_pin : Pinned v.sha256_pinnedpubkeys cert → Accepted v cert chain now
    by_posh :
        (posh : Posh)
        → Unpinned cert v.sha256_pinnedpubkeys
        → v.posh ≡ some posh
        → Listed d posh cert
        → Accepted v cert chain now
    by_name :
        (name : x.ServerName)
        → Unpinned cert v.sha256_pinnedpubkeys
        → w.parses cert ≡ true
        → w.verify_for_usage cert chain now ≡ true
        → Among name v.names
        → w.valid_for_name cert name ≡ true
        → Accepted v cert chain now

  contains-not_Among :
      (pins : List Bytes) (a : Bytes) → contains bytes_eq pins a ≡ false → ¬ (Among a pins)
  contains-not_Among pins a h m = apart (sym h ∙ Among-contains m)
    where
      apart : ¬ (false ≡ true)
      apart e = cc

  not_Among-contains :
      (pins : List Bytes) (a : Bytes) → ¬ (Among a pins) → contains bytes_eq pins a ≡ false
  not_Among-contains pins a n = elim (Bool-cases (contains bytes_eq pins a)) [
    | inl h ↦ absurd (n (contains-Among pins a h))
    | inr h ↦ h
  ]

  pin_of_key-Pinned :
      (o : Option Bytes) (pins : List Bytes) (cert : Bytes)
      → w.subject_key cert ≡ o
      → pin_of_key w d o pins ≡ ok true
      → Pinned pins cert
  unfolding is_pinned
  pin_of_key-Pinned none pins cert e h = cc
  pin_of_key-Pinned (some key) pins cert e h = record {
    key = key;
    readable = e;
    listed = contains-Among pins (pin_of key) (ok-inj h);
  }

  pin_of_key-Unpinned :
      (o : Option Bytes) (pins : List Bytes) (cert : Bytes)
      → w.subject_key cert ≡ o
      → pin_of_key w d o pins ≡ ok false
      → Unpinned cert pins
  unfolding is_pinned
  pin_of_key-Unpinned none pins cert e h = cc
  pin_of_key-Unpinned (some key) pins cert e h =
      other_key e (contains-not_Among pins (pin_of key) (ok-inj h))

  check_pins-Pinned :
      (pins : List Bytes) (cert : Bytes) → check_pins w d pins cert ≡ ok true → Pinned pins cert
  unfolding check_pins
  check_pins-Pinned [] cert h = cc
  check_pins-Pinned (p ∷ pins) cert h =
      pin_of_key-Pinned (w.subject_key cert) (p ∷ pins) cert refl h

  check_pins-Unpinned :
      (pins : List Bytes) (cert : Bytes) → check_pins w d pins cert ≡ ok false → Unpinned cert pins
  unfolding check_pins
  check_pins-Unpinned [] cert h = no_pins
  check_pins-Unpinned (p ∷ pins) cert h =
      pin_of_key-Unpinned (w.subject_key cert) (p ∷ pins) cert refl h

  Pinned-check_pins :
      (pins : List Bytes) (cert : Bytes) → Pinned pins cert → check_pins w d pins cert ≡ ok true
  unfolding check_pins is_pinned
  Pinned-check_pins [] cert p = elim p.listed [ ]
  Pinned-check_pins (p ∷ pins) cert q = rw q.readable (ap ok (Among-contains q.listed))

  Unpinned-check_pins :
      {pins : List Bytes} (cert : Bytes) → Unpinned cert pins → check_pins w d pins cert ≡ ok false
  unfolding check_pins is_pinned
  Unpinned-check_pins cert no_pins = refl
  Unpinned-check_pins {pins = []} cert (other_key e n) = refl
  Unpinned-check_pins {pins = p ∷ pins} cert (other_key {key = key} e n) =
      rw e (ap ok (not_Among-contains (p ∷ pins) (pin_of key) n))

  any_name-Among :
      (cert : Bytes) (names : List x.ServerName)
      → any_name w d cert names ≡ ok tt
      → (name : x.ServerName) × Among name names × (w.valid_for_name cert name ≡ true)
  unfolding any_name
  any_name-Among cert [] h = cc
  any_name-Among cert (name ∷ names) h = elim (Bool-cases (w.valid_for_name cert name)) [
    | inl e ↦ (name, first, e)
    | inr n ↦
        let (m, a, e) =
          any_name-Among cert names
            (subst (λ b. (if b then ok tt else any_name w d cert names) ≡ ok tt) n h) in
        (m, later a, e)
  ]

  Among-any_name :
      (cert : Bytes) {name : x.ServerName} {names : List x.ServerName}
      → Among name names
      → w.valid_for_name cert name ≡ true
      → any_name w d cert names ≡ ok tt
  unfolding any_name
  Among-any_name cert first e = rw e refl
  Among-any_name cert (later {y = y} m) e = elim (Bool-cases (w.valid_for_name cert y)) [
    | inl f ↦ rw f refl
    | inr n ↦ rw n (Among-any_name cert m e)
  ]

  check_posh-some :
      (o : Option Posh) (cert : Bytes)
      → check_posh w d o cert ≡ true
      → (posh : Posh) × (o ≡ some posh) × (valid_cert d posh cert ≡ true)
  unfolding check_posh
  check_posh-some none cert h = cc
  check_posh-some (some posh) cert h = (posh, refl, h)

  by_chain :
      (v : XmppServerCertVerifier x) (cert : Bytes) (chain : List Bytes) (now : ℕ)
      → check_pins w d v.sha256_pinnedpubkeys cert ≡ ok false
      → verify_chain w d v cert chain now ≡ ok tt
      → Accepted v cert chain now
  unfolding verify_chain verify_is_valid_tls_server_cert
  by_chain v cert chain now p h = elim (Bool-cases (w.parses cert)) [
    | inl a ↦ elim (Bool-cases (w.verify_for_usage cert chain now)) [
      | inl u ↦
          let (name, m, e) = any_name-Among cert v.names (through a u h) in
          by_name name (check_pins-Unpinned v.sha256_pinnedpubkeys cert p) a u m e
      | inr u ↦ cc
    ]
    | inr a ↦ cc
  ]
    where
      through :
          w.parses cert ≡ true
          → w.verify_for_usage cert chain now ≡ true
          → verify_chain w d v cert chain now ≡ ok tt
          → any_name w d cert v.names ≡ ok tt
      through a u h = cc

  verify_cert-Accepted :
      (v : XmppServerCertVerifier x) (cert : Bytes) (chain : List Bytes) (now : ℕ)
      → verify_cert w d v cert chain now ≡ ok tt
      → Accepted v cert chain now
  unfolding verify_cert verify_unpinned
  verify_cert-Accepted v cert chain now h =
      let (pinned, h₁, e) =
        ok-of_>>= (verify_unpinned w d v cert chain now)
          (check_pins w d v.sha256_pinnedpubkeys cert) (sym h) in
      elim (Bool-cases pinned) [
        | inl t ↦ by_pin (check_pins-Pinned v.sha256_pinnedpubkeys cert (e ∙ ap ok t))
        | inr f ↦
            let h₂ =
              subst
                (λ b. ok tt ≡ (
                  if b
                  then ok tt
                  else if check_posh w d v.posh cert
                  then ok tt
                  else verify_chain w d v cert chain now))
                f h₁ in
            elim (Bool-cases (check_posh w d v.posh cert)) [
              | inl g ↦
                  let (posh, is_posh, l) = check_posh-some v.posh cert g in
                  by_posh posh (check_pins-Unpinned v.sha256_pinnedpubkeys cert (e ∙ ap ok f))
                    is_posh ((valid_cert-Listed d posh cert).0 l)
              | inr g ↦ by_chain v cert chain now (e ∙ ap ok f) (
                  sym (
                    subst (λ b. ok tt ≡ (if b then ok tt else verify_chain w d v cert chain now)) g
                      h₂))
            ]
      ]

  Accepted-verify_cert :
      (v : XmppServerCertVerifier x) (cert : Bytes) (chain : List Bytes) (now : ℕ)
      → Accepted v cert chain now
      → verify_cert w d v cert chain now ≡ ok tt
  unfolding verify_cert verify_unpinned verify_chain verify_is_valid_tls_server_cert check_posh
  Accepted-verify_cert v cert chain now (by_pin p) =
      rw (Pinned-check_pins v.sha256_pinnedpubkeys cert p) refl
  Accepted-verify_cert v cert chain now (by_posh posh p e l) =
      rw (Unpinned-check_pins cert p, e, (valid_cert-Listed d posh cert).1 l) refl
  Accepted-verify_cert v cert chain now (by_name name p a u m e) =
      elim (Bool-cases (check_posh w d v.posh cert)) [
        | inl t ↦ rw (Unpinned-check_pins cert p, t) refl
        | inr f ↦ rw (Unpinned-check_pins cert p, f, a, u) (Among-any_name cert m e)
      ]

  -- A certificate is accepted exactly for one of three reasons: its public key has one of the pins; a
  -- hash of it is among the fingerprints collected; or its chain is valid for a server now, and it is
  -- valid for one of the names. Where pins are given, the other two ask for a key that can be read.
  pub verify_cert_iff :
      (v : XmppServerCertVerifier x) (cert : Bytes) (chain : List Bytes) (now : ℕ)
      → (verify_cert w d v cert chain now ≡ ok tt) ↔ Accepted v cert chain now
  verify_cert_iff v cert chain now =
      (verify_cert-Accepted v cert chain now, Accepted-verify_cert v cert chain now)
