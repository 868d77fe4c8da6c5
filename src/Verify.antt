-- ===== src/Verify.antt =====
-- src/verify.rs: `XmppServerCertVerifier::verify_cert`. A certificate is its bytes.
pub mod Accepts
use xmpp_proxy.Prelude.{
  ℕ, ◌≡◌, ◌≢◌, ◌⊎◌, inl, inr, ◌↔◌, refl, sym, ap, ◌∙◌, subst, Bool, true, false, if◌then◌else◌,
  Bool-cases, Bytes, bytes_eq, List, [], ◌∷◌, ◌++◌, Option, none, some, Outcome, ok, err, panic,
  ◌>>=◌, ok-of_>>=, invalid_cert,
}
use xmpp_proxy.Srv.Types.{External}
use xmpp_proxy.Srv.Sort.{Among, first, later, contains}
use xmpp_proxy.Srv.Posh.{Digests, Posh, digest, valid_cert}

-- what the program takes from `webpki`: the key of a certificate, and the checks of its chain for
-- servers at a time and of a name
pub record Webpki (x : External) : Type 0 where
  pub subject_key : Bytes → Option Bytes
  pub parses : Bytes → Bool
  pub verify_for_usage : Bytes → List Bytes → ℕ → Bool
  pub valid_for_name : Bytes → x.ServerName → Bool

pub record XmppServerCertVerifier (x : External) : Type 0 where
  pub names : List x.ServerName
  pub posh : Option Posh
  pub sha256_pinnedpubkeys : List Bytes

module _ {x : External} (w : Webpki x) (d : Digests) where
  -- `verify_is_valid_tls_server_cert`
  unfoldable pub verify_is_valid_tls_server_cert : Bytes → List Bytes → ℕ → Outcome Bytes
  verify_is_valid_tls_server_cert end_entity intermediates now =
      if w.parses end_entity
      then (if w.verify_for_usage end_entity intermediates now
          then ok end_entity
          else err invalid_cert)
      else err invalid_cert

  -- the pin of a public key
  unfoldable pub is_pinned : List Bytes → Bytes → Bool
  is_pinned pins key = contains bytes_eq pins (digest d d.sha_256 ((48 ∷ 130 ∷ 1 ∷ 34 ∷ []) ++ key))

  -- the first step, which fails where pins are given and the certificate has no key
  abbrev pin_of_key : Option Bytes → List Bytes → Outcome Bool
  pin_of_key none pins = err invalid_cert
  pin_of_key (some key) pins = ok (is_pinned pins key)

  unfoldable pub check_pins : List Bytes → Bytes → Outcome Bool
  check_pins [] end_entity = ok false
  check_pins (p ∷ pins) end_entity = pin_of_key (w.subject_key end_entity) (p ∷ pins)

  unfoldable pub check_posh : Option Posh → Bytes → Bool
  check_posh none end_entity = false
  check_posh (some posh) end_entity = valid_cert d posh end_entity

  -- the loop over the names
  unfoldable pub any_name : Bytes → List x.ServerName → Outcome {0} Unit
  any_name cert [] = err invalid_cert
  any_name cert (name ∷ names) =
      let rest = any_name cert names in if w.valid_for_name cert name then ok tt else rest

  unfoldable pub verify_chain : XmppServerCertVerifier x → Bytes → List Bytes → ℕ → Outcome {0} Unit
  verify_chain v end_entity intermediates now =
      verify_is_valid_tls_server_cert end_entity intermediates now >>= λ cert. any_name cert v.names

  -- behind the pins
  unfoldable pub verify_unpinned :
      XmppServerCertVerifier x → Bytes → List Bytes → ℕ → Bool → Outcome {0} Unit
  verify_unpinned v end_entity intermediates now pinned =
      if pinned
      then ok tt
      else if check_posh v.posh end_entity
      then ok tt
      else verify_chain v end_entity intermediates now

  unfoldable pub verify_cert : XmppServerCertVerifier x → Bytes → List Bytes → ℕ → Outcome {0} Unit
  verify_cert v end_entity intermediates now =
      check_pins v.sha256_pinnedpubkeys end_entity
      >>= verify_unpinned v end_entity intermediates now
