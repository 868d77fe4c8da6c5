-- ===== src/Srv/Posh/Collected.antt =====
-- Who vouches for a certificate that the collected fingerprints accept.
use xmpp_proxy.Prelude.{
  ℕ, ◌≤◌, ◌<◌, ◌≡◌, ◌⊎◌, inl, inr, refl, sym, ap, ◌∙◌, subst, true, ◌==◌, Bool-cases, if◌then◌else◌,
  Bytes, codes, List, [], ◌∷◌, Option, none, some, Outcome, ok, err, panic, ◌>>=◌, ok-of_>>=,
  ok-inj, ok-of_if, http_status, posh_expired, arith,
}
use xmpp_proxy.Srv.Sort.{Among, first, later}
use xmpp_proxy.Srv.Posh.{
  Digests, Fingerprint, Posh, PoshJson, posh_fingerprints, posh_redirect_to, push_some, hashes_256,
  hashes_512, new_posh, least, digest, valid_cert, Response, redirected, posh_url, follow,
  collect_posh_service, either_posh, collect_posh,
}
use xmpp_proxy.Srv.Posh.Valid.{Listed, valid_cert-Listed, append_posh_iff}

module _ (hash_of : Fingerprint → Option Bytes) where
  -- one of the fingerprints has the hash
  pub record Has (fs : List Fingerprint) (h : Bytes) : Type 0 where
    pub fingerprint : Fingerprint
    pub listed : Among fingerprint fs
    pub hash : hash_of fingerprint ≡ some h

  push_some-Among :
      (f : Fingerprint) {fs : List Fingerprint} (hs : List Bytes) (o : Option Bytes) {h : Bytes}
      → hash_of f ≡ o
      → (Among h hs → Has fs h)
      → Among h (push_some o hs)
      → Has (f ∷ fs) h
  push_some-Among f hs none e has m =
      let l = has m in
      record { fingerprint = l.fingerprint; listed = later l.listed; hash = l.hash }
  push_some-Among f hs (some x) e has first = record { fingerprint = f; listed = first; hash = e }
  push_some-Among f hs (some x) e has (later m) =
      let l = has m in
      record { fingerprint = l.fingerprint; listed = later l.listed; hash = l.hash }

hashes_256-Has :
    (fs : List Fingerprint) {h : Bytes} → Among h (hashes_256 fs) → Has (λ f. f.sha_256) fs h
unfolding hashes_256
hashes_256-Has [] m = elim m [ ]
hashes_256-Has (f ∷ fs) m =
    push_some-Among (λ g. g.sha_256) f (hashes_256 fs) f.sha_256 refl (hashes_256-Has fs) m

hashes_512-Has :
    (fs : List Fingerprint) {h : Bytes} → Among h (hashes_512 fs) → Has (λ f. f.sha_512) fs h
unfolding hashes_512
hashes_512-Has [] m = elim m [ ]
hashes_512-Has (f ∷ fs) m =
    push_some-Among (λ g. g.sha_512) f (hashes_512 fs) f.sha_512 refl (hashes_512-Has fs) m

module _ (https_get : Bytes → Outcome (Response PoshJson)) where
  -- What a service of the domain answers with: fingerprints and their expiry. One redirect is
  -- followed, and then the expiry is the lesser of the two.
  pub data IsAnswer (domain service : Bytes) : List Fingerprint → ℕ → Type 0 where
    direct :
        {resp : Response PoshJson} {fs : List Fingerprint} {e : ℕ}
        → https_get (posh_url domain service) ≡ ok resp
        → resp.is_success ≡ true
        → resp.body ≡ ok (posh_fingerprints fs e)
        → IsAnswer domain service fs e
    behind_redirect :
        {resp next : Response PoshJson} {url : Bytes} {fs : List Fingerprint} {e e2 : ℕ}
        → https_get (posh_url domain service) ≡ ok resp
        → resp.is_success ≡ true
        → resp.body ≡ ok (posh_redirect_to url e)
        → https_get url ≡ ok next
        → next.body ≡ ok (posh_fingerprints fs e2)
        → IsAnswer domain service fs (least e e2)

  -- a `Posh` made of an answer
  pub record IsMade (domain service : Bytes) (p : Posh) : Type 0 where
    pub fingerprints : List Fingerprint
    pub expires : ℕ
    pub answer : IsAnswer domain service fingerprints expires
    pub made : new_posh fingerprints expires ≡ ok p

  redirected-IsMade :
      (domain service url : Bytes) (e : ℕ) (resp next : Response PoshJson) (json : PoshJson)
      (p : Posh)
      → https_get (posh_url domain service) ≡ ok resp
      → resp.is_success ≡ true
      → resp.body ≡ ok (posh_redirect_to url e)
      → https_get url ≡ ok next
      → next.body ≡ ok json
      → ok p ≡ redirected e json
      → IsMade domain service p
  redirected-IsMade domain service url e resp next (posh_redirect_to _ _) p g s b n c h = cc
  redirected-IsMade domain service url e resp next (posh_fingerprints fs e2) p g s b n c h =
      record {
        fingerprints = fs;
        expires = least e e2;
        answer = behind_redirect g s b n c;
        made = sym h;
      }

  follow-IsMade :
      (domain service : Bytes) (resp : Response PoshJson) (json : PoshJson) (p : Posh)
      → https_get (posh_url domain service) ≡ ok resp
      → resp.is_success ≡ true
      → resp.body ≡ ok json
      → ok p ≡ follow https_get json
      → IsMade domain service p
  follow-IsMade domain service resp (posh_fingerprints fs e) p g s b h = record {
    fingerprints = fs;
    expires = e;
    answer = direct g s b;
    made = sym h;
  }
  follow-IsMade domain service resp (posh_redirect_to url e) p g s b h =
      let (next, h₁, n) = ok-of_>>= _ (https_get url) h in
      let (json, h₂, c) = ok-of_>>= (redirected e) next.body h₁ in
      redirected-IsMade domain service url e resp next json p g s b n c h₂

  collect_posh_service-IsMade :
      (domain service : Bytes) (p : Posh)
      → collect_posh_service https_get domain service ≡ ok p
      → IsMade domain service p
  unfolding collect_posh_service
  collect_posh_service-IsMade domain service p h =
      let (resp, h₁, g) = ok-of_>>= _ (https_get (posh_url domain service)) (sym h) in
      let (s, t) = ok-of_if resp.is_success (resp.body >>= follow https_get) http_status (sym h₁) in
      let (json, h₂, b) = ok-of_>>= (follow https_get) resp.body (sym t) in
      follow-IsMade domain service resp json p g s b h₂

  -- One of the two services lists a hash of the certificate in its answer, which is still of use.
  pub record Vouches (d : Digests) (domain cert : Bytes) (until : ℕ) : Type 0 where
    pub service : Bytes
    pub known : (service ≡ codes "xmpp-client") ⊎ (service ≡ codes "xmpp-server")
    pub fingerprints : List Fingerprint
    pub expires : ℕ
    pub answer : IsAnswer domain service fingerprints expires
    pub lists :
        Has (λ f. f.sha_256) fingerprints (digest d d.sha_256 cert)
        ⊎ Has (λ f. f.sha_512) fingerprints (digest d d.sha_512 cert)
    pub in_time : 0 < expires
    pub until_then : until ≤ expires

  abbrev posh_of : List Fingerprint → ℕ → Posh
  posh_of fs e = record {
    sha_256_fingerprints = hashes_256 fs;
    sha_512_fingerprints = hashes_512 fs;
    expires = e;
  }

  never : {p : Posh} → ¬ (err posh_expired ≡ ok p)
  never h = cc

  made_of :
      (fs : List Fingerprint) (e : ℕ) (p : Posh)
      → new_posh fs e ≡ ok p
      → (0 < e) × (p ≡ posh_of fs e)
  unfolding new_posh
  made_of fs e p h = elim (Bool-cases (e == 0)) [
    | inl z ↦
        absurd (never (subst (λ b. (if b then err posh_expired else ok (posh_of fs e)) ≡ ok p) z h))
    | inr n ↦ (
      ground arith,
      sym (ok-inj (subst (λ b. (if b then err posh_expired else ok (posh_of fs e)) ≡ ok p) n h)),
    )
  ]

  module _ (d : Digests) (domain cert : Bytes) where
    made-Vouches :
        (service : Bytes) (p : Posh) (until : ℕ)
        → (service ≡ codes "xmpp-client") ⊎ (service ≡ codes "xmpp-server")
        → collect_posh_service https_get domain service ≡ ok p
        → valid_cert d p cert ≡ true
        → until ≤ p.expires
        → Vouches d domain cert until
    made-Vouches service p until k h v l =
        let m = collect_posh_service-IsMade domain service p h in
        let (positive, same) = made_of m.fingerprints m.expires p m.made in
        record {
          service = service;
          known = k;
          fingerprints = m.fingerprints;
          expires = m.expires;
          answer = m.answer;
          lists = elim (subst (λ q. Listed d q cert) same ((valid_cert-Listed d p cert).0 v)) [
            | inl x ↦ inl (hashes_256-Has m.fingerprints x)
            | inr x ↦ inr (hashes_512-Has m.fingerprints x)
          ];
          in_time = positive;
          until_then = subst (λ n. until ≤ n) (ap (λ q. q.expires) same) l;
        }

    either_posh-Vouches :
        (client server : Outcome Posh) (p : Posh)
        → collect_posh_service https_get domain (codes "xmpp-client") ≡ client
        → collect_posh_service https_get domain (codes "xmpp-server") ≡ server
        → either_posh https_get client server ≡ ok p
        → valid_cert d p cert ≡ true
        → Vouches d domain cert p.expires
    either_posh-Vouches (ok a) (ok b) p q r h v =
        let (accepts, left, right) = append_posh_iff d a b cert in
        let same = ok-inj h in
        elim (accepts.0 (subst (λ c. valid_cert d c cert ≡ true) (sym same) v)) [
          | inl x ↦
              made-Vouches (codes "xmpp-client") a p.expires (inl refl) q x
                (subst (λ c. c.expires ≤ a.expires) same left)
          | inr x ↦
              made-Vouches (codes "xmpp-server") b p.expires (inr refl) r x
                (subst (λ c. c.expires ≤ b.expires) same right)
        ]
    either_posh-Vouches (ok a) (err e) p q r h v =
        made-Vouches (codes "xmpp-client") p p.expires (inl refl) (q ∙ h) v (omega arith)
    either_posh-Vouches (err e) (ok b) p q r h v =
        made-Vouches (codes "xmpp-server") p p.expires (inr refl) (r ∙ h) v (omega arith)
    either_posh-Vouches (ok a) panic p q r h v = cc
    either_posh-Vouches (err e) (err _) p q r h v = cc
    either_posh-Vouches (err e) panic p q r h v = cc
    either_posh-Vouches panic (ok b) p q r h v = cc
    either_posh-Vouches panic (err e) p q r h v = cc
    either_posh-Vouches panic panic p q r h v = cc

    -- The collected fingerprints accept a certificate only if one of the two services of the domain
    -- vouches for it: the answer over HTTPS, or the one that it redirects to once, lists a hash of the
    -- certificate, has not expired at once, and is not outlived by the fingerprints.
    pub collect_posh-Vouches :
        (p : Posh)
        → collect_posh https_get domain ≡ ok p
        → valid_cert d p cert ≡ true
        → Vouches d domain cert p.expires
    unfolding collect_posh
    collect_posh-Vouches p h v =
        either_posh-Vouches (collect_posh_service https_get domain (codes "xmpp-client"))
          (collect_posh_service https_get domain (codes "xmpp-server")) p refl refl h v
