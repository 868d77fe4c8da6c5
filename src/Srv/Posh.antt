-- ===== src/Srv/Posh.antt =====
-- src/srv.rs: `Posh`, the fingerprints of RFC 7711, and how they are collected.
pub mod Valid
pub mod Collected
use xmpp_proxy.Prelude.{
  ℕ, Bool, true, false, not, ◌&&◌, ◌||◌, ltb, ◌==◌, if◌then◌else◌, Bytes, codes, bytes_eq, List, [],
  ◌∷◌, ◌++◌, Option, none, some, Outcome, ok, err, panic, ◌>>=◌, posh_expired, posh_redirect,
  http_status,
}
use xmpp_proxy.Srv.Sort.{is_gt, sort_by, dedup, contains}
use xmpp_proxy.Srv.Order.{compare_bytes}

-- a hash of the library, and its encoder of BASE64
pub record Digests : Type 0 where
  pub sha_256 : Bytes → Bytes
  pub sha_512 : Bytes → Bytes
  pub encode : Bytes → Bytes

pub record Fingerprint : Type 0 where
  pub sha_256 : Option Bytes
  pub sha_512 : Option Bytes

pub record Posh : Type 0 where
  pub sha_256_fingerprints : List Bytes
  pub sha_512_fingerprints : List Bytes
  pub expires : ℕ

pub data PoshJson : Type 0 where
  posh_fingerprints : List Fingerprint → ℕ → PoshJson
  posh_redirect_to : Bytes → ℕ → PoshJson

-- `push` if there is one
abbrev push_some : Option Bytes → List Bytes → List Bytes
push_some none hs = hs
push_some (some h) hs = h ∷ hs

unfoldable pub hashes_256 : List Fingerprint → List Bytes
hashes_256 [] = []
hashes_256 (f ∷ fs) = push_some f.sha_256 (hashes_256 fs)

unfoldable pub hashes_512 : List Fingerprint → List Bytes
hashes_512 [] = []
hashes_512 (f ∷ fs) = push_some f.sha_512 (hashes_512 fs)

-- `Posh::new`
unfoldable pub new_posh : List Fingerprint → ℕ → Outcome Posh
new_posh fingerprints expires =
    if expires == 0
    then err posh_expired
    else ok (record {
      sha_256_fingerprints = hashes_256 fingerprints;
      sha_512_fingerprints = hashes_512 fingerprints;
      expires = expires;
    })

unfoldable pub least : ℕ → ℕ → ℕ
least a b = if ltb a b then a else b

unfoldable pub combine_uniq : List Bytes → List Bytes → List Bytes
combine_uniq target more = dedup bytes_eq (sort_by compare_bytes (target ++ more))

-- `Posh::append`
unfoldable pub append_posh : Posh → Posh → Posh
append_posh p q = record {
  sha_256_fingerprints = combine_uniq p.sha_256_fingerprints q.sha_256_fingerprints;
  sha_512_fingerprints = combine_uniq p.sha_512_fingerprints q.sha_512_fingerprints;
  expires = least p.expires q.expires;
}

abbrev is_empty {ℓ} : {A : Type ℓ} → List A → Bool
is_empty [] = true
is_empty (_ ∷ _) = false

module _ (d : Digests) where
  -- `digest`
  abbrev pub digest : (Bytes → Bytes) → Bytes → Bytes
  digest algorithm buf = d.encode (algorithm buf)

  unfoldable pub valid_cert : Posh → Bytes → Bool
  valid_cert p cert =
      (not (is_empty p.sha_256_fingerprints)
        && contains bytes_eq p.sha_256_fingerprints (digest d.sha_256 cert))
      || (not (is_empty p.sha_512_fingerprints)
          && contains bytes_eq p.sha_512_fingerprints (digest d.sha_512 cert))

-- an answer over HTTPS: whether its status is a success, and its body as the library reads it
pub record Response {ℓ} (A : Type ℓ) : Type ℓ where
  pub is_success : Bool
  pub body : Outcome A

-- behind a redirect, which may not lead to another one
abbrev redirected : ℕ → PoshJson → Outcome Posh
redirected expires (posh_redirect_to url _) = err posh_redirect
redirected expires (posh_fingerprints fingerprints expires2) =
    new_posh fingerprints (least expires expires2)

abbrev pub posh_url : Bytes → Bytes → Bytes
posh_url domain service_name =
    codes "https://" ++ (domain ++ (codes "/.well-known/posh/" ++ (service_name ++ codes ".json")))

module _ (https_get : Bytes → Outcome (Response PoshJson)) where
  abbrev follow : PoshJson → Outcome Posh
  follow (posh_fingerprints fingerprints expires) = new_posh fingerprints expires
  follow (posh_redirect_to url expires) =
      https_get url >>= λ resp. resp.body >>= λ json. redirected expires json

  unfoldable pub collect_posh_service : Bytes → Bytes → Outcome Posh
  collect_posh_service domain service_name = https_get (posh_url domain service_name) >>= λ resp.
      if resp.is_success then (resp.body >>= follow) else err http_status

  -- both services where both answer, else the one that does
  abbrev either_posh : Outcome Posh → Outcome Posh → Outcome Posh
  either_posh (ok client) (ok server) = ok (append_posh client server)
  either_posh (err e) (ok server) = ok server
  either_posh panic (ok server) = panic
  either_posh client (err e) = client
  either_posh (ok client) panic = panic
  either_posh (err e) panic = panic
  either_posh panic panic = panic

  unfoldable pub collect_posh : Bytes → Outcome Posh
  collect_posh domain =
      either_posh (collect_posh_service domain (codes "xmpp-client"))
        (collect_posh_service domain (codes "xmpp-server"))
