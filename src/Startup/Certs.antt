-- ===== src/Startup/Certs.antt =====
-- src/common/certs_key.rs, `read_certified_key` of src/common/mod.rs, and the reload on a signal of
-- src/main.rs. The parts of a PEM file and the private keys that the library can use are parameters.
pub mod Reload
use xmpp_proxy.Prelude.{
  Bool, true, false, Bytes, List, [], ◌∷◌, Option, none, some, Outcome, ok, err, panic, ◌>>=◌,
  invalid_key,
}
use xmpp_proxy.Startup.Addresses.{Host}
use xmpp_proxy.Startup.Config.{Table, Config, from_table}

-- the files of the disk at one time, as the libraries read them
pub record Files : Type 0 where
  pub read_table : Bytes → Outcome Table
  pub pem_keys : Bytes → Outcome (List (Outcome Bytes))
  pub pem_certs : Bytes → Outcome (List (Outcome Bytes))

-- `load_private_key`
pub record KeyProvider : Type 1 where
  pub SigningKey : Type 0
  pub load_private_key : Bytes → Outcome SigningKey

pub record CertifiedKey (k : KeyProvider) : Type 0 where
  pub certs : List Bytes
  pub key : k.SigningKey

-- `CertsKey`: a key that can be replaced, or why there is none
abbrev pub CertsKey : KeyProvider → Type 0
CertsKey k = Outcome (CertifiedKey k)

module _ (k : KeyProvider) where
  abbrev loaded : Outcome Bytes → Option k.SigningKey
  loaded (err e) = none
  loaded panic = none
  loaded (ok pk) = elim (k.load_private_key pk) [ ok key ↦ some key | _ ↦ none ]

  abbrev or_next {ℓ} : {A : Type ℓ} → Option A → Option A → Option A
  or_next none o = o
  or_next (some a) o = some a

  -- `flat_map(..).next()`
  unfoldable pub first_key : List (Outcome Bytes) → Option k.SigningKey
  first_key [] = none
  first_key (item ∷ items) = or_next (loaded item) (first_key items)

  unfoldable pub every_cert : List (Outcome Bytes) → Outcome (List Bytes)
  every_cert [] = ok []
  every_cert (item ∷ items) = item >>= λ c. every_cert items >>= λ cs. ok (c ∷ cs)

  abbrev valid_key : Option k.SigningKey → Outcome k.SigningKey
  valid_key none = err invalid_key
  valid_key (some key) = ok key

  unfoldable pub read_certified_key : Files → Bytes → Bytes → Outcome (CertifiedKey k)
  read_certified_key files tls_key tls_cert = files.pem_keys tls_key >>= λ items.
      valid_key (first_key items) >>= λ key. files.pem_certs tls_cert >>= λ certs.
      every_cert certs >>= λ cs. ok (record { certs = cs; key = key })

  -- `resolve`, for the server's certificate and for the client's
  abbrev pub resolve : CertsKey k → Option (CertifiedKey k)
  resolve (ok c) = some c
  resolve (err e) = none
  resolve panic = none

  abbrev pub has_certs : CertsKey k → Bool
  has_certs (ok c) = true
  has_certs (err e) = false
  has_certs panic = false

module _ (h : Host) (k : KeyProvider) where
  unfoldable pub parse : Files → Bytes → Outcome (Config h)
  parse files cfg_path = files.read_table cfg_path >>= from_table h

  abbrev pub certs_key : Files → Config h → CertsKey k
  certs_key files c = read_certified_key k files c.tls_key c.tls_cert

  -- what is written behind the lock, where there is one; none of the calls before it panics
  abbrev replaced : CertsKey k → Outcome (CertifiedKey k) → CertsKey k
  replaced c (err e) = c
  replaced c panic = c
  replaced (ok old) (ok new) = ok new
  replaced (err e) (ok new) = err e
  replaced panic (ok new) = panic

  -- a round of the refresh task: the files as they are at the signal
  unfoldable pub on_hangup : Bytes → CertsKey k → Files → CertsKey k
  on_hangup cfg_path c files = replaced c (parse files cfg_path >>= certs_key files)

  abbrev hangups : Bytes → CertsKey k → List Files → CertsKey k
  hangups cfg_path c [] = c
  hangups cfg_path c (files ∷ signals) = hangups cfg_path (on_hangup cfg_path c files) signals

  -- the key after some signals; without a key at the start there is no task that waits for them
  unfoldable pub spawn_refresh_task : Bytes → CertsKey k → List Files → CertsKey k
  spawn_refresh_task cfg_path (ok c) signals = hangups cfg_path (ok c) signals
  spawn_refresh_task cfg_path (err e) signals = err e
  spawn_refresh_task cfg_path panic signals = panic
