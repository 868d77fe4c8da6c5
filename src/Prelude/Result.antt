-- ===== src/Prelude/Result.antt =====
-- What a call of the program comes to: a value, an error, or a panic of the task.
use mathlib.Core.Bool.{Bool, true, false}
use mathlib.Core.Path.{◌≡◌, refl, ap}
use xmpp_proxy.Prelude.Tests.{if◌then◌else◌}

-- The messages of `bail!` and `anyhow!`, and the errors of the libraries.
pub data Error : Type 0 where
  invalid_stanza illegal_stanza stanza_too_big not_enough_bytes : Error
  not_found invalid_utf8 invalid_name io_error tls_error : Error
  bad_preamble ended_before_open ended_before_proceed bad_pre_tls : Error
  write_pair_mismatch websocket_close websocket_invalid websocket_ended : Error
  too_slow elapsed_wtf timed_out posh_expired posh_redirect http_status bad_json host_meta_s2s :
      Error
  no_client_cert invalid_cert invalid_key all_attempts_failed no_ip_reached target_undefined : Error
  pid_mismatch missing_variable bad_variable overlarge_fd no_endpoint died : Error

pub data Outcome {ℓ} (A : Type ℓ) : Type ℓ where
  ok : A → Outcome A
  err : Error → Outcome A
  panic : Outcome A

-- what follows `?`: nothing after an error or a panic
infixl 5 ◌>>=◌
abbrev pub ◌>>=◌ {ℓ κ} : {A : Type ℓ} {B : Type κ} → Outcome A → (A → Outcome B) → Outcome B
panic >>= then_do = panic
err message >>= then_do = err message
ok value >>= then_do = then_do value

-- A chain that ends well went well at its first call too.
pub ok-of_>>= {ℓ κ} :
    {A : Type ℓ} {B : Type κ} {b : B} (then_do : A → Outcome B) (first_call : Outcome A)
    → ok b ≡ (first_call >>= then_do)
    → (a : A) × (ok b ≡ then_do a) × (first_call ≡ ok a)
ok-of_>>= then_do panic h = cc
ok-of_>>= then_do (err message) h = cc
ok-of_>>= then_do (ok value) h = (value, h, refl)

abbrev pub ok_or {ℓ} : {A : Type ℓ} → A → Outcome A → A
ok_or a (ok b) = b
ok_or a (err e) = a
ok_or a panic = a

pub ok-inj {ℓ} : {A : Type ℓ} {a b : A} → ok a ≡ ok b → a ≡ b
ok-inj {A} {a} {b} h = ap (ok_or a) h

-- A guarded call went well only if its test held.
pub ok-of_if {ℓ} :
    {A : Type ℓ} (b : Bool) (guarded : Outcome A) (e : Error) {a : A}
    → (if b then guarded else err e) ≡ ok a
    → (b ≡ true) × (guarded ≡ ok a)
ok-of_if true guarded e h = (refl, h)
ok-of_if false guarded e h = cc
