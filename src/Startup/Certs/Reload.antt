-- ===== src/Startup/Certs/Reload.antt =====
-- The key that the listeners show after any number of signals.
use xmpp_proxy.Prelude.{
  ◌≡◌, ◌⊎◌, inl, inr, refl, sym, ap, ◌∙◌, subst, Bytes, List, [], ◌∷◌, ◌++◌, Outcome, ok, err,
  panic, ◌>>=◌,
}
use xmpp_proxy.Startup.Addresses.{Host}
use xmpp_proxy.Startup.Certs.{
  Files, KeyProvider, CertifiedKey, CertsKey, parse, certs_key, replaced, on_hangup, hangups,
  spawn_refresh_task,
}

module _ (h : Host) (k : KeyProvider) (cfg_path : Bytes) where
  -- what the files hold at a signal
  abbrev pub read_key : Files → Outcome (CertifiedKey k)
  read_key files = parse h k files cfg_path >>= certs_key h k files

  -- no configuration with a certificate and a key that can be used
  abbrev pub HoldsNone : Outcome (CertifiedKey k) → Type 0
  HoldsNone (ok c) = ⊥
  HoldsNone (err e) = Unit
  HoldsNone panic = Unit

  abbrev pub EachHoldsNone : List Files → Type 0
  EachHoldsNone [] = Unit
  EachHoldsNone (files ∷ signals) = HoldsNone (read_key files) × EachHoldsNone signals

  -- The key was read at one of the signals, and at none behind it could one be read.
  pub record Reloaded (signals : List Files) (new : CertifiedKey k) : Type 0 where
    pub before : List Files
    pub files : Files
    pub after : List Files
    pub is_split : signals ≡ before ++ files ∷ after
    pub is_read : read_key files ≡ ok new
    pub then_none : EachHoldsNone after

  abbrev pub IsLatest : CertifiedKey k → List Files → CertifiedKey k → Type 0
  IsLatest old signals new = (EachHoldsNone signals × (new ≡ old)) ⊎ Reloaded signals new

  Reloaded-behind :
      (files : Files) {signals : List Files} {new : CertifiedKey k}
      → Reloaded signals new
      → Reloaded (files ∷ signals) new
  Reloaded-behind files r = record {
    before = files ∷ r.before;
    files = r.files;
    after = r.after;
    is_split = ap (◌∷◌ files) r.is_split;
    is_read = r.is_read;
    then_none = r.then_none;
  }

  -- behind a signal at which the key was read
  IsLatest-read :
      (files : Files) {read new : CertifiedKey k} {signals : List Files}
      → read_key files ≡ ok read
      → IsLatest read signals new
      → Reloaded (files ∷ signals) new
  IsLatest-read files {signals = signals} e (inl (none_holds, same)) = record {
    before = [];
    files = files;
    after = signals;
    is_split = refl;
    is_read = e ∙ ap ok (sym same);
    then_none = none_holds;
  }
  IsLatest-read files e (inr r) = Reloaded-behind files r

  -- behind a signal at which none could be read
  IsLatest-kept :
      (files : Files) {old new : CertifiedKey k} {signals : List Files}
      → HoldsNone (read_key files)
      → IsLatest old signals new
      → IsLatest old (files ∷ signals) new
  IsLatest-kept files n (inl (none_holds, same)) = inl ((n, none_holds), same)
  IsLatest-kept files n (inr r) = inr (Reloaded-behind files r)

  abbrev Keeps : CertifiedKey k → List Files → CertsKey k → Type 0
  Keeps old signals after = (new : CertifiedKey k) × (after ≡ ok new) × IsLatest old signals new

  at_hangup :
      (old : CertifiedKey k) (files : Files) (signals : List Files) (r : Outcome (CertifiedKey k))
      → read_key files ≡ r
      → ((c : CertifiedKey k) → Keeps c signals (hangups h k cfg_path (ok c) signals))
      → Keeps old (files ∷ signals) (hangups h k cfg_path (replaced h k (ok old) r) signals)
  at_hangup old files signals (ok c) e more =
      let (new, q, latest) = more c in (new, q, inr (IsLatest-read files e latest))
  at_hangup old files signals (err x) e more =
      let (new, q, latest) = more old in
      (new, q, IsLatest-kept files (subst HoldsNone (sym e) tt) latest)
  at_hangup old files signals panic e more =
      let (new, q, latest) = more old in
      (new, q, IsLatest-kept files (subst HoldsNone (sym e) tt) latest)

  hangups-Keeps :
      (old : CertifiedKey k) (signals : List Files)
      → Keeps old signals (hangups h k cfg_path (ok old) signals)
  unfolding on_hangup
  hangups-Keeps old [] = (old, refl, inl (tt, refl))
  hangups-Keeps old (files ∷ signals) =
      at_hangup old files signals (read_key files) refl (λ c. hangups-Keeps c signals)

  -- Whatever the files hold at the signals, there is a key behind them: the one read at the last
  -- signal at which one could be read, and the old one if there was no such signal.
  pub spawn_refresh_task-IsLatest :
      (old : CertifiedKey k) (signals : List Files)
      → (new : CertifiedKey k) × (spawn_refresh_task h k cfg_path (ok old) signals ≡ ok new)
        × IsLatest old signals new
  unfolding spawn_refresh_task
  spawn_refresh_task-IsLatest old signals = hangups-Keeps old signals
