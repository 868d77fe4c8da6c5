-- ===== src/Startup/Config.antt =====
-- src/main.rs: `Config`. The text of the file is parsed by the library `toml`; `Table` is the fields
-- that it found there, each of its own type.
use xmpp_proxy.Prelude.{
  ℕ, Bool, false, Bytes, List, [], ◌∷◌, Option, none, some, Outcome, ok, ◌>>=◌,
}
use xmpp_proxy.Startup.Addresses.{Host, SocketAddrPath, deserialize}

pub record Table : Type 0 where
  pub tls_key : Option Bytes
  pub tls_cert : Option Bytes
  pub incoming_listen : Option (List Bytes)
  pub quic_listen : Option (List Bytes)
  pub outgoing_listen : Option (List Bytes)
  pub max_stanza_size_bytes : Option ℕ
  pub s2s_target : Option Bytes
  pub c2s_target : Option Bytes
  pub proxy : Option Bool

-- `log_level` and `log_style` are left out.
pub record Config (h : Host) : Type 0 where
  pub tls_key : Bytes
  pub tls_cert : Bytes
  pub incoming_listen : List (SocketAddrPath h)
  pub quic_listen : List (SocketAddrPath h)
  pub outgoing_listen : List (SocketAddrPath h)
  pub max_stanza_size_bytes : ℕ
  pub s2s_target : Option (SocketAddrPath h)
  pub c2s_target : Option (SocketAddrPath h)
  pub proxy : Bool

abbrev pub default_max_stanza_size_bytes : ℕ
default_max_stanza_size_bytes = 262144

abbrev pub unwrap_or {ℓ} : {A : Type ℓ} → Option A → A → A
unwrap_or none a = a
unwrap_or (some b) a = b

-- what is passed to the listeners that wait for incoming connections
pub record IncomingConfig (h : Host) : Type 0 where
  pub max_stanza_size_bytes : ℕ
  pub s2s_target : Option (SocketAddrPath h)
  pub c2s_target : Option (SocketAddrPath h)
  pub proxy : Bool

module _ (h : Host) where
  unfoldable pub each_address : List Bytes → Outcome (List (SocketAddrPath h))
  each_address [] = ok []
  each_address (s ∷ ss) = deserialize h s >>= λ p. each_address ss >>= λ ps. ok (p ∷ ps)

  abbrev optional_address : Option Bytes → Outcome (Option (SocketAddrPath h))
  optional_address none = ok none
  optional_address (some s) = deserialize h s >>= λ p. ok (some p)

  -- the fields, with their defaults; the parts of `Config::parse` that are not the library's
  unfoldable pub from_table : Table → Outcome (Config h)
  from_table t = each_address (unwrap_or t.incoming_listen []) >>= λ incoming.
      each_address (unwrap_or t.quic_listen []) >>= λ quic.
      each_address (unwrap_or t.outgoing_listen []) >>= λ outgoing.
      optional_address t.s2s_target >>= λ s2s. optional_address t.c2s_target >>= λ c2s. ok (record {
        tls_key = unwrap_or t.tls_key [];
        tls_cert = unwrap_or t.tls_cert [];
        incoming_listen = incoming;
        quic_listen = quic;
        outgoing_listen = outgoing;
        max_stanza_size_bytes = unwrap_or t.max_stanza_size_bytes default_max_stanza_size_bytes;
        s2s_target = s2s;
        c2s_target = c2s;
        proxy = unwrap_or t.proxy false;
      })

  abbrev pub get_incoming_cfg : Config h → IncomingConfig h
  get_incoming_cfg c = record {
    max_stanza_size_bytes = c.max_stanza_size_bytes;
    s2s_target = c.s2s_target;
    c2s_target = c.c2s_target;
    proxy = c.proxy;
  }
