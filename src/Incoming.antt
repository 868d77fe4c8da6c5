-- ===== src/Incoming.antt =====
-- src/common/incoming.rs: `shuffle_rd_wr_filter` up to the relay, and `open_incoming`.
pub mod Admits
pub mod Forwards
use xmpp_proxy.Prelude.{
  ℕ, zero, suc, ◌+◌, Bool, true, false, not, leb, if◌then◌else◌, Bytes, codes, length, take, drop,
  List, [], ◌∷◌, ◌++◌, Option, none, some, Outcome, ok, err, panic, ◌>>=◌, no_client_cert,
  target_undefined, io_error,
}
use xmpp_proxy.Slice.{extract_between, first_index_of}
use xmpp_proxy.Filter.{StanzaFilter}
use xmpp_proxy.Filter.Reader.{Ending}
use xmpp_proxy.Wire.{Sink, write_all, write_flush}
use xmpp_proxy.Websocket.Text.{from_utf8}
use xmpp_proxy.Preamble.{Opening, stream_preamble}
use xmpp_proxy.Srv.Types.{External}
use xmpp_proxy.Srv.Posh.{Digests}
use xmpp_proxy.Srv.Lookup.{Network}
use xmpp_proxy.Srv.Connections.{Connections, get_xmpp_connections}
use xmpp_proxy.Verify.{Webpki, verify_cert}

-- `or_else`
abbrev pub or_else {ℓ} : {A : Type ℓ} → Outcome A → Outcome A → Outcome A
or_else (ok a) o = ok a
or_else (err e) o = o
or_else panic o = panic

-- the value of an attribute of the header, in either quote
unfoldable pub quoted : Bytes → Bytes → Outcome Bytes
quoted name header =
    or_else (extract_between header (codes " " ++ (name ++ codes "='")) (codes "'"))
      (extract_between header (codes " " ++ (name ++ codes "=\"")) (codes "\""))

module _ {x : External} (net : Network) (w : Webpki x) (d : Digests) (now : ℕ) where
  -- `peer_certificates`, of which the first is the peer's own; of an empty list the index panics
  abbrev pub verify_peer : Option (List Bytes) → Connections x net → Outcome {0} Unit
  verify_peer none c = err no_client_cert
  verify_peer (some []) c = panic
  verify_peer (some (cert ∷ chain)) c = verify_cert w d c.1 cert chain now

  -- what a server must show before its stream is passed on
  unfoldable pub check_server : Bytes → Option (List Bytes) → Outcome {0} Unit
  check_server stream_open certs = quoted (codes "from") stream_open >>= from_utf8 >>= λ domain.
      get_xmpp_connections x net domain false >>= verify_peer certs

  abbrev pub check_peer : Opening → Option (List Bytes) → Outcome {0} Unit
  check_peer (stream_open, true) certs = ok tt
  check_peer (stream_open, false) certs = check_server stream_open certs

  -- the stream of a peer that is passed on: its opening, and the filter and the bytes behind it
  pub record Admitted : Type 0 where
    pub opening : Opening
    pub filter : StanzaFilter
    pub rest : Bytes

  unfoldable pub admit : StanzaFilter → Bytes → Ending → Option (List Bytes) → Outcome Admitted
  admit f src ending certs =
      let (o, g, rest) = stream_preamble f src ending in
      o >>= λ opening.
      check_peer opening certs >>= λ _. ok (record { opening = opening; filter = g; rest = rest })

-- the addresses of a connection, as they are printed
pub record Addresses : Type 0 where
  pub is_ipv4 : Bool
  pub client_ip : Bytes
  pub local_ip : Bytes
  pub client_port : Bytes
  pub local_port : Bytes

pub record IncomingConfig : Type 0 where
  pub s2s_target : Option (Outcome Sink)
  pub c2s_target : Option (Outcome Sink)
  pub proxy : Bool

abbrev pub proxy_header : Addresses → Bytes
proxy_header a =
    codes "PROXY TCP"
    ++ ((if a.is_ipv4 then codes "4" else codes "6")
        ++ (codes " "
            ++ (a.client_ip
                ++ (codes " "
                    ++ (a.local_ip
                        ++ (codes " "
                            ++ (a.client_port
                                ++ (codes " " ++ (a.local_port ++ codes "\r\n")))))))))

-- `write!` into the filter's buffer, which fails if it is too small
abbrev print_into : Bytes → Bytes → Outcome Bytes
print_into line buf =
    if leb (length line) (length buf) then ok (line ++ drop (length line) buf) else err io_error

-- the line for the target, read back from the buffer up to its end
unfoldable pub write_proxy : Addresses → Bytes → Sink → Outcome Sink
write_proxy a buf s = print_into (proxy_header a) buf >>= λ printed.
    first_index_of printed (codes "\n") >>= λ end. write_all (take (end + 1) printed) s

abbrev pub target_of : Option (Outcome Sink) → Outcome Sink
target_of none = err target_undefined
target_of (some connected) = connected

unfoldable pub open_incoming :
    IncomingConfig → Addresses → Bytes → Bool → StanzaFilter → Outcome Sink
open_incoming config a stream_open is_c2s f =
    target_of (if is_c2s then config.c2s_target else config.s2s_target) >>= λ out_wr.
    (if config.proxy then write_proxy a f.buf out_wr else ok out_wr) >>= write_flush stream_open
