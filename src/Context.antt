-- ===== src/Context.antt =====
-- src/context.rs: what the log says of a connection. Whether the log takes lines of the level `info`
-- does not change while the program runs; the lines themselves are left out.
pub mod Mirrors
use xmpp_proxy.Prelude.{
  Bool, true, false, if◌then◌else◌, Bytes, codes, List, [], ◌∷◌, ◌++◌, Option, none, some, Outcome,
  ok, err, panic,
}
use xmpp_proxy.Websocket.Text.{replace}
use xmpp_proxy.Incoming.{quoted}

-- `client_addr` as it is printed
pub record Context : Type 0 where
  pub conn_id : Bytes
  pub log_from : Bytes
  pub log_to : Bytes
  pub proto : Bytes
  pub is_c2s : Option Bool
  pub to : Option Bytes
  pub to_addr : Option Bytes
  pub from : Option Bytes
  pub client_addr : Bytes

abbrev pub c2s : Bool → Bytes
c2s true = codes "c2s"
c2s false = codes "s2s"

abbrev or_unk : Option Bytes → Bytes
or_unk none = codes "unk"
or_unk (some b) = b

abbrev c2s_or_unk : Option Bool → Bytes
c2s_or_unk none = codes "unk"
c2s_or_unk (some b) = c2s b

abbrev pub from_arrow : Bytes
from_arrow = codes " -> "

abbrev pub to_arrow : Bytes
to_arrow = codes " <- "

-- the line of `new`
abbrev pub new_line : Bytes → Bytes → Bytes → Bytes → Bytes
new_line conn_id client_addr arrow proto =
    (conn_id ++ (codes ": (" ++ client_addr))
    ++ (arrow ++ (codes "(" ++ (proto ++ codes "-unk)):")))

-- the line of `re_calc`
abbrev pub line : Context → Bytes
line c =
    c.conn_id
    ++ (codes ": ("
        ++ (c.client_addr
            ++ (codes " ("
                ++ (or_unk c.from
                    ++ (codes ") -> ("
                        ++ (c.proto
                            ++ (codes "-"
                                ++ (c2s_or_unk c.is_c2s
                                    ++ (codes ") -> "
                                        ++ (or_unk c.to_addr
                                            ++ (codes " ("
                                                ++ (or_unk c.to ++ codes ")):"))))))))))))

unfoldable pub re_calc : Context → Context
re_calc c = record c { log_from = line c; log_to = replace (line c) from_arrow to_arrow }

abbrev found : (Bytes → Bytes) → Outcome Bytes → Option Bytes
found to_str (ok b) = some (to_str b)
found to_str (err e) = none
found to_str panic = none

-- `conn_id` is the random text of `new`, and `to_str` is `String::from_utf8_lossy`.
module _ (info : Bool) (to_str : Bytes → Bytes) where
  unfoldable pub new : Bytes → Bytes → Bytes → Context
  new conn_id proto client_addr = record {
    conn_id = if info then conn_id else [];
    log_from = if info then new_line conn_id client_addr from_arrow proto else [];
    log_to = if info then new_line conn_id client_addr to_arrow proto else [];
    proto = proto;
    is_c2s = none;
    to = none;
    to_addr = none;
    from = none;
    client_addr = client_addr;
  }

  unfoldable pub set_proto : Bytes → Context → Context
  set_proto proto c = if info then re_calc (record c { proto = proto; to_addr = none }) else c

  unfoldable pub set_c2s_stream_open : Bool → Bytes → Context → Context
  set_c2s_stream_open is_c2s stream_open c =
      if info
      then re_calc (record c {
        is_c2s = some is_c2s;
        from = found to_str (quoted (codes "from") stream_open);
        to = found to_str (quoted (codes "to") stream_open);
      })
      else c

  unfoldable pub set_to_addr : Bytes → Context → Context
  set_to_addr to_addr c = if info then re_calc (record c { to_addr = some to_addr }) else c

  -- the calls that a connection makes on its way
  pub data Call : Type 0 where
    with_proto : Bytes → Call
    with_stream_open : Bool → Bytes → Call
    with_to_addr : Bytes → Call

  abbrev pub called : Call → Context → Context
  called (with_proto proto) c = set_proto proto c
  called (with_stream_open is_c2s stream_open) c = set_c2s_stream_open is_c2s stream_open c
  called (with_to_addr to_addr) c = set_to_addr to_addr c

  abbrev pub after_calls : List Call → Context → Context
  after_calls [] c = c
  after_calls (call ∷ calls) c = after_calls calls (called call c)
