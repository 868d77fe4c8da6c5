-- ===== src/Relay/Peers.antt =====
-- src/common/mod.rs: `shuffle_rd_wr_filter_only` between two ends of either kind, a stanza at a time.
-- A schedule says which of the two readers comes to an end of its call first. The one that
-- `tokio::select!` drops goes on from its filter at the next round, so that its call counts as one.
pub mod Sent
pub mod Exchange
use xmpp_proxy.Prelude.{ℕ, Bool, Bytes, List, [], ◌∷◌, Option, none, some, Outcome, ok, err, panic}
use xmpp_proxy.Relay.{Side, from_incoming, from_outgoing}
use xmpp_proxy.Session.{Peer, Next, next_stanza}
use xmpp_proxy.Websocket.Messages.{StanzaWrite}
use xmpp_proxy.Websocket.Messages.Writes.{write_flush_stanza}

-- what a call of a reader comes to: its stanza is written at the other end, the loop ends, or the
-- branch is left out until the other one comes to an end
pub data Passed : Type 0 where
  passed : Peer → Peer → Passed
  stopped : Outcome {0} Unit → Passed
  waits : Peer → Passed

abbrev written : Peer → Peer → Outcome StanzaWrite → Passed
written a b (ok w) = passed a (record b { writer = w })
written a b (err e) = stopped (err e)
written a b panic = stopped panic

abbrev passed_by : Bool → Outcome (Option (Bytes × ℕ)) → Peer → Peer → Passed
passed_by is_c2s (ok (some (buf, eoft))) a b =
    written a b (write_flush_stanza is_c2s buf eoft b.writer)
passed_by is_c2s (ok none) a b = stopped (ok tt)
passed_by is_c2s (err e) a b = waits a
passed_by is_c2s panic a b = stopped panic

-- a branch of `select!`, from `a` to `b`
unfoldable pub pass : Bool → Peer → Peer → Passed
pass is_c2s a b = passed_by is_c2s (next_stanza a).0 (next_stanza a).1 b

-- `failed` is the branch that is left out for now
pub record Ends : Type 0 where
  pub incoming : Peer
  pub outgoing : Peer
  pub failed : Option Side

pub data Shuffled : Type 0 where
  relaying : Ends → Shuffled
  finished : Outcome {0} Unit → Shuffled

-- where both branches are left out, `else => break`
abbrev in_turn : Option Side → Passed → Ends → Shuffled
in_turn (some from_incoming) r e = relaying e
in_turn (some from_outgoing) (passed a b) e =
    relaying (record { incoming = a; outgoing = b; failed = none })
in_turn (some from_outgoing) (waits a) e = finished (ok tt)
in_turn (some from_outgoing) (stopped r) e = finished r
in_turn none (passed a b) e = relaying (record { incoming = a; outgoing = b; failed = none })
in_turn none (waits a) e = relaying (record e { incoming = a; failed = some from_incoming })
in_turn none (stopped r) e = finished r

abbrev out_turn : Option Side → Passed → Ends → Shuffled
out_turn (some from_outgoing) r e = relaying e
out_turn (some from_incoming) (passed a b) e =
    relaying (record { incoming = b; outgoing = a; failed = none })
out_turn (some from_incoming) (waits a) e = finished (ok tt)
out_turn (some from_incoming) (stopped r) e = finished r
out_turn none (passed a b) e = relaying (record { incoming = b; outgoing = a; failed = none })
out_turn none (waits a) e = relaying (record e { outgoing = a; failed = some from_outgoing })
out_turn none (stopped r) e = finished r

unfoldable pub turn : Bool → Side → Ends → Shuffled
turn is_c2s from_incoming e = in_turn e.failed (pass is_c2s e.incoming e.outgoing) e
turn is_c2s from_outgoing e = out_turn e.failed (pass is_c2s e.outgoing e.incoming) e

abbrev behind_turn : Shuffled → (Ends → Shuffled) → Shuffled
behind_turn (relaying e) more = more e
behind_turn (finished r) more = finished r

unfoldable pub shuffle : Bool → List Side → Ends → Shuffled
shuffle is_c2s [] e = relaying e
shuffle is_c2s (side ∷ sides) e =
    behind_turn (turn is_c2s side e) (λ next. shuffle is_c2s sides next)
