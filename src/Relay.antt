-- ===== src/Relay.antt =====
-- src/common/mod.rs: `shuffle_rd_wr_filter_only` over byte streams, a byte at a time.
-- `tokio::select!` polls the two directions and drops the one that is not ready, which may have read
-- some bytes into its filter; so a step is the reading of one byte by either of them, with the
-- writing of the stanza that the byte completes, or what its stream's end comes to.
pub mod Carried
pub mod Fares
pub mod Finishes
pub mod Peers
use xmpp_proxy.Prelude.{
  ℕ, ◌≡◌, ltb, if◌then◌else◌, Bytes, length, take, [], ◌∷◌, Option, none, some, Outcome, ok, err,
  panic,
}
use xmpp_proxy.Filter.{StanzaFilter, process_next_byte_idx}
use xmpp_proxy.Filter.Reader.{Ending, eof, broken, write_byte, emit_eoft}
use xmpp_proxy.Wire.{Sink, write_flush}

-- one direction: the filter, the bytes still to come and how they end, and the writer at the other
-- end
pub record Direction : Type 0 where
  pub filter : StanzaFilter
  pub src : Bytes
  pub ending : Ending
  pub sink : Sink

-- what a direction does next: it reads a byte, or one that completes a stanza, which it writes; its
-- reader fails; or it ends the loop
pub data Move : Type 0 where
  reads relays fails : Direction → Move
  ends : Outcome {0} Unit → Move

abbrev pub by_write : Direction → Outcome Sink → Move
by_write d (ok t) = relays (record d { sink = t })
by_write d (err e) = ends (err e)
by_write d panic = ends panic

-- behind the byte
abbrev pub by_byte : Direction → Outcome (Option ℕ) → Move
by_byte d (ok none) = reads d
by_byte d (ok (some idx)) =
    by_write (record d { filter = (emit_eoft d.filter idx).1 })
      (write_flush (take idx d.filter.buf) d.sink)
by_byte d (err e) = fails d
by_byte d panic = ends panic

abbrev pub by_ending : Direction → Ending → Move
by_ending d eof = ends (ok tt)
by_ending d broken = fails d

abbrev pub by_src : Direction → Bytes → Move
by_src d [] = by_ending d d.ending
by_src d (b ∷ rest) =
    let (r, g) = process_next_byte_idx (write_byte d.filter b) in
    by_byte (record d { filter = g; src = rest }) r

unfoldable pub move : Direction → Move
move d = let m = by_src d d.src in if ltb d.filter.cnt (length d.filter.buf) then m else ends panic

pub data Side : Type 0 where
  from_incoming from_outgoing : Side

-- the state of the loop; `failed` is the branch that is left out of this round
pub record Shuffle : Type 0 where
  pub incoming : Direction
  pub outgoing : Direction
  pub failed : Option Side

pub data After : Type 0 where
  goes_on : Shuffle → After
  done : Outcome {0} Unit → After

-- where both branches are left out, `else => break`
abbrev pub in_step : Option Side → Move → Shuffle → After
in_step (some from_incoming) m p = goes_on p
in_step (some from_outgoing) (reads d) p = goes_on (record p { incoming = d })
in_step (some from_outgoing) (relays d) p = goes_on (record p { incoming = d; failed = none })
in_step (some from_outgoing) (fails d) p = done (ok tt)
in_step (some from_outgoing) (ends r) p = done r
in_step none (reads d) p = goes_on (record p { incoming = d })
in_step none (relays d) p = goes_on (record p { incoming = d; failed = none })
in_step none (fails d) p = goes_on (record p { incoming = d; failed = some from_incoming })
in_step none (ends r) p = done r

abbrev pub out_step : Option Side → Move → Shuffle → After
out_step (some from_outgoing) m p = goes_on p
out_step (some from_incoming) (reads d) p = goes_on (record p { outgoing = d })
out_step (some from_incoming) (relays d) p = goes_on (record p { outgoing = d; failed = none })
out_step (some from_incoming) (fails d) p = done (ok tt)
out_step (some from_incoming) (ends r) p = done r
out_step none (reads d) p = goes_on (record p { outgoing = d })
out_step none (relays d) p = goes_on (record p { outgoing = d; failed = none })
out_step none (fails d) p = goes_on (record p { outgoing = d; failed = some from_outgoing })
out_step none (ends r) p = done r

unfoldable pub step : Side → Shuffle → After
step from_incoming p = in_step p.failed (move p.incoming) p
step from_outgoing p = out_step p.failed (move p.outgoing) p

-- the steps of the two in any order, as long as the loop goes on
pub data Steps : Shuffle → Shuffle → Type 0 where
  stay : {p : Shuffle} → Steps p p
  then_step : {p q r : Shuffle} (side : Side) → step side p ≡ goes_on q → Steps q r → Steps p r
