-- ===== src/Relay/Finishes.antt =====
-- How the relay over byte streams comes to its end.
use xmpp_proxy.Prelude.{
  ℕ, ◌≡◌, ◌⊎◌, Bytes, [], Error, none, some, Outcome, ok, err, panic, stanza_too_big,
}
use xmpp_proxy.Filter.Safe.{IsValid}
use xmpp_proxy.Wire.{write_flush}
use xmpp_proxy.Relay.{
  Direction, Side, from_incoming, from_outgoing, Shuffle, After, goes_on, done, Steps,
}
use xmpp_proxy.Relay.Fares.{outcome, EndsBy, Keeps, Fares}

abbrev pub side_of : Side → Shuffle → Direction
side_of from_incoming p = p.incoming
side_of from_outgoing p = p.outgoing

abbrev other : Side → Side
other from_incoming = from_outgoing
other from_outgoing = from_incoming

-- between the two states the reader of this side has failed with "stanza too big"
pub record TooBig (side : Side) (p q : Shuffle) : Type 0 where
  pub at : Shuffle
  pub reached : Steps p at
  pub more : Steps at q
  pub too_big : outcome (side_of side at) ≡ err stanza_too_big

-- why the loop that began at `p` ends at `q` with this side
pub data Finishes (side : Side) (p q : Shuffle) : Outcome {0} Unit → Type 0 where
  stream_ended :
      (side_of side q).src ≡ [] → outcome (side_of side q) ≡ ok none → Finishes side p q (ok tt)
  both_failed :
      {e : Error}
      → q.failed ≡ some (other side)
      → outcome (side_of side q) ≡ err e
      → Finishes side p q (ok tt)
  writer_failed :
      {buf : Bytes} {eoft : ℕ} {e : Error}
      → outcome (side_of side q) ≡ ok (some (buf, eoft))
      → write_flush buf (side_of side q).sink ≡ err e
      → Finishes side p q (err e)
  read_again : TooBig side p q → Finishes side p q panic

-- where the loop stands behind a step, or why this step ended it
data Ended (side : Side) (p : Shuffle) : Outcome {0} Unit → Type 0 where
  by_move : {r : Outcome {0} Unit} → EndsBy (side_of side p) r → Ended side p r
  by_else :
      {e : Error}
      → p.failed ≡ some (other side)
      → outcome (side_of side p) ≡ err e
      → Ended side p (ok tt)

abbrev Stepped : Side → Shuffle → After → Type 0
Stepped side p (goes_on q) = Keeps p.incoming q.incoming × Keeps p.outgoing q.outgoing
Stepped side p (done r) = Ended side p r

-- a side's filter is valid, or its reader has failed with "stanza too big"
abbrev Sound : Side → Shuffle → Shuffle → Type 0
Sound side p q = IsValid (side_of side q).filter ⊎ TooBig side p q
