-- ===== src/Node/Run/Range.antt =====
-- The indices of the run: the peer that is asked and the flags of the usable ones are in range in
-- every round, so no access of the source panics.
use rsk.Prelude.{ℕ, ◌<◌, ◌≡◌, length}
use rsk.Bitcoin.{Bitcoin, Network}
use rsk.Result.{Result}
use rsk.Node.Fetch.{Fetch}
use rsk.Node.Run.{Driver, Round, again, ends, step}

-- The peer that is asked next is one of the pool, and each peer has its flag.
abbrev pub InRange : {Header : Type 0} → Driver Header → Type 0
InRange d = (d.cur < length d.peers) × (length d.alive ≡ length d.peers)

abbrev StaysInRange : {Header : Type 0} → Round Header → Type 0
StaysInRange (ends e core) = Unit
StaysInRange (again d) = InRange d

module _ {Header : Type 0} (lib : Bitcoin Header) (net : Network) (genesis : Header)
    (magic : ℕ) where
  -- The rounds that a run goes through, from the one that it starts with.
  pub data Rounds (first : Round Header) : Driver Header → Type 0 where
    start : (d : Driver Header) → first ≡ again d → Rounds first d
    next :
        (d d' : Driver Header)
        → Rounds first d
        → step lib net genesis magic d ≡ again d'
        → Rounds first d'
