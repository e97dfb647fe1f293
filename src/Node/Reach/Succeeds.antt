-- ===== src/Node/Reach/Succeeds.antt =====
-- A valid run connects to every store that the node can bring about.
use rsk.Prelude.{ℕ, ◌%◌, ◌≡◌, some, List, ◌∷◌, drop}
use rsk.Bitcoin.{Bitcoin, Network}
use rsk.Result.{ok}
use rsk.Btc.Validation.{difficulty_period}
use rsk.Btc.Store.Meta.{Chain, locate}
use rsk.Btc.Store.Walk.{header_at}
use rsk.Btc.Connect.{
  ConnectOutcome, Target, network_ok, known_prefix, parent_hash, choose_target, connect_behind,
  connect_run, connect_headers,
}
use rsk.Btc.Connect.Run.{header_in}
use rsk.Btc.Connect.Run.Valid.{ValidRun}
use rsk.Btc.Connect.Sound.{Fits, Fits-drop}
use rsk.Btc.Connect.Succeeds.{connect_behind_total}
use rsk.Node.Reach.{Reached, Reached-sound}
use rsk.Node.Reach.Linked.{anchor_of, Reached-IsLinked, Reached-IsFloor}

module _ {Header : Type 0} (lib : Bitcoin Header) (net : Network) where
  connect_headers-eq :
      (c : Chain Header) (headers : List Header) (first : Header) (rest : List Header) (f h : ℕ)
      (out : ConnectOutcome × Chain Header)
      → network_ok lib net c ≡ ok tt
      → drop (known_prefix lib c headers) headers ≡ first ∷ rest
      → locate c (parent_hash lib headers (known_prefix lib c headers) first) ≡ some (f, h)
      → connect_behind lib net c
          (parent_hash lib headers (known_prefix lib c headers) first)
          f
          h
          first
          rest
        ≡ ok out
      → connect_headers lib net c headers ≡ ok out
  unfolding connect_headers connect_run
  connect_headers-eq c headers first rest f h out same new located behind =
      rw (same, new) (rw (located, connect_run) behind)

  -- A batch connects to a store that the node can bring about, where its network is the store's and
  -- the numbers of the store leave room for it, if the parent of its first new header is stored, that
  -- one is a tip or the new fork lies above the finalized height (which is that the target can be
  -- chosen), the new headers are valid there, and the spine was seeded up to a period boundary.
  pub connect_headers-connects :
      (c : Chain Header) (headers : List Header) (first : Header) (rest : List Header) (f h : ℕ)
      (target : Target Header) (r : Reached lib net c)
      → anchor_of lib net r % difficulty_period ≡ 0
      → Fits lib c headers
      → network_ok lib net c ≡ ok tt
      → drop (known_prefix lib c headers) headers ≡ first ∷ rest
      → locate c (parent_hash lib headers (known_prefix lib c headers) first) ≡ some (f, h)
      → choose_target c f h (lib.block_hash first) ≡ ok target
      → ValidRun lib net
          (header_in (header_at target.txn target.fork) (first ∷ rest) target.forkpoint)
          target.forkpoint
          (parent_hash lib headers (known_prefix lib c headers) first)
          (first ∷ rest)
      → (out : ConnectOutcome × Chain Header) × (connect_headers lib net c headers ≡ ok out)
  connect_headers-connects c headers first rest f h target r whole fits same new located chosen
        valid =
      let (tree, heavy) = Reached-sound lib net c r in
      let (out, behind) =
        connect_behind_total lib (anchor_of lib net r) net c tree heavy
          (Reached-IsLinked lib net c r) (Reached-IsFloor lib net c r) whole
          (parent_hash lib headers (known_prefix lib c headers) first) f h target first rest
          (rw new at (Fits-drop lib c (known_prefix lib c headers) headers fits)) located chosen
          valid in
      (out, connect_headers-eq c headers first rest f h out same new located behind)
