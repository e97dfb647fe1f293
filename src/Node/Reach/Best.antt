-- ===== src/Node/Reach/Best.antt =====
-- What the node reads of the best chain, in the stores that it can bring about.
use rsk.Bitcoin.{Bitcoin, Network}
use rsk.Btc.Store.Meta.{Chain}
use rsk.Btc.Query.Best.{IsBestChain, sound-IsBestChain}
use rsk.Node.Reach.{Reached, Reached-sound}
use rsk.Node.Reach.Linked.{anchor_of, Reached-IsLinked}

module _ {Header : Type 0} (lib : Bitcoin Header) (net : Network) where
  -- In every store that is seeded and then grows by batches that connect, while its numbers leave
  -- room for them, the queries give a best chain: a header and a work at each height from the one that was seeded last to the tip, and no
  -- header above; each header names the one below, adds its work and meets its target; the chain's
  -- work is that at its tip, and no other chain has more.
  pub Reached-IsBestChain :
      (c : Chain Header) (r : Reached lib net c) → IsBestChain lib (anchor_of lib net r) c
  Reached-IsBestChain c r =
      let (tree, heavy) = Reached-sound lib net c r in
      sound-IsBestChain lib (anchor_of lib net r) c tree heavy (Reached-IsLinked lib net c r)
