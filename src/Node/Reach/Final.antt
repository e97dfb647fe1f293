-- ===== src/Node/Reach/Final.antt =====
-- What the finalized height promises: the headers up to it stay, on every chain.
use rsk.Prelude.{ℕ, ◌≤◌, ◌≡◌, ◌∙◌, inl, inr, some, ◌∷◌, arith}
use rsk.Bitcoin.{Bitcoin, Network}
use rsk.Rows.Header.{BtcRow}
use rsk.Rows.Fork.{ForkMeta}
use rsk.Btc.Store.Meta.{Chain, fork_meta, finalized}
use rsk.Btc.Store.Walk.{row_at}
use rsk.Btc.Connect.{known_prefix, parent_hash}
use rsk.Btc.Connect.Floor.{IsFloor, connect_headers-IsFloor}
use rsk.Btc.Connect.Settled.{LeaveAbove, reads_as_root, Joined-LeaveAbove}
use rsk.Node.Reach.{Reached, Reached-sound}
use rsk.Node.Reach.Linked.{anchor_of, Reached-IsLinked, connect_headers-Joined}
use rsk.Node.Reach.Chains.{Later, same, grows, Later-Reached, Later-stays}

module _ {Header : Type 0} (lib : Bitcoin Header) (net : Network) where
  Later-LeaveAbove :
      (c d : Chain Header) (k : ℕ)
      → Reached lib net c
      → finalized c ≡ some k
      → LeaveAbove c k
      → Later lib net c d
      → IsFloor d k × LeaveAbove d k
  Later-LeaveAbove c _ k r floor above same = ((k, floor, omega arith), above)
  Later-LeaveAbove c _ k r floor above (grows d d' batch out later fits e) =
      let (floor', above') = Later-LeaveAbove c d k r floor above later in
      let r' = Later-Reached lib net c d r later in
      let tree = (Reached-sound lib net d r').0 in
      let rows = Reached-IsLinked lib net d r' in
      (
        connect_headers-IsFloor lib net d d' batch out k e floor',
        elim (connect_headers-Joined lib net (anchor_of lib net r') d d' batch out tree rows fits
            e) [
              | inl unchanged ↦ rw unchanged above'
              | inr (first, rest, _, joined) ↦
                  Joined-LeaveAbove tree rows k d'
                    (parent_hash lib batch (known_prefix lib d batch) first) (first ∷ rest) joined
                    floor' above'
            ],
      )

  -- If no fork of a store that the node can bring about leaves its parent at or below the finalized
  -- height, then in every store that batches of headers make of it, where each of them connects and
  -- the numbers of the store leave room for it, every chain reads up to that height what the root
  -- chain reads now: no chain that becomes the best one replaces a header there.
  pub Later-final :
      (c d : Chain Header) (k f h : ℕ) (m : ForkMeta) (x : BtcRow Header)
      → Reached lib net c
      → finalized c ≡ some k
      → LeaveAbove c k
      → Later lib net c d
      → h ≤ k
      → row_at c 0 h ≡ some x
      → fork_meta d f ≡ some m
      → row_at d f h ≡ some x
  Later-final c d k f h m x r floor above later le read there =
      let r' = Later-Reached lib net c d r later in
      reads_as_root (Reached-sound lib net d r').0 (Reached-IsLinked lib net d r') k f h m
        (Later-LeaveAbove c d k r floor above later).1 le there
      ∙ Later-stays lib net c d 0 h x r read later
