-- ===== src/Node/Reach/Chains.antt =====
-- The chains of the stores that the node can bring about: they are whole, and they only grow.
use rsk.Prelude.{ℕ, ◌≡◌, ◌⊎◌, inl, inr, some, List, ◌∷◌, drop}
use rsk.Bitcoin.{Bitcoin, Network}
use rsk.Result.{ok}
use rsk.Rows.Header.{BtcRow}
use rsk.Btc.Store.Meta.{Chain}
use rsk.Btc.Store.Walk.{row_at}
use rsk.Btc.Store.Linked.{Whole, IsLinked-Whole}
use rsk.Btc.Connect.{ConnectOutcome, connect_headers, known_prefix, parent_hash}
use rsk.Btc.Connect.Sound.{Fits}
use rsk.Btc.Connect.Append.{Appended, Joined-Appended, read_persists}
use rsk.Node.Reach.{Reached, connects, Reached-sound}
use rsk.Node.Reach.Linked.{anchor_of, Reached-IsLinked, connect_headers-Joined}

module _ {Header : Type 0} (lib : Bitcoin Header) (net : Network) where
  -- In every store that is seeded and then grows by batches that connect, while its numbers leave
  -- room for them, from the height that was seeded last on, every chain has a header at each height up to its tip, each names the hash of the
  -- one below, adds its own work to the work below and meets its target; and a hash that is found is
  -- read back at its place, on a header that has it.
  pub Reached-Whole : (c : Chain Header) (r : Reached lib net c) → Whole lib (anchor_of lib net r) c
  Reached-Whole c r =
      IsLinked-Whole lib (anchor_of lib net r) c (Reached-sound lib net c r).0.parents
        (Reached-IsLinked lib net c r)

  -- A batch that connects to a store that the node can bring about, where the numbers of the store
  -- leave room for it, changes nothing, or appends its headers from the first new one on to a chain
  -- that ends at the parent of that one: a fork with its tip there, or a new fork. The target then
  -- reads as the parent's chain up to the parent, then as the run with its work summed up, and as
  -- nothing above; every other chain reads as before, at every height.
  pub connect_headers-Appended :
      (c final : Chain Header) (headers : List Header) (outcome : ConnectOutcome)
      → Reached lib net c
      → Fits lib c headers
      → connect_headers lib net c headers ≡ ok (outcome, final)
      → (final ≡ c)
        ⊎ ((first : Header) × (rest : List Header) × (drop (known_prefix lib c headers) headers
              ≡ first ∷ rest)
            × Appended lib c final
                (parent_hash lib headers (known_prefix lib c headers) first)
                (first ∷ rest))
  connect_headers-Appended c final headers outcome r fits e =
      let tree = (Reached-sound lib net c r).0 in
      let tree' = (Reached-sound lib net final (connects c final headers outcome r fits e)).0 in
      let rows = Reached-IsLinked lib net c r in
      elim (connect_headers-Joined lib net (anchor_of lib net r) c final headers outcome tree rows
        fits e) [
          | inl same ↦ inl same
          | inr (first, rest, new, joined) ↦
              inr (first, rest, new, Joined-Appended tree rows joined tree')
        ]

  -- One batch keeps what was read.
  connect_headers-stays :
      (c final : Chain Header) (headers : List Header) (outcome : ConnectOutcome) (f h : ℕ)
      (x : BtcRow Header)
      → Reached lib net c
      → Fits lib c headers
      → connect_headers lib net c headers ≡ ok (outcome, final)
      → row_at c f h ≡ some x
      → row_at final f h ≡ some x
  connect_headers-stays c final headers outcome f h x r fits e read =
      let tree = (Reached-sound lib net c r).0 in
      let tree' = (Reached-sound lib net final (connects c final headers outcome r fits e)).0 in
      let rows = Reached-IsLinked lib net c r in
      elim (connect_headers-Joined lib net (anchor_of lib net r) c final headers outcome tree rows
        fits e) [
          | inl same ↦ rw same read
          | inr (first, rest, _, joined) ↦ read_persists tree rows joined tree' f h x read
        ]

  -- A store that batches make of another one.
  pub data Later (c : Chain Header) : Chain Header → Type 0 where
    same : Later c c
    grows :
        (d d' : Chain Header) (batch : List Header) (out : ConnectOutcome)
        → Later c d
        → Fits lib d batch
        → connect_headers lib net d batch ≡ ok (out, d')
        → Later c d'

  pub Later-Reached : (c d : Chain Header) → Reached lib net c → Later c d → Reached lib net d
  Later-Reached c _ r same = r
  Later-Reached c _ r (grows d d' batch out later fits e) =
      connects d d' batch out (Later-Reached c d r later) fits e

  -- What a chain of a store that the node can bring about reads as at a height, it reads as in every
  -- store that batches of headers then make of it, where each of them connects and the numbers of
  -- the store leave room for it.
  pub Later-stays :
      (c d : Chain Header) (f h : ℕ) (x : BtcRow Header)
      → Reached lib net c
      → row_at c f h ≡ some x
      → Later c d
      → row_at d f h ≡ some x
  Later-stays c _ f h x r read same = read
  Later-stays c _ f h x r read (grows d d' batch out later fits e) =
      connect_headers-stays d d' batch out f h x (Later-Reached c d r later) fits e
        (Later-stays c d f h x r read later)
