-- ===== src/Btc/Store/Linked.antt =====
-- The rows of the chains, and what the reads through the fork tree make of them.
use rsk.Prelude.{
  ℕ, zero, suc, ◌+◌, ◌≤◌, ◌<◌, ◌≡◌, refl, ap, ◌∙◌, true, none, some, arith, inl, inr, Option-cases,
  leb, Bool-cases,
}
use rsk.Prelude.Table.{get, pair_key}
use rsk.Bitcoin.{Bitcoin}
use rsk.Rows.Header.{BtcRow}
use rsk.Rows.Fork.{ForkMeta}
use rsk.Btc.Store.Meta.{Chain, fork_meta, locate}
use rsk.Btc.Store.Walk.{owner_fork, row_at}
use rsk.Btc.Store.Walk.Owns.{Owns, here, up, ParentsBelow, owner_fork_correct, row_at_own}

module _ {Header : Type 0} where
  pub record InFork (c : Chain Header) (f h : ℕ) : Type 0 where
    pub meta : ForkMeta
    pub is_there : fork_meta c f ≡ some meta
    pub above : meta.forkpoint ≤ h
    pub below : h ≤ meta.tip_height

module _ {Header : Type 0} (lib : Bitcoin Header) where
  -- The row `x` is the block behind `y`: it names its hash, adds its own work and meets its target.
  pub record Links (y x : BtcRow Header) : Type 0 where
    pub named : lib.prev_blockhash x.header ≡ lib.block_hash y.header
    pub summed : x.work ≡ y.work + lib.work x.header
    pub works : lib.pow_ok x.header ≡ true

  -- The fork's first row, behind a row of the fork that it left.
  pub record Joint (c : Chain Header) (f p : ℕ) (m : ForkMeta) : Type 0 where
    pub height : ℕ
    pub lower : BtcRow Header
    pub upper : BtcRow Header
    pub forkpoint_is : m.forkpoint ≡ height + 1
    pub has_lower : get c.headers (p, height) ≡ some lower
    pub has_upper : get c.headers (f, height + 1) ≡ some upper
    pub joins : Links lower upper

  -- The rows of every fork lie in its range, and fill it from the anchor on; each is linked to the
  -- one below, and a hash is found where its block is.
  pub record IsLinked (anchor : ℕ) (c : Chain Header) : Type 0 where
    pub rows_in : (f h : ℕ) (x : BtcRow Header) → get c.headers (f, h) ≡ some x → InFork c f h
    pub dense :
        (f h : ℕ)
        → anchor ≤ h
        → InFork c f h
        → (x : BtcRow Header) × (get c.headers (f, h) ≡ some x)
    pub within :
        (f h : ℕ) (y x : BtcRow Header)
        → anchor ≤ h
        → get c.headers (f, h) ≡ some y
        → get c.headers (f, h + 1) ≡ some x
        → Links y x
    pub joint :
        (f p : ℕ) (m : ForkMeta) → fork_meta c f ≡ some m → m.parent ≡ some p → Joint c f p m
    pub rooted : (f : ℕ) (m : ForkMeta) → fork_meta c f ≡ some m → m.parent ≡ none → m.forkpoint ≡ 0
    pub found :
        (hash f h : ℕ)
        → locate c hash ≡ some (f, h)
        → (x : BtcRow Header) × (get c.headers (f, h) ≡ some x) × (lib.block_hash x.header ≡ hash)

module _ {Header : Type 0} where
  -- A read is that of the owner's row.
  pub row_at-Owns :
      (c : Chain Header) (f h : ℕ) (x : BtcRow Header)
      → ParentsBelow c
      → row_at c f h ≡ some x
      → (o : ℕ) × Owns c h f o × (get c.headers (o, h) ≡ some x)
  unfolding row_at
  row_at-Owns c f h x inv e = elim (Option-cases (owner_fork c f h)) [
    | inl gone ↦ cc (rw (gone, row_at) at e)
    | inr (o, owned) ↦ (o, ((owner_fork_correct c inv f h).1 o).0 owned, rw (owned, row_at) at e)
  ]

  pub row_at-eq :
      (c : Chain Header) (f h o : ℕ)
      → ParentsBelow c
      → Owns c h f o
      → row_at c f h ≡ get c.headers (o, h)
  unfolding row_at
  row_at-eq c f h o inv owns = rw (((owner_fork_correct c inv f h).1 o).1 owns, row_at) refl

  -- Below its forkpoint a fork reads as its parent does.
  pub Owns-parent :
      (c : Chain Header) (f p h o : ℕ) (m : ForkMeta)
      → fork_meta c f ≡ some m
      → m.parent ≡ some p
      → h < m.forkpoint
      → Owns c h f o
      → Owns c h p o
  Owns-parent c f p h o m there child below (here {m = m'} there' le) =
      let same : m ≡ m' = cc (there, there') in absurd (omega (arith, ap (λ m. m.forkpoint) same))
  Owns-parent c f p h o m there child below (up {p = p'} {m = m'} there' lt child' rest) =
      let same : m ≡ m' = cc (there, there') in
      let same_parent : p' ≡ p = cc (ap (λ m. m.parent) same, child, child') in
      rw same_parent at rest

  pub Owns-own :
      (c : Chain Header) (f h o : ℕ) (m : ForkMeta)
      → fork_meta c f ≡ some m
      → m.forkpoint ≤ h
      → Owns c h f o
      → o ≡ f
  Owns-own c f h o m there le (here _ _) = refl
  Owns-own c f h o m there le (up {m = m'} there' lt _ _) =
      let same : m ≡ m' = cc (there, there') in absurd (omega (arith, ap (λ m. m.forkpoint) same))

module _ {Header : Type 0} (lib : Bitcoin Header) (anchor : ℕ) (c : Chain Header)
    (inv : ParentsBelow c) (rows : IsLinked lib anchor c) where
  joint_Links :
      (f h o : ℕ) (m : ForkMeta) (y x : BtcRow Header)
      → fork_meta c f ≡ some m
      → m.forkpoint ≡ h + 1
      → get c.headers (f, h + 1) ≡ some x
      → Owns c h f o
      → get c.headers (o, h) ≡ some y
      → Links lib y x
  joint_Links f h o m y x there at upper owns lower = elim (Option-cases m.parent) [
    | inl root ↦ absurd (omega (arith, rows.rooted f m there root))
    | inr (p, child) ↦
        let joint = rows.joint f p m there child in
        let same_height : joint.height ≡ h = omega (arith, joint.forkpoint_is) in
        let in_parent = rows.rows_in p joint.height joint.lower joint.has_lower in
        let same : o ≡ p =
          Owns-own c p h o in_parent.meta in_parent.is_there
            (omega (arith, in_parent.above, same_height))
            (Owns-parent c f p h o m there child (omega arith) owns) in
        let below : joint.lower ≡ y = cc (joint.has_lower, same_height, same, lower) in
        let above : joint.upper ≡ x = cc (joint.has_upper, same_height, upper) in
        rw (← below, ← above) joint.joins
  ]

  -- The rows of two adjacent heights, wherever on the ancestry they stand.
  Owns-Links :
      (h o : ℕ) (y x : BtcRow Header)
      → anchor ≤ h
      → get c.headers (o, h) ≡ some y
      → (f q : ℕ) → Owns c (h + 1) f q
      → get c.headers (q, h + 1) ≡ some x
      → Owns c h f o
      → Links lib y x
  Owns-Links h o y x le lower f q (here {m = m} there at) upper owns =
      elim (Bool-cases (leb m.forkpoint h)) [
        | inl own ↦
            let same : o ≡ f = Owns-own c f h o m there (ground arith) owns in
            rows.within f h y x le (rw same at lower) upper
        | inr first ↦ joint_Links f h o m y x there (ground arith) upper owns lower
      ]
  Owns-Links h o y x le lower f q (up {p = p} {m = m} there lt child rest) upper owns =
      Owns-Links h o y x le lower p q rest upper
        (Owns-parent c f p h o m there child (omega arith) owns)

  -- The joint of a fork above the height: the parent reaches as high.
  pub parent_reaches :
      (f p h : ℕ) (m : ForkMeta)
      → fork_meta c f ≡ some m
      → m.parent ≡ some p
      → h < m.forkpoint
      → (m' : ForkMeta) × (fork_meta c p ≡ some m') × (h ≤ m'.tip_height)
  parent_reaches f p h m there child below =
      let joint = rows.joint f p m there child in
      let in_parent = rows.rows_in p joint.height joint.lower joint.has_lower in
      (in_parent.meta, in_parent.is_there, omega (arith, in_parent.below, joint.forkpoint_is))

  -- No chain reads above its tip.
  pub row_at-none :
      (f h : ℕ) (m : ForkMeta)
      → fork_meta c f ≡ some m
      → m.forkpoint ≤ m.tip_height
      → m.tip_height < h
      → row_at c f h ≡ none
  row_at-none f h m there owned high = elim (Option-cases (get c.headers (f, h))) [
    | inl gone ↦ row_at-eq c f h f inv (here there (omega arith)) ∙ gone
    | inr (x, row) ↦
        let inside = rows.rows_in f h x row in
        let same : inside.meta ≡ m = cc (inside.is_there, there) in
        absurd (omega (arith, inside.below, ap (λ m. m.tip_height) same))
  ]

  -- Every height from the anchor to the tip has a row, on the fork or on an ancestor.
  row_at_dense :
      (fuel f h : ℕ) (m : ForkMeta)
      → f < fuel
      → fork_meta c f ≡ some m
      → anchor ≤ h
      → h ≤ m.tip_height
      → (o : ℕ) × (x : BtcRow Header) × Owns c h f o × (get c.headers (o, h) ≡ some x)
  row_at_dense zero f h m lt there above below = absurd (omega arith)
  row_at_dense (suc fuel) f h m lt there above below = elim (Bool-cases (leb m.forkpoint h)) [
    | inl own ↦
        let le : m.forkpoint ≤ h = ground arith in
        let (x, row) =
          rows.dense f h above (record { meta = m; is_there = there; above = le; below = below }) in
        (f, x, here there le, row)
    | inr higher ↦
        let lt' : h < m.forkpoint = ground arith in
        elim (Option-cases m.parent) [
          | inl root ↦ absurd (omega (arith, rows.rooted f m there root))
          | inr (p, child) ↦
              let (m', there', reaches) = parent_reaches f p h m there child lt' in
              let (o, x, owns, row) =
                row_at_dense fuel p h m' (omega (arith, inv.below f p m there child)) there' above
                  reaches in
              (o, x, up there lt' child owns, row)
        ]
  ]

module _ {Header : Type 0} (lib : Bitcoin Header) where
  -- The chains as they are read: each has a header at every height from the anchor to its tip, each
  -- header is the block behind the one below, and a hash that is found is read at its place.
  pub record Whole (anchor : ℕ) (c : Chain Header) : Type 0 where
    pub complete :
        (f h : ℕ) (m : ForkMeta)
        → fork_meta c f ≡ some m
        → anchor ≤ h
        → h ≤ m.tip_height
        → (x : BtcRow Header) × (row_at c f h ≡ some x)
    pub linked :
        (f h : ℕ) (y x : BtcRow Header)
        → anchor ≤ h
        → row_at c f h ≡ some y
        → row_at c f (h + 1) ≡ some x
        → Links lib y x
    pub read_back :
        (hash f h : ℕ)
        → locate c hash ≡ some (f, h)
        → (x : BtcRow Header) × (row_at c f h ≡ some x) × (lib.block_hash x.header ≡ hash)

  pub IsLinked-Whole :
      (anchor : ℕ) (c : Chain Header) → ParentsBelow c → IsLinked lib anchor c → Whole anchor c
  IsLinked-Whole anchor c inv rows = record {
    complete = λ f h m there above below.
        let (o, x, owns, row) =
          row_at_dense lib anchor c inv rows (suc f) f h m (omega arith) there above below in
        (x, row_at-eq c f h o inv owns ∙ row);
    linked = λ f h y x above lower upper.
        let (o, owns, row) = row_at-Owns c f h y inv lower in
        let (q, owns', row') = row_at-Owns c f (h + 1) x inv upper in
        Owns-Links lib anchor c inv rows h o y x above row f q owns' row' owns;
    read_back = λ hash f h e.
        let (x, row, has_hash) = rows.found hash f h e in
        let inside = rows.rows_in f h x row in
        (x, row_at_own c f h inside.meta x inside.is_there inside.above row, has_hash);
  }
