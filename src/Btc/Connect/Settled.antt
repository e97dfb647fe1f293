-- ===== src/Btc/Connect/Settled.antt =====
-- A height below which all chains are one: no fork leaves at or below it, and none can any more.
use rsk.Prelude.{
  ℕ, zero, suc, ◌≤◌, ◌<◌, ◌≡◌, ◌≢◌, refl, sym, ap, ◌∙◌, inl, inr, some, List, arith, Option-cases,
  nat-cases,
}
use rsk.Bitcoin.{Bitcoin}
use rsk.Rows.Fork.{ForkMeta}
use rsk.Btc.Store.Meta.{Chain, fork_meta}
use rsk.Btc.Store.Walk.{row_at}
use rsk.Btc.Store.Sound.{IsTree}
use rsk.Btc.Store.Linked.{IsLinked, row_at-eq, parent_reaches, Owns-parent}
use rsk.Btc.Connect.Joined.{Joined}
use rsk.Btc.Connect.Append.{some_owner}
use rsk.Btc.Connect.Floor.{IsFloor}

module _ {Header : Type 0} where
  -- Every chain but the root left its parent above the height.
  abbrev pub LeaveAbove : Chain Header → ℕ → Type 0
  LeaveAbove c k = (f : ℕ) (m : ForkMeta) → fork_meta c f ≡ some m → f ≢ 0 → k < m.forkpoint

module _ {Header : Type 0} {lib : Bitcoin Header} {anchor : ℕ} {c : Chain Header} (tree : IsTree c)
    (rows : IsLinked lib anchor c) where
  reads_loop :
      (k fuel f h : ℕ) (m : ForkMeta)
      → LeaveAbove c k
      → f < fuel
      → h ≤ k
      → fork_meta c f ≡ some m
      → row_at c f h ≡ row_at c 0 h
  reads_loop k zero f h m above lt le there = absurd (omega arith)
  reads_loop k (suc fuel) f h m above lt le there = elim (nat-cases f 0) [
    | inl root ↦ rw root refl
    | inr other ↦ elim (Option-cases m.parent) [
      | inl no_parent ↦
          absurd (omega (arith, rows.rooted f m there no_parent, above f m there other))
      | inr (p, child) ↦
          let lt' : h < m.forkpoint = omega (arith, above f m there other) in
          let (m', there', _) =
            parent_reaches lib anchor c tree.parents rows f p h m there child lt' in
          let (o, owns) = some_owner tree rows (suc f) f h m (omega arith) there in
          row_at-eq c f h o tree.parents owns
          ∙ sym (row_at-eq c p h o tree.parents (Owns-parent c f p h o m there child lt' owns))
          ∙ reads_loop k fuel p h m' above (omega (arith, tree.parents.below f p m there child)) le
              there'
    ]
  ]

  -- Up to the height all chains read as the root chain does.
  pub reads_as_root :
      (k f h : ℕ) (m : ForkMeta)
      → LeaveAbove c k
      → h ≤ k
      → fork_meta c f ≡ some m
      → row_at c f h ≡ row_at c 0 h
  reads_as_root k f h m above le there = reads_loop k (suc f) f h m above (omega arith) le there

  -- A connect starts no fork at or below the floor.
  pub Joined-LeaveAbove :
      (k : ℕ) (s : Chain Header) (parent : ℕ) (run : List Header)
      → Joined lib c s parent run
      → IsFloor c k
      → LeaveAbove c k
      → LeaveAbove s k
  Joined-LeaveAbove k s parent run j (k', is, le) above f m there other =
      elim (nat-cases f j.target) [
        | inr ne ↦ above f m (sym (j.others f ne) ∙ there) other
        | inl same ↦
            let new : m ≡ j.meta = cc (there, same, j.is_there) in
            let forkpoint : m.forkpoint ≡ j.old_meta.forkpoint =
              ap (λ m. m.forkpoint) new ∙ j.same_forkpoint in
            elim j.place [
              | inl extends ↦ omega (
                arith,
                forkpoint,
                above j.target j.old_meta extends.was_there (λ root. other (same ∙ root)),
              )
              | inr leaves ↦ omega (arith, forkpoint, le, leaves.above_floor k' is)
            ]
      ]
