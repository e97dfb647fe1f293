-- ===== src/Btc/Store/Sound.antt =====
-- The invariants of the tables: the forks form a tree, and the best fork is a heaviest one.
use rsk.Prelude.{ℕ, ◌≤◌, ◌<◌, ◌≡◌, refl, none, some}
use rsk.Prelude.Table.{get, pair_key}
use rsk.Rows.Header.{BtcRow}
use rsk.Rows.Fork.{ForkMeta}
use rsk.Btc.Store.Meta.{Chain, best_fork, fork_meta, locate}
use rsk.Btc.Store.Walk.{fork_chainwork}
use rsk.Btc.Store.Walk.Owns.{ParentsBelow, work_at_own}
use rsk.Btc.Store.Put.{next_fork_id}

module _ {Header : Type 0} where
  -- The fork has headers of its own, the last of them at its tip.
  pub record HasTip (c : Chain Header) (f : ℕ) (m : ForkMeta) : Type 0 where
    pub owned : m.forkpoint ≤ m.tip_height
    pub row : BtcRow Header
    pub stored : get c.headers (f, m.tip_height) ≡ some row

  pub record IsTree (c : Chain Header) : Type 0 where
    pub parents : ParentsBelow c
    pub numbered : (f : ℕ) (m : ForkMeta) → fork_meta c f ≡ some m → f < next_fork_id c
    pub tips : (f : ℕ) (m : ForkMeta) → fork_meta c f ≡ some m → HasTip c f m
    pub located :
        (hash f h : ℕ) → locate c hash ≡ some (f, h) → (m : ForkMeta) × (fork_meta c f ≡ some m)

  -- Chain selection: no fork carries more work than the best one.
  pub record IsHeaviest (c : Chain Header) : Type 0 where
    pub best : ℕ
    pub best_work : ℕ
    pub is_best : best_fork c ≡ some best
    pub has_work : fork_chainwork c best ≡ some best_work
    pub heaviest : (f w : ℕ) → fork_chainwork c f ≡ some w → w ≤ best_work

  pub fork_chainwork_of_tip :
      (c : Chain Header) (f : ℕ) (m : ForkMeta) (row : BtcRow Header)
      → fork_meta c f ≡ some m
      → m.forkpoint ≤ m.tip_height
      → get c.headers (f, m.tip_height) ≡ some row
      → fork_chainwork c f ≡ some row.work
  unfolding fork_chainwork
  fork_chainwork_of_tip c f m row there owned stored =
      rw (there, fork_chainwork) (work_at_own c f m.tip_height m row there owned stored)

  pub fork_chainwork-none :
      (c : Chain Header) (f : ℕ) → fork_meta c f ≡ none → fork_chainwork c f ≡ none
  unfolding fork_chainwork
  fork_chainwork-none c f gone = rw (gone, fork_chainwork) refl
