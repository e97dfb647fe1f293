-- ===== src/Btc/Store/Walk.antt =====
-- The walk from a fork up its ancestors to the one that owns a height, and the reads through it.
pub mod Owns
use rsk.Prelude.{ℕ, zero, suc, Bool, true, false, Option, none, some, leb, if◌then◌else◌}
use rsk.Prelude.Table.{get, pair_key}
use rsk.Rows.Header.{BtcRow}
use rsk.Rows.Fork.{ForkMeta}
use rsk.Btc.Store.Meta.{Chain, fork_meta}

pub data Walk : Type 0 where
  owner : ℕ → Walk
  missing out_of_fuel : Walk

module _ {Header : Type 0} (txn : Chain Header) where
  -- The loop of `owner_fork`, with fuel for its rounds.
  unfoldable pub owner_loop : ℕ → ℕ → ℕ → Walk
  owner_loop zero f height = out_of_fuel
  owner_loop (suc fuel) f height = elim (fork_meta txn f) [
    | none ↦ missing
    | some m ↦ elim (leb m.forkpoint height) [
      | true ↦ owner f
      | false ↦ elim m.parent [ none ↦ missing | some parent ↦ owner_loop fuel parent height ]
    ]
  ]

abbrev pub found : Walk → Option ℕ
found (owner f) = some f
found missing = none
found out_of_fuel = none

module _ {Header : Type 0} (txn : Chain Header) where
  -- A parent has a smaller number than its child (`Owns`), so a fork's number bounds the rounds.
  unfoldable pub owner_fork : ℕ → ℕ → Option ℕ
  owner_fork fork_id height = found (owner_loop txn (suc fork_id) fork_id height)

  unfoldable pub row_at : ℕ → ℕ → Option (BtcRow Header)
  row_at fork_id height = elim (owner_fork fork_id height) [
    | none ↦ none
    | some f ↦ get txn.headers (f, height)
  ]

  unfoldable pub header_at : ℕ → ℕ → Option Header
  header_at fork_id height = elim (row_at fork_id height) [
    | none ↦ none
    | some row ↦ some row.header
  ]

  unfoldable pub work_at : ℕ → ℕ → Option ℕ
  work_at fork_id height = elim (row_at fork_id height) [ none ↦ none | some row ↦ some row.work ]

  unfoldable pub fork_chainwork : ℕ → Option ℕ
  fork_chainwork fork_id = elim (fork_meta txn fork_id) [
    | none ↦ none
    | some m ↦ work_at fork_id m.tip_height
  ]
