-- ===== src/Btc/Connect/Finalize.antt =====
-- `finalize_in_txn` of crates/core/src/btc.rs: the checkpoint rule at the end of a connect.
pub mod Advance
use rsk.Prelude.{
  ℕ, ◌-◌, ◌*◌, ◌/◌, Bool, Option, none, some, ◌==◌, leb, ltb, if◌then◌else◌, sub_u256, unwrap_or,
}
use rsk.Result.{Result, ok, err, internal, ◌>>=◌}
use rsk.Btc.Validation.{difficulty_period}
use rsk.Btc.Store.Meta.{Chain, best_fork, finalized, fork_tip, set_finalized}
use rsk.Btc.Store.Walk.{work_at}

-- `FINALITY_MARGIN_BLOCKS`
abbrev pub finality_margin_blocks : ℕ
finality_margin_blocks = difficulty_period

abbrev pub required {ℓ} : {A : Type ℓ} → Option A → Result A
required none = err internal
required (some a) = ok a

-- The newest period boundary that is the margin below the tip.
unfoldable pub boundary_below : ℕ → ℕ
boundary_below tip = (tip - finality_margin_blocks) / difficulty_period * difficulty_period

module _ {Header : Type 0} where
  -- The works of the period before the boundary and of what was built above it.
  unfoldable pub outweighs : Chain Header → ℕ → ℕ → Result Bool
  outweighs txn tip boundary = do
    at_boundary ← required (work_at txn 0 boundary)
    at_start ← required (work_at txn 0 (boundary - difficulty_period))
    at_tip ← required (work_at txn 0 tip)
    let before = sub_u256 at_boundary at_start
    let after = sub_u256 at_tip at_boundary
    ok (leb before after)

  unfoldable pub finalize_at : Chain Header → ℕ → Result (Option ℕ × Chain Header)
  unfolding boundary_below outweighs finalized
  finalize_at txn tip =
      let boundary = boundary_below tip in
      if ltb tip finality_margin_blocks
      then ok (none, txn)
      else if leb boundary (unwrap_or (finalized txn) 0)
      then ok (none, txn)
      else do
        heavy ← outweighs txn tip boundary
        if heavy then ok (some boundary, set_finalized txn boundary) else ok (none, txn)

  unfoldable pub finalize_in_txn : Chain Header → Result (Option ℕ × Chain Header)
  unfolding finalize_at best_fork fork_tip
  finalize_in_txn txn = elim (best_fork txn) [
    | none ↦ ok (none, txn)
    | some best ↦ elim (fork_tip txn 0) [
      | none ↦ ok (none, txn)
      | some (tip, _) ↦ if best == 0 then finalize_at txn tip else ok (none, txn)
    ]
  ]
