-- ===== src/Btc/Query.antt =====
-- The queries of crates/core/src/btc.rs: reads of the best chain in one transaction.
pub mod Canonical
pub mod Heights
pub mod Best
use rsk.Prelude.{
  ℕ, zero, suc, ◌+◌, ◌/◌, Bool, true, false, Option, none, some, List, [], ◌∷◌, ◌==◌, leb,
  if◌then◌else◌, add_u64, saturating_add_u64, sub_u256,
}
use rsk.Btc.Validation.{difficulty_period}
use rsk.Btc.Store.Meta.{Chain, best_fork, finalized, fork_meta, fork_tip, locate}
use rsk.Btc.Store.Walk.{work_at, header_at, fork_chainwork}

module _ {Header : Type 0} (txn : Chain Header) where
  unfoldable pub tip_height : Option ℕ
  unfolding best_fork fork_tip
  tip_height = elim (best_fork txn) [
    | none ↦ none
    | some f ↦ elim (fork_tip txn f) [ none ↦ none | some (h, _) ↦ some h ]
  ]

  unfoldable pub chainwork : Option ℕ
  chainwork = elim (best_fork txn) [ none ↦ none | some best ↦ fork_chainwork txn best ]

  unfoldable pub chainwork_at : ℕ → Option ℕ
  chainwork_at height = elim (best_fork txn) [ none ↦ none | some best ↦ work_at txn best height ]

  abbrev difference : Option ℕ → Option ℕ → Option ℕ
  difference none end = none
  difference (some begin) none = none
  difference (some begin) (some end) = some (sub_u256 end begin)

  -- The work of the period behind `tail_start`.
  unfoldable pub btc_tail_work : ℕ → Option ℕ
  btc_tail_work tail_start = elim (best_fork txn) [
    | none ↦ none
    | some best ↦
        difference (work_at txn best tail_start)
          (work_at txn best (saturating_add_u64 tail_start difficulty_period))
  ]

  abbrev pub with_header : ℕ → Option Header → List (ℕ × Header) → List (ℕ × Header)
  with_header height none rest = rest
  with_header height (some h) rest = (height, h) ∷ rest

  -- The rounds from `height` on, as long as it is not above the finalized height.
  unfoldable pub checkpoints_loop : ℕ → ℕ → ℕ → ℕ → List (ℕ × Header)
  checkpoints_loop zero best last height = []
  checkpoints_loop (suc fuel) best last height =
      let rest = checkpoints_loop fuel best last (add_u64 height difficulty_period) in
      if leb height last then with_header height (header_at txn best height) rest else []

  -- There are as many rounds as periods up to the finalized height, and one more.
  unfoldable pub finalized_checkpoints : List (ℕ × Header)
  finalized_checkpoints = elim (finalized txn) [
    | none ↦ []
    | some last ↦ elim (best_fork txn) [
      | none ↦ []
      | some best ↦ checkpoints_loop (suc (last / difficulty_period)) best last 0
    ]
  ]

  unfoldable pub canonical_header_at : ℕ → Option Header
  canonical_header_at height = elim (best_fork txn) [
    | none ↦ none
    | some best ↦ header_at txn best height
  ]

  -- The loop of `is_canonical_at`; `none` is out of fuel.
  unfoldable pub canonical_loop : ℕ → ℕ → ℕ → ℕ → Option Bool
  canonical_loop zero f fork height = none
  canonical_loop (suc fuel) f fork height = elim (fork_meta txn f) [
    | none ↦ some false
    | some m ↦ elim (fork == f) [
      | true ↦ some (leb m.forkpoint height)
      | false ↦ elim m.parent [
        | none ↦ some false
        | some parent ↦ canonical_loop fuel parent fork height
      ]
    ]
  ]

  unfoldable pub is_canonical_at : ℕ → ℕ → Option Bool
  is_canonical_at fork height = elim (best_fork txn) [
    | none ↦ some false
    | some best ↦ if fork == best then some true else canonical_loop (suc best) best fork height
  ]

  abbrev pub then_some : Option Bool → ℕ → Option ℕ
  then_some (some true) height = some height
  then_some _ height = none

  unfoldable pub height_of : ℕ → Option ℕ
  height_of hash = elim (locate txn hash) [
    | none ↦ none
    | some (fork, height) ↦ then_some (is_canonical_at fork height) height
  ]
