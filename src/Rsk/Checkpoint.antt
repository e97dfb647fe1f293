-- ===== src/Rsk/Checkpoint.antt =====
-- The checkpoint rules of crates/core/src/rsk/checkpoint.rs.
use rsk.Prelude.{
  ℕ, ◌+◌, ◌*◌, ◌<◌, ◌≤◌, ◌≡◌, ◌↔◌, Bool, true, ◌&&◌, Option, none, some, List, arith, ◌==◌, leb,
  ltb, length, if◌then◌else◌, add_u64, mul_u256, u64_mod, u256_mod,
}
use rsk.Bitcoin.{Bitcoin}
use rsk.Btc.Store.Meta.{Chain}
use rsk.Btc.Query.{height_of}
use rsk.Rsk.Consensus.{Rootstock}

abbrev pub anchor_depth : ℕ
anchor_depth = 100

abbrev pub checkpoint_threshold_num : ℕ
checkpoint_threshold_num = 2

abbrev pub checkpoint_threshold_den : ℕ
checkpoint_threshold_den = 3

unfoldable pub in_tail : ℕ → ℕ → ℕ → Bool
in_tail anchor btc_tail_start btc_tip =
    leb btc_tail_start anchor && leb (add_u64 anchor anchor_depth) btc_tip

-- `*` on `U256` wraps.
unfoldable pub clears_threshold : ℕ → ℕ → Bool
clears_threshold rsk_work btc_tail_work =
    ltb (mul_u256 btc_tail_work checkpoint_threshold_num)
      (mul_u256 rsk_work checkpoint_threshold_den)

module _ {Header : Type 0} {RskHeader : Type 0} (lib : Bitcoin Header)
    (rules : Rootstock RskHeader) where
  abbrev decoded : Option (List ℕ) → Option Header
  decoded none = none
  decoded (some bytes) = if length bytes == 80 then lib.consensus_decode bytes else none

  unfoldable pub merge_mining_header : RskHeader → Option Header
  merge_mining_header header = decoded (rules.bitcoin_merged_mining_header header)

  -- The height of the Bitcoin block that the header was built on.
  unfoldable pub anchor_height : Chain Header → RskHeader → Option ℕ
  anchor_height btc header = elim (merge_mining_header header) [
    | none ↦ none
    | some solution ↦ height_of btc (lib.prev_blockhash solution)
  ]

-- An anchor is in the tail exactly if it is at or above the tail's start and buried by the depth.
in_tail_iff :
    (anchor start tip : ℕ)
    → anchor + anchor_depth < u64_mod
    → (in_tail anchor start tip ≡ true) ↔ ((start ≤ anchor) × (anchor + anchor_depth ≤ tip))
unfolding in_tail
in_tail_iff anchor start tip h = ground arith

-- A tree is trusted exactly if three times its work exceeds twice the tail's, where neither product
-- wraps.
clears_threshold_iff :
    (rsk_work btc_work : ℕ)
    → rsk_work * 3 < u256_mod
    → btc_work * 2 < u256_mod
    → (clears_threshold rsk_work btc_work ≡ true) ↔ (btc_work * 2 < rsk_work * 3)
unfolding clears_threshold
clears_threshold_iff rsk_work btc_work h k = ground arith
