-- ===== src/Rsk/Ghost.antt =====
-- The walk of `rsk_subtree_work` in crates/core/src/store/rsk.rs: the blocks below a root, each once.
pub mod Subtree
use rsk.Prelude.{
  member, ℕ, zero, suc, ◌+◌, Bool, true, false, Option, none, some, List, [], ◌∷◌, ◌==◌,
  if◌then◌else◌, length, saturating_add_u256,
}
use rsk.Prelude.Table.{Table}
use rsk.Rows.Block.{RskBlock}
use rsk.Rsk.Forest.{Forest, rsk_block, rsk_children}

-- Each child is pushed on the stack, the last one on top.
abbrev pub push_all : List ℕ → List ℕ → List ℕ
push_all [] stack = stack
push_all (c ∷ cs) stack = push_all cs (c ∷ stack)

-- The total with the work of a block, if it is stored.
abbrev pub add_work : ℕ → Option RskBlock → ℕ
add_work total none = total
add_work total (some b) = saturating_add_u256 total b.cumulative_difficulty

abbrev pub edges : Table ℕ (List ℕ) → ℕ
edges [] = 0
edges ((parent, cs) ∷ rows) = length cs + edges rows

module _ (txn : Forest) where
  -- The loop: the stack, the hashes seen, and the total. `none` is out of fuel.
  unfoldable pub walk : ℕ → List ℕ → List ℕ → ℕ → Option (List ℕ × ℕ)
  walk zero [] seen total = some (seen, total)
  walk zero (hash ∷ stack) seen total = none
  walk (suc fuel) [] seen total = some (seen, total)
  walk (suc fuel) (hash ∷ stack) seen total =
      let skip = walk fuel stack seen total in
      let visit =
        walk fuel (push_all (rsk_children txn hash) stack) (hash ∷ seen)
          (add_work total (rsk_block txn hash)) in
      if member hash seen then skip else visit

  -- Every round pops a hash, and an edge is pushed once at most.
  unfoldable pub rsk_subtree_walk : ℕ → Option (List ℕ × ℕ)
  rsk_subtree_walk root = walk (suc (edges txn.children)) (root ∷ []) [] 0

  unfoldable pub rsk_subtree_work : ℕ → ℕ
  rsk_subtree_work root = elim (rsk_subtree_walk root) [ none ↦ 0 | some (_, total) ↦ total ]
