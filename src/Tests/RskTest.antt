-- ===== src/Tests/RskTest.antt =====
-- The Rootstock tree on small forests.
use rsk.Prelude.{
  member, Distinct, ℕ, zero, suc, ◌-◌, ◌≡◌, refl, ◌↔◌, Bool, true, false, none, List, [], ◌∷◌, min,
  u256_mod,
}
use rsk.Prelude.Table.{get, nat_key}
use rsk.Result.{ok}
use rsk.Rows.Block.{RskBlock}
use rsk.Rsk.Consensus.{Rootstock}
use rsk.Rsk.Forest.{Forest, RskEntry, rsk_block, rsk_children}
use rsk.Rsk.Ghost.{rsk_subtree_work, rsk_subtree_walk, walk}
use rsk.Rsk.Ghost.Subtree.{Reaches, own_works, rsk_subtree_work_correct}
use rsk.Rsk.Tree.{store_entries, attempt_checkpoint}
use rsk.Rsk.Tree.Attempt.{IsHeaviestOf, attempt_checkpoint-IsHeaviestOf}
use rsk.Rsk.Tree.Accepted.{Accepts, store_entries_iff_Accepts}
use rsk.Rsk.Tree.Grows.{after}

-- A header is its hash, its parent's and its difficulty; a header of difficulty 0 is not valid.
record ToyRsk : Type 0 where
  own : ℕ
  parent : ℕ
  weight : ℕ

abbrev has_weight : ToyRsk → Bool
has_weight h = elim h.weight [ zero ↦ false | suc n ↦ true ]

abbrev rules : Rootstock ToyRsk
rules = record {
  hash = λ h. h.own;
  number = λ h. h.own;
  parent_hash = λ h. h.parent;
  difficulty = λ h. h.weight;
  uncle_count = λ h. 0;
  ommers_hash = λ h. 7;
  bitcoin_merged_mining_header = λ h. none;
  verify = λ h p. has_weight h;
  uncles_valid = λ header uncles h us. true;
  keccak256 = λ bytes. 7;
  encoded_list = λ n. [];
  decode_with_hash = λ bytes. none;
}

abbrev toy_block : ℕ → ℕ → RskBlock
toy_block p w = record { number = 0; parent = p; cumulative_difficulty = w }

-- A root 1 with the children 2 and 3, the edge to 3 stored twice.
abbrev forest : Forest
forest = record {
  headers = [];
  blocks = (1, toy_block 0 5) ∷ (2, toy_block 1 6) ∷ (3, toy_block 1 7) ∷ [];
  children = (1, 2 ∷ 3 ∷ 3 ∷ []) ∷ [];
  uncles = [];
  roots = 1 ∷ [];
}

subtree_18 : rsk_subtree_work forest 1 ≡ 18
unfolding rsk_subtree_work rsk_subtree_walk walk rsk_children rsk_block get
subtree_18 = refl

rsk_subtree_work_correct_example :
    (blocks : List ℕ) × Distinct blocks
    × ((h : ℕ) → (member h blocks ≡ true) ↔ Reaches forest 1 h)
    × (rsk_subtree_work forest 1 ≡ min (own_works forest blocks) (u256_mod - 1))
rsk_subtree_work_correct_example = rsk_subtree_work_correct forest 1

attempt_checkpoint-IsHeaviestOf_example :
    IsHeaviestOf forest 10 20 (1 ∷ []) (attempt_checkpoint forest 10 20)
attempt_checkpoint-IsHeaviestOf_example = attempt_checkpoint-IsHeaviestOf forest 10 20

abbrev entry : RskEntry ToyRsk
entry = record { header = record { own = 4; parent = 3; weight = 9 }; raw = 1 ∷ []; uncles = [] }

store_entries_iff_Accepts_example :
    (store_entries rules forest (entry ∷ []) ≡ ok (after rules forest entry))
    ↔ Accepts rules forest (entry ∷ []) (after rules forest entry)
store_entries_iff_Accepts_example =
    store_entries_iff_Accepts rules forest (after rules forest entry) (entry ∷ [])
