-- ===== src/Tests/ChainTest.antt =====
-- The Bitcoin chain, on the headers of `toy`.
use rsk.Prelude.{ℕ, ◌≡◌, ◌≢◌, refl, ◌↔◌, ◌≤◌, Option, none, some, List, [], ◌∷◌, arith}
use rsk.Rows.Fork.{ForkMeta, reread}
use rsk.Rows.Meta.{u64, as_u64}
use rsk.Prelude.Table.{get}
use rsk.Btc.Validation.{median_time_past}
use rsk.Btc.Validation.Median.{median_time_past_rank, count_le, count_ge, count_eq}
use rsk.Btc.Store.Meta.{Chain, fork_meta, best_fork, meta_u64, locate, best_fork_key, meta_key}
use rsk.Btc.Query.{height_of, is_canonical_at, canonical_loop}
use rsk.Btc.Query.Heights.{height_of_iff_Descends}
use rsk.Btc.Query.Canonical.{Descends, itself, child}
use rsk.Btc.Store.Walk.{owner_loop, owner_fork, out_of_fuel}
use rsk.Btc.Store.Walk.Owns.{Owns, ParentsBelow, owner_fork_correct}
use rsk.Tests.Sample.{ToyHeader}

abbrev header : ℕ → ℕ → ℕ → ToyHeader
header p n w = record { prev = p; nonce = n; at = n; target_bits = 1; weight = w }

abbrev empty : Chain ToyHeader
empty = record { headers = []; hash_loc = []; forks = []; checkpoints = []; meta = [] }

-- The chain that is seeded with one header.
abbrev genesis : ToyHeader
genesis = header 0 1 5

abbrev nowhere : ℕ → Option ToyHeader
nowhere h = none

abbrev two : List ToyHeader
two = header 1 2 3 ∷ header 12 3 3 ∷ []

abbrev times : List ℕ
times = 5 ∷ 1 ∷ 3 ∷ 2 ∷ 4 ∷ 9 ∷ 7 ∷ 8 ∷ 6 ∷ 0 ∷ 10 ∷ []

median_time_past_rank_example :
    (6 ≤ count_le (median_time_past times) times)
    × (6 ≤ count_ge (median_time_past times) times)
    × (1 ≤ count_eq (median_time_past times) times)
median_time_past_rank_example = median_time_past_rank times refl

abbrev fork_zero : ForkMeta
fork_zero = record {
  forkpoint = 0;
  parent = none;
  forkpoint_hash = 1;
  tip_height = 4;
  tip_hash = 1;
  tip_work = 0;
}

abbrev fork_one : ForkMeta
fork_one = record {
  forkpoint = 3;
  parent = some 0;
  forkpoint_hash = 2;
  tip_height = 5;
  tip_hash = 2;
  tip_work = 0;
}

abbrev forked : Chain ToyHeader
forked = record empty { forks = (0, fork_zero) ∷ (1, fork_one) ∷ [] }

forked-ParentsBelow : ParentsBelow forked
unfolding fork_meta get
forked-ParentsBelow = record { below = λ f p m there child. ground arith }

owner_fork_correct_example :
    (owner_loop forked 2 1 2 ≢ out_of_fuel)
    × ((o : ℕ) → (owner_fork forked 1 2 ≡ some o) ↔ Owns forked 2 1 o)
owner_fork_correct_example = owner_fork_correct forked forked-ParentsBelow 1 2

-- Fork 1 leaves the root chain at the height 3 and is the best chain; the block 44 of the root
-- chain is at the height 4.
abbrev replaced : Chain ToyHeader
replaced = record forked { hash_loc = (44, (0, 4)) ∷ []; meta = (best_fork_key, u64 1) ∷ [] }

replaced-ParentsBelow : ParentsBelow replaced
unfolding fork_meta get
replaced-ParentsBelow = record { below = λ f p m there child. ground arith }

replaced-Descends : Descends replaced 1 0
unfolding fork_meta get
replaced-Descends = child {p = 0} {m = reread fork_one} refl refl itself

height_of_iff_Descends_example : (height_of replaced 44 ≡ some 4) ↔ Descends replaced 1 0
unfolding fork_meta get best_fork meta_u64 as_u64 locate
height_of_iff_Descends_example =
    height_of_iff_Descends replaced 44 1 0 4 (reread fork_zero) replaced-ParentsBelow refl refl refl
      (omega arith)

-- The block is still given its height, though the best chain has a block of its own there.
replaced_has_height : (height_of replaced 44 ≡ some 4) × (owner_fork replaced 1 4 ≡ some 1)
unfolding fork_meta get best_fork meta_u64 as_u64 locate height_of is_canonical_at canonical_loop
    owner_fork owner_loop
replaced_has_height = (refl, refl)
