-- ===== src/Tests/RowsTest.antt =====
-- The byte forms of the database records, on concrete records.
use rsk.Prelude.{◌++◌, ℕ, ◌+◌, ◌*◌, ◌^◌, ◌≡◌, refl, Bool, true, none, some, List, [], ◌∷◌, arith}
use rsk.Rows.Meta
use rsk.Rows.Meta.{Meta, u64, meta_from_bytes-as_bytes, IsStorable}
use rsk.Rows.Header.{BtcRow, row_from_bytes, row_as_bytes, row_from_bytes-row_as_bytes}
use rsk.Rows.Fork
use rsk.Rows.Fork.{ForkMeta, reread}
use rsk.Rows.Fork.RoundTrip.{fork_from_bytes-as_bytes}
use rsk.Rows.Block
use rsk.Rows.Block.{RskBlock, block_from_bytes-as_bytes}
use rsk.Rows.Hashes
use rsk.Rows.Hashes.{hashes_from_bytes-as_bytes}
use rsk.Rows.Blobs
use rsk.Rows.Blobs.{blobs_from_bytes-as_bytes}
use rsk.Tests.Sample.{two_headers, two_headers-EncodesHeaders}

abbrev forty_two : Meta
forty_two = u64 42

forty_two-IsStorable : IsStorable (λ t. t) forty_two
forty_two-IsStorable = omega arith

meta_from_bytes-as_bytes_example :
    Meta.from_bytes (λ t. t) (Meta.as_bytes forty_two) ≡ some forty_two
meta_from_bytes-as_bytes_example = meta_from_bytes-as_bytes (λ t. t) forty_two forty_two-IsStorable

abbrev some_row : BtcRow Bool
some_row = record { header = true; work = 2 ^ 70 }

row_from_bytes-row_as_bytes_example :
    row_from_bytes two_headers (row_as_bytes two_headers some_row) ≡ some some_row
row_from_bytes-row_as_bytes_example =
    row_from_bytes-row_as_bytes two_headers two_headers-EncodesHeaders some_row (omega arith)

abbrev some_fork : ForkMeta
some_fork = record {
  forkpoint = 0;
  parent = none;
  forkpoint_hash = 5;
  tip_height = 2016;
  tip_hash = 7;
  tip_work = 2 ^ 64;
}

some_fork-IsStorable : Fork.IsStorable some_fork
some_fork-IsStorable = record {
  forkpoint_lt = omega arith;
  parent_lt = omega arith;
  parent_ne = cc;
  forkpoint_hash_lt = omega arith;
  tip_height_lt = omega arith;
  tip_hash_lt = omega arith;
  tip_work_lt = omega arith;
}

fork_from_bytes-as_bytes_example :
    Fork.from_bytes (Fork.as_bytes some_fork) ≡ some (reread some_fork)
fork_from_bytes-as_bytes_example = fork_from_bytes-as_bytes some_fork some_fork-IsStorable

-- The record that is read back is not the one that was written.
tip_work_is_lost : (reread some_fork).tip_work ≡ 7 * 2 ^ 192 + 1
tip_work_is_lost = refl

abbrev some_block : RskBlock
some_block = record { number = 9; parent = 2 ^ 200; cumulative_difficulty = 77 }

block_from_bytes-as_bytes_example : Block.from_bytes (Block.as_bytes some_block) ≡ some some_block
block_from_bytes-as_bytes_example = block_from_bytes-as_bytes some_block (record {
  number_lt = omega arith;
  parent_lt = omega arith;
  cumulative_difficulty_lt = omega arith;
})

hashes_from_bytes-as_bytes_example :
    Hashes.from_bytes (Hashes.as_bytes (1 ∷ 2 ^ 255 ∷ []) ++ 7 ∷ []) ≡ 1 ∷ 2 ^ 255 ∷ []
hashes_from_bytes-as_bytes_example =
    hashes_from_bytes-as_bytes (1 ∷ 2 ^ 255 ∷ []) (7 ∷ []) (omega arith, (omega arith, tt))
      (omega arith)

abbrev two_blobs : List (List ℕ)
two_blobs = (1 ∷ 2 ∷ []) ∷ [] ∷ []

blobs_from_bytes-as_bytes_example : Blobs.from_bytes (Blobs.as_bytes two_blobs) ≡ two_blobs
blobs_from_bytes-as_bytes_example =
    blobs_from_bytes-as_bytes two_blobs (omega arith) (omega arith, (omega arith, tt))
